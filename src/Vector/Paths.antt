-- ===== src/Vector/Paths.antt =====
-- src/vector/query/api.go: what it uses of Go's strings, which are lists of bytes here.
use nexus_mind.Prelude.{
  ℕ, ◌+◌, ◌*◌, ◌-◌, Bool, true, false, ◌&&◌, Option, none, some, List, [], ◌∷◌, if◌then◌else◌, ◌==◌,
  leb, ltb, ◌^◌,
}
use nexus_mind.Prelude.Int.{ℤ, pos, negsuc}
use nexus_mind.Prelude.Dict.{bytes_eq}

unfoldable pub has_prefix : List ℕ → List ℕ → Bool
has_prefix [] s = true
has_prefix (p ∷ ps) [] = false
has_prefix (p ∷ ps) (c ∷ s) = p == c && has_prefix ps s

abbrev after : List ℕ → List ℕ → List ℕ
after [] s = s
after (p ∷ ps) [] = []
after (p ∷ ps) (c ∷ s) = after ps s

unfoldable pub trim_prefix : List ℕ → List ℕ → List ℕ
unfolding has_prefix
trim_prefix p s = if has_prefix p s then after p s else s

-- `strings.Split(s, "/")`.
unfoldable pub split_slashes : List ℕ → List (List ℕ)
split_slashes [] = [] ∷ []
split_slashes (c ∷ s) =
    let rest = split_slashes s in
    if c == 47 then [] ∷ rest else (elim rest [ [] ↦ [] | part ∷ parts ↦ (c ∷ part) ∷ parts ])

-- `strings.SplitN(s, "/", 2)`: what stands before the first slash, and what stands after it if there
-- is one.
unfoldable pub split_first : List ℕ → List ℕ × Option (List ℕ)
split_first [] = ([], none)
split_first (c ∷ s) =
    let rest = split_first s in if c == 47 then ([], some s) else (c ∷ rest.0, rest.1)

unfoldable pub trim_left : List ℕ → List ℕ
trim_left [] = []
trim_left (c ∷ s) = let rest = trim_left s in if c == 47 then rest else c ∷ s

unfoldable pub trim_right : List ℕ → List ℕ
trim_right [] = []
trim_right (c ∷ s) = elim (trim_right s) [
  | [] ↦ if c == 47 then [] else c ∷ []
  | d ∷ rest ↦ c ∷ d ∷ rest
]

-- `strings.Trim(s, "/")`.
unfoldable pub trim_slashes : List ℕ → List ℕ
unfolding trim_left trim_right
trim_slashes s = trim_right (trim_left s)

abbrev lower : ℕ → ℕ
lower c = if leb b'A' c && leb c b'Z' then c + 32 else c

-- A byte of UTF-8 before bytes in lower case: besides the ASCII capitals, the lower case of İ and of
-- the Kelvin sign is an ASCII letter.
abbrev lower_onto : ℕ → List ℕ → List ℕ
lower_onto c [] = lower c ∷ []
lower_onto c (d ∷ []) = if c == 196 && d == 176 then b'i' ∷ [] else lower c ∷ d ∷ []
lower_onto c (d ∷ e ∷ s) =
    if c == 196 && d == 176
    then b'i' ∷ e ∷ s
    else if c == 226 && d == 132 && e == 170
    then b'k' ∷ s
    else lower c ∷ d ∷ e ∷ s

-- `strings.ToLower`, as far as ASCII letters come of it: the other letters stay.
unfoldable pub to_lower : List ℕ → List ℕ
to_lower [] = []
to_lower (c ∷ s) = lower_onto c (to_lower s)

-- The digits of `strconv.Atoi`, from the number so far.
unfoldable pub digits : ℕ → List ℕ → Option ℕ
digits n [] = some n
digits n (c ∷ s) =
    let rest = digits (n * 10 + (c - 48)) s in if leb b'0' c && leb c b'9' then rest else none

abbrev unsigned : List ℕ → Option ℕ
unsigned [] = none
unsigned (c ∷ s) = digits 0 (c ∷ s)

-- `strconv.Atoi`; what does not fit 64 bits is an error.
unfoldable pub atoi : List ℕ → Option ℤ
unfolding digits
atoi [] = none
atoi (c ∷ s) =
    if c == b'-'
    then (elim (unsigned s) [
      | none ↦ none
      | some n ↦
          if n == 0 then some (pos 0) else if leb n (2 ^ 63) then some (negsuc (n - 1)) else none
    ])
    else (elim (unsigned (if c == b'+' then s else c ∷ s)) [
      | none ↦ none
      | some n ↦ if ltb n (2 ^ 63) then some (pos n) else none
    ])
