-- ===== src/ShardCtrler/Balance/Extremes.antt =====
-- src/shardctrler/state_machine.go: the fullest and the emptiest group, as the two searches find
-- them.
use nexus_mind.Prelude.{
  ℕ, ◌+◌, ◌≤◌, ◌<◌, ◌≡◌, refl, ◌≢◌, ◌⊎◌, inl, inr, not, ◌&&◌, List, [], ◌∷◌, arith, ap, ltb, length,
  Bool-cases, sym, ◌∙◌,
}
use nexus_mind.Prelude.Int.{ℤ, pos, minus_one, ◌==ℤ◌, ==ℤ_iff}
use nexus_mind.ShardCtrler.Common.{n_shards}
use nexus_mind.ShardCtrler.Balance.{
  Table, shards_of, gids_of, insert_gid, sort_gids, max_from, min_from, gid_with_max_shards,
  gid_with_min_shards,
}
use nexus_mind.ShardCtrler.Balance.Sums.{In, total, length-shards_of-le}

In-insert_gid : (g h : ℤ) (gs : List ℤ) → (h ≡ g) ⊎ In g gs → In g (insert_gid h gs)
unfolding insert_gid
In-insert_gid g h [] i = i
In-insert_gid g h (x ∷ gs) i = ground (arith, In-insert_gid g h gs)

In-sort_gids : (g : ℤ) (gs : List ℤ) → In g gs → In g (sort_gids gs)
unfolding sort_gids
In-sort_gids g [] i = i
In-sort_gids g (h ∷ gs) (inl e) = In-insert_gid g h (sort_gids gs) (inl e)
In-sort_gids g (h ∷ gs) (inr i) = In-insert_gid g h (sort_gids gs) (inr (In-sort_gids g gs i))

max_from_lem :
    (m : Table) (gs : List ℤ) (best : ℤ) (most : ℕ)
    → most ≤ length (shards_of best m) + 1
    → (most ≤ length (shards_of (max_from m gs best most) m) + 1)
      × ((g : ℤ)
          → In g gs
          → length (shards_of g m) ≤ length (shards_of (max_from m gs best most) m))
unfolding max_from
max_from_lem m [] best most h = (h, λ g i. absurd i)
max_from_lem m (x ∷ gs) best most h = elim (Bool-cases (ltb most (length (shards_of x m) + 1))) [
  | inl up ↦
      let (p, q) = max_from_lem m gs x (length (shards_of x m) + 1) (omega arith) in
      rw up (
        ground arith,
        λ g i. elim i [
          | inl e ↦ let s = ap (λ k. length (shards_of k m)) e in omega arith
          | inr j ↦ q g j
        ],
      )
  | inr down ↦
      let (p, q) = max_from_lem m gs best most h in
      rw down (
        p,
        λ g i. elim i [
          | inl e ↦ let s = ap (λ k. length (shards_of k m)) e in ground arith
          | inr j ↦ q g j
        ],
      )
]

min_from_lem :
    (m : Table) (gs : List ℤ) (best : ℤ) (least : ℕ)
    → length (shards_of best m) ≤ least
    → best ≢ pos 0
    → (length (shards_of (min_from m gs best least) m) ≤ least)
      × (min_from m gs best least ≢ pos 0)
      × ((g : ℤ)
          → In g gs
          → g ≢ pos 0
          → length (shards_of (min_from m gs best least) m) ≤ length (shards_of g m))
unfolding min_from
min_from_lem m [] best least h nz = (h, nz, λ g i ng. absurd i)
min_from_lem m (x ∷ gs) best least h nz =
    elim (Bool-cases (not (x ==ℤ pos 0) && ltb (length (shards_of x m)) least)) [
      | inl up ↦
          let nx : x ≢ pos 0 = λ e. ground (arith, ==ℤ_iff x (pos 0)) in
          let (p, n, q) = min_from_lem m gs x (length (shards_of x m)) (omega arith) nx in
          rw up (
            ground arith,
            n,
            λ g i ng. elim i [
              | inl e ↦ let s = ap (λ k. length (shards_of k m)) e in omega arith
              | inr j ↦ q g j ng
            ],
          )
      | inr down ↦
          let (p, n, q) = min_from_lem m gs best least h nz in
          rw down (
            p,
            n,
            λ g i ng. elim i [
              | inl e ↦
                  let s = ap (λ k. length (shards_of k m)) e in
                  let nx : x ≢ pos 0 = λ z. ng (sym e ∙ z) in ground (arith, ==ℤ_iff x (pos 0))
              | inr j ↦ q g j ng
            ],
          )
    ]

-- The search for the fullest group: either it is group 0 and that has shards, or group 0 has none
-- and no group has more.
pub gid_with_max_shards_lem :
    (m : Table)
    → ((gid_with_max_shards m ≡ pos 0) × (0 < length (shards_of (pos 0) m)))
      ⊎ ((length (shards_of (pos 0) m) ≡ 0)
          × ((g : ℤ)
              → In g (gids_of m)
              → length (shards_of g m) ≤ length (shards_of (gid_with_max_shards m) m)))
unfolding gid_with_max_shards
gid_with_max_shards_lem m = elim (Bool-cases (ltb 0 (length (shards_of (pos 0) m)))) [
  | inl some_left ↦ inl (rw some_left refl, ground arith)
  | inr none_left ↦
      let (_, q) = max_from_lem m (sort_gids (gids_of m)) minus_one 0 (omega arith) in
      inr (ground arith, λ g i. rw none_left (q g (In-sort_gids g (gids_of m) i)))
]

-- The search for the emptiest group does not find group 0, and no other group has fewer shards.
pub gid_with_min_shards_lem :
    (m : Table)
    → total m ≤ n_shards
    → (gid_with_min_shards m ≢ pos 0)
      × ((g : ℤ)
          → In g (gids_of m)
          → g ≢ pos 0
          → length (shards_of (gid_with_min_shards m) m) ≤ length (shards_of g m))
unfolding gid_with_min_shards
gid_with_min_shards_lem m le =
    let small : length (shards_of minus_one m) ≤ n_shards + 1 =
      omega (arith, length-shards_of-le minus_one m) in
    let (_, n, q) =
      min_from_lem m (sort_gids (gids_of m)) minus_one (n_shards + 1) small
        (λ e. ground (arith, ==ℤ_iff minus_one (pos 0))) in
    (n, λ g i ng. q g (In-sort_gids g (gids_of m) i) ng)
