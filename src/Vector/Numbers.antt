-- ===== src/Vector/Numbers.antt =====
-- What the vector database in src/models/ and src/vector/ uses of Go's float32 and float64, whose
-- arithmetic is a parameter.
use nexus_mind.Prelude.{ℕ, Bool}
use nexus_mind.Prelude.Int.{ℤ}

-- float32; `sqrt`, `abs` and the exponentials go through float64 and back.
pub record Float32 (F : Type 0) : Type 0 where
  pub add : F → F → F
  pub sub : F → F → F
  pub mul : F → F → F
  pub div : F → F → F
  pub zero32 : F
  pub one32 : F
  pub infinity : F
  pub sqrt : F → F
  pub abs : F → F
  -- `float32(math.Exp(-float64(x)))` and `float32(math.Exp(-float64(x) * 0.5))`.
  pub exp_neg : F → F
  pub exp_neg_half : F → F
  -- `math.Float32bits` and `math.Float32frombits`.
  pub bits : F → ℕ
  pub from_bits : ℕ → F
  -- `<`, `<=` and `==`; a NaN is in no relation.
  pub lt32 : F → F → Bool
  pub le32 : F → F → Bool
  pub eq32 : F → F → Bool

-- float64, with `float64(n)` of an int.
pub record Float64 (D : Type 0) : Type 0 where
  pub lt64 : D → D → Bool
  pub eq64 : D → D → Bool
  pub of_int : ℤ → D
