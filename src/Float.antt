-- ===== src/Float.antt =====
-- What the program uses of Go's float64, as operations of a type `F`.
pub mod Sample
use rateforge.Base.{ℕ, Bool}
use rateforge.Base.Int.{ℤ}

-- `decimal d n` is the constant `d / 10 ^ n`; `of_int` is the conversion of an int64. On a NaN both
-- comparisons answer `false`.
pub record Float (F : Type 0) : Type 0 where
  pub decimal : ℕ → ℕ → F
  pub of_int : ℤ → F
  pub add_f : F → F → F
  pub div_f : F → F → F
  pub lt_f : F → F → Bool
  pub le_f : F → F → Bool

module _ {F : Type 0} ⦃float : Float F⦄ where
  -- `0`
  abbrev pub zero_f : F
  zero_f = float.decimal 0 0

  -- `1.0`
  abbrev pub one_f : F
  one_f = float.decimal 1 0
