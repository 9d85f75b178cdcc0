-- ===== src/Simulator/Rank.antt =====
-- The percentiles of the report.
use rateforge.Base.{
  ℕ, suc, ◌+◌, ◌≤◌, ◌<◌, ◌≡◌, refl, true, false, some, List, [], arith, length, get_or,
  get_elem?-eq-get_or, ◌==◌,
}
use rateforge.Base.Int.{ℤ, pos, pos_part, leb_ℤ}
use rateforge.Base.Sort.{tally, sort, IsSorted-rank, sort-IsSorted, length-sort, tally-sort}
use rateforge.Time.{Duration}
use rateforge.Float.{Float}
use rateforge.Simulator.{rank, percentile, sort_durations}

leb_ℤ_total : (a b : ℤ) → leb_ℤ a b ≡ false → leb_ℤ b a ≡ true
leb_ℤ_total a b e = ground arith

leb_ℤ_trans : (a b c : ℤ) → leb_ℤ a b ≡ true → leb_ℤ b c ≡ true → leb_ℤ a c ≡ true
leb_ℤ_trans a b c e f = ground arith

module _ {F : Type 0} ⦃float : Float F⦄ (mul_f : F → F → F) (to_int : F → ℤ) where
  -- Whatever the floating-point product is, the index is in range.
  pub rank-lt : (n : ℕ) (p : F) → 0 < n → pos_part (rank mul_f to_int n p) < n
  unfolding rank
  rank-lt n p h = ground arith

  pub percentile_nothing : (p : F) → percentile mul_f to_int (sort_durations []) p ≡ some (pos 0)
  unfolding percentile sort_durations sort
  percentile_nothing p = refl

  -- For samples, at least one, and whatever the product and the conversion of floating-point
  -- numbers give, percentile reads the sorted samples without a panic, at an index in range: more
  -- samples than that index are at most the one that it returns, and no more than that index are
  -- below it.
  pub percentile_lem :
      (samples : List Duration) (p : F)
      → 0 < length samples
      → let i = pos_part (rank mul_f to_int (length samples) p) in
        (v : Duration) × (percentile mul_f to_int (sort_durations samples) p ≡ some v)
        × (i < length samples)
        × (suc i ≤ tally (λ z. leb_ℤ z v) samples)
        × (length samples ≤ tally (λ z. leb_ℤ v z) samples + i)
  unfolding percentile sort_durations
  percentile_lem samples p h =
      let n = length samples in
      let sorted = sort leb_ℤ samples in
      let i = pos_part (rank mul_f to_int n p) in
      let size = length-sort leb_ℤ samples in
      let lt = rank-lt n p h in
      let v = get_or sorted i (pos 0) in
      let read = get_elem?-eq-get_or sorted i (pos 0) (omega (arith, size, lt)) in
      let (low, high) =
        IsSorted-rank leb_ℤ leb_ℤ_total leb_ℤ_trans sorted i v
          (sort-IsSorted leb_ℤ leb_ℤ_total leb_ℤ_trans samples) read in
      let some_there : (n == 0) ≡ false = ground arith in
      (
        v,
        simp (size, some_there) read,
        lt,
        omega (arith, low, tally-sort leb_ℤ (λ z. leb_ℤ z v) samples),
        omega (arith, high, size, tally-sort leb_ℤ (λ z. leb_ℤ v z) samples),
      )
