-- ===== src/Bucket/Valid.antt =====
-- The invariant of a bucket, and the arithmetic of its refill without overflow.
use native.Mathlib.Nat.{div-le_self, div-mul-le_self, zero-div, le_trans, mul-le-mul_left}
use native.Mathlib.Decide.{dec_lt}
use rateforge.Base.{
  ℕ, suc, ◌+◌, ◌-◌, ◌*◌, ◌/◌, ◌^◌, ◌≤◌, ◌<◌, ◌≡◌, ◌∙◌, ap, ap₂, refl, true, ◌⊎◌, inl, inr, arith,
  ltb, leb, min, if◌then◌else◌, Bool-cases,
}
use rateforge.Base.Int.{
  ℤ, pos, negsuc, ◌-ℤ◌, ◌≤ℤ◌, ◌<ℤ◌, leb_ℤ, InRange, wrap64, quot, div64, add64-pos, mul64-pos,
  div64-pos, wrap64-+ℤ-pos,
}
use rateforge.Time.{sub_time}
use rateforge.Bucket.{BucketConfig, Bucket, lazy_refill}

-- A clock reading before the year 2116, so that a sum of two stays in range.
abbrev pub IsClock : ℤ → Type 0
IsClock t = (pos 0 ≤ℤ t) × (t <ℤ pos (2 ^ 62))

-- A configuration whose refill cannot overflow: at most one token per nanosecond on average.
pub record IsTame (cfg : BucketConfig) : Type 0 where
  pub cap : (pos 0 ≤ℤ cfg.max_tokens) × (cfg.max_tokens <ℤ pos (2 ^ 62))
  pub rate : pos 0 ≤ℤ cfg.refill_rate
  pub pace : (cfg.refill_rate ≤ℤ cfg.refill_interval) ⊎ (cfg.refill_interval ≤ℤ pos 0)
  pub interval : InRange cfg.refill_interval

pub elapsed_pos : (w l : ℕ) → l ≤ w → w < 2 ^ 62 → sub_time (pos w) (pos l) ≡ pos (w - l)
unfolding sub_time ◌-ℤ◌
elapsed_pos w l h k = ground arith

pub elapsed_negsuc : (w l : ℕ) → w < l → l < 2 ^ 62 → sub_time (pos w) (pos l) ≡ negsuc (l - w - 1)
unfolding sub_time ◌-ℤ◌
elapsed_negsuc w l h k = ground arith

pub div64-negsuc : (n i : ℕ) → n < 2 ^ 62 → leb_ℤ (div64 (negsuc n) (pos i)) (pos 0) ≡ true
unfolding div64 quot wrap64
div64-negsuc n i h = ground (arith, div-le_self (suc n) i)

module _ (b : Bucket) (cfg : BucketConfig) (w l i m r t : ℕ) (em : cfg.max_tokens ≡ pos m)
    (er : cfg.refill_rate ≡ pos r) (ei : cfg.refill_interval ≡ pos i) (et : b.tokens ≡ pos t)
    (el : b.last_refill_time ≡ pos l) (hi : 0 < i) (hr : r ≤ i) (hw : w < 2 ^ 62) (hl : l < 2 ^ 62)
    (hm : m < 2 ^ 62) (ht : t ≤ m) where
  abbrev rounds : ℕ
  rounds = (w - l) / i

  rounds-bounds : (rounds * i ≤ w - l) × (rounds * r ≤ w - l) × (rounds ≤ w - l)
  rounds-bounds =
      let used = div-mul-le_self (w - l) i in
      (used, le_trans (mul-le-mul_left rounds hr) used, div-le_self (w - l) i)

  abbrev balance : ℕ → ℕ → Bucket
  balance level since = record b { tokens = pos level; last_refill_time = pos since }

  capped :
      (if leb (rounds + 0) 0 then balance t l else record b {
        tokens = if ltb (m + 0) (t + rounds * r + 0) then pos m else pos (t + rounds * r);
        last_refill_time = pos (l + rounds * i);
      })
      ≡ balance (min m (t + rounds * r)) (l + rounds * i)
  capped = elim (Bool-cases (leb (rounds + 0) 0)) [
    | inl idle ↦
        let still : rounds ≡ 0 = ground arith in
        rw (idle, still) (ap₂ balance (omega arith) (omega arith))
    | inr due ↦ rw due (elim (Bool-cases (ltb (m + 0) (t + rounds * r + 0))) [
      | inl full ↦ rw full (ap₂ balance (ground arith) refl)
      | inr below ↦ rw below (ap₂ balance (ground arith) refl)
    ])
  ]

  -- In range, the refill is that of the natural numbers.
  pub lazy_refill_pos :
      lazy_refill (pos w) cfg b ≡ balance (min m (t + rounds * r)) (l + rounds * i)
  unfolding lazy_refill
  lazy_refill_pos = elim (dec_lt w l) [
    | yes back ↦
        let still : rounds ≡ 0 = ap (λ (d : ℕ). d / i) (omega arith) ∙ zero-div i in
        rw (et, el, ei, elapsed_negsuc w l back hl, div64-negsuc (l - w - 1) i (omega arith), still)
          (ap₂ balance (omega arith) (omega arith))
    | no on ↦
        let (b1, b2, b3) = rounds-bounds in
        rw
          (
            et,
            el,
            ei,
            er,
            em,
            elapsed_pos w l (omega arith) hw,
            div64-pos (w - l) i (omega arith),
            mul64-pos rounds i (omega arith),
            mul64-pos rounds r (omega arith),
            add64-pos t (rounds * r) (omega arith),
            wrap64-+ℤ-pos l (rounds * i) (omega arith),
          )
          capped
  ]
