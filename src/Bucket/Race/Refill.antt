-- ===== src/Bucket/Race/Refill.antt =====
-- The accesses of lazyRefill.
use native.Mathlib.Nat.{div-mul-le_self, div-le_self, mul-le-mul_left}
use native.Mathlib.Decide.{dec_lt}
use rateforge.Base.{
  ℕ, ◌+◌, ◌-◌, ◌*◌, ◌/◌, ◌^◌, ◌≤◌, ◌<◌, ◌≡◌, ap, refl, true, inl, inr, arith, Bool-cases, leb,
}
use rateforge.Base.Int.{
  ℤ, pos, pos_part, ◌≤ℤ◌, ltb_ℤ, leb_ℤ, eq_ℤ, pos_of_nonneg, InRange, div64, mul64, div64-pos,
  mul64-pos, wrap64, wrap64-+ℤ-pos, ◌+ℤ◌, add64-pos, add64,
}
use rateforge.Time.{Time, sub_time}
use rateforge.Bucket.{BucketConfig, Bucket}
use rateforge.Bucket.Valid.{IsTame, elapsed_pos, elapsed_negsuc, div64-negsuc}
use rateforge.Bucket.Meter.{div_split}
use rateforge.Bucket.Race.{
  Call, Purpose, refilled, measure, claim, add, store, measuring, claiming, adding, storing,
}
use rateforge.Bucket.Race.Cover.{IsCovered, Covers, moved, refilled-Fits}

module _ (end : Time) (cfg : BucketConfig) (tame : IsTame cfg)
    (cost : (pos 1 ≤ℤ cfg.tokens_per_request) × InRange cfg.tokens_per_request) (total : ℕ)
    (small : total < 2 ^ 63) where
  -- The loaded time is no later than `now` where an interval is over.
  pub measure-Covers :
      (p : Purpose) (now : Time) (b : Bucket)
      → IsCovered end cfg total (measuring p now cfg) b
      → Covers end cfg total (measure p now cfg b, b)
  unfolding measure
  measure-Covers p now b v =
      let w = pos_part now in
      let l = pos_part b.last_refill_time in
      let i = pos_part cfg.refill_interval in
      let en = pos_of_nonneg now v.fits.0.0.0 in
      let el = pos_of_nonneg b.last_refill_time v.clock.0 in
      let ei = pos_of_nonneg cfg.refill_interval (omega (arith, v.fits.2)) in
      let (f, o) = refilled-Fits end cfg total p now v.fits.0 in
      let idle =
        moved end cfg total (measuring p now cfg) (refilled p now cfg) b v f (omega (arith, o)) in
      elim (dec_lt w l) [
        | yes back ↦
            let none_over : leb_ℤ (div64 (sub_time now b.last_refill_time) cfg.refill_interval)
                  (pos 0)
                ≡ true =
              rw (en, el, ei, elapsed_negsuc w l back (ground (arith, v.clock)))
                (div64-negsuc (l - w - 1) i (ground (arith, v.clock))) in
            simp none_over idle
        | no on ↦
            let over : div64 (sub_time now b.last_refill_time) cfg.refill_interval
                ≡ pos ((w - l) / i) =
              rw (en, el, ei, elapsed_pos w l (omega arith) (ground (arith, v.fits)))
                (div64-pos (w - l) i (ground (arith, v.fits, div-le_self (w - l) i))) in
            simp over (elim (Bool-cases (leb ((w - l) / i + 0) 0)) [
              | inl nothing_over ↦ simp nothing_over idle
              | inr due_now ↦ simp due_now (
                  moved end cfg total (measuring p now cfg)
                    (claiming p now cfg b.last_refill_time (pos ((w - l) / i))) b v
                    (v.fits.0, refl, v.fits.2, v.clock, ground arith, refl) (omega arith))
            ])
      ]

  module _ (p : Purpose) (now last : Time) (intervals : ℤ) (b : Bucket)
      (v : IsCovered end cfg total (claiming p now cfg last intervals) b) where
    pub claim-Covers : Covers end cfg total (claim p now cfg last intervals b)
    unfolding claim
    claim-Covers =
        let w = pos_part now in
        let l = pos_part last in
        let i = pos_part cfg.refill_interval in
        let r = pos_part cfg.refill_rate in
        let k = (w - l) / i in
        let el = pos_of_nonneg last v.fits.3.0 in
        let ei = pos_of_nonneg cfg.refill_interval (omega (arith, v.fits.2)) in
        let er = pos_of_nonneg cfg.refill_rate tame.rate in
        let slow : r ≤ i = ground (arith, tame.pace, v.fits.2) in
        let used = div-mul-le_self (w - l) i in
        let less = mul-le-mul_left k slow in
        let next : mul64 intervals cfg.refill_interval ≡ pos (k * i) =
          rw (v.fits.5, ei) (mul64-pos k i (ground (arith, v.fits, used))) in
        let amount : mul64 intervals cfg.refill_rate ≡ pos (k * r) =
          rw (v.fits.5, er) (mul64-pos k r (ground (arith, v.fits, used, less))) in
        let new_last : wrap64 (last +ℤ pos (k * i)) ≡ pos (l + k * i) =
          rw el (wrap64-+ℤ-pos l (k * i) (ground (arith, v.fits, used))) in
        simp (next, amount, new_last)
          (elim (Bool-cases (eq_ℤ b.last_refill_time last)) [
            | inr lost ↦ simp lost (
                moved end cfg total (claiming p now cfg last intervals) (measuring p now cfg) b v
                  (v.fits.0, refl, v.fits.2) (omega arith))
            | inl won ↦
                let same : pos_part b.last_refill_time ≡ l = ground arith in
                let split = div_split l w (pos_part end) i (ground (arith, v.fits)) in
                let paid = ap (λ (t : ℕ). t * r) split in
                simp won (record {
                  config = v.config;
                  level = v.level;
                  clock = ground (arith, v.fits, used);
                  fits = (v.fits.0, refl, omega arith);
                  bound = omega (arith, rw same at v.bound, paid);
                })
          ])

  pub add-Covers :
      (p : Purpose) (now : Time) (amount : ℤ) (b : Bucket)
      → IsCovered end cfg total (adding p now cfg amount) b
      → Covers end cfg total (add p now cfg amount b, b)
  unfolding add
  add-Covers p now amount b v =
      let t = pos_part b.tokens in
      let a = pos_part amount in
      let et = pos_of_nonneg b.tokens v.level in
      let ea = pos_of_nonneg amount v.fits.2 in
      let sum : add64 b.tokens amount ≡ pos (t + a) =
        rw (et, ea) (add64-pos t a (omega (arith, v.bound))) in
      let next : ℤ → Call = λ updated. storing p now cfg amount b.tokens updated in
      simp sum (elim (Bool-cases (ltb_ℤ cfg.max_tokens (pos (t + a)))) [
        | inl full ↦ simp full (
            moved end cfg total (adding p now cfg amount) (next cfg.max_tokens) b v
              (v.fits.0, refl, v.fits.2, v.level, tame.cap.0, ground arith) (omega arith))
        | inr below ↦ simp below (
            moved end cfg total (adding p now cfg amount) (next (pos (t + a))) b v
              (v.fits.0, refl, v.fits.2, v.level, omega arith, omega arith) (omega arith))
      ])

  pub store-Covers :
      (p : Purpose) (now : Time) (amount current updated : ℤ) (b : Bucket)
      → IsCovered end cfg total (storing p now cfg amount current updated) b
      → Covers end cfg total (store p now cfg amount current updated b)
  unfolding store
  store-Covers p now amount current updated b v = elim (Bool-cases (eq_ℤ b.tokens current)) [
    | inr lost ↦ simp lost (
        moved end cfg total (storing p now cfg amount current updated) (adding p now cfg amount) b v
          (v.fits.0, refl, v.fits.2) (omega arith))
    | inl won ↦
        let same : pos_part b.tokens ≡ pos_part current = ground arith in
        let (f, o) = refilled-Fits end cfg total p now v.fits.0 in
        simp won (record {
          config = v.config;
          level = v.fits.4;
          clock = v.clock;
          fits = f;
          bound = omega (arith, v.bound, v.fits.5, same, o);
        })
  ]
