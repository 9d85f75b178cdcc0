-- ===== src/Bucket/Race/Spend.antt =====
-- The accesses of Allow, but for those of its refill, and the loads of a configuration.
use rateforge.Base.{
  ℕ, ◌+◌, ◌-◌, ◌^◌, ◌≤◌, ◌<◌, ◌≡◌, refl, Bool, true, false, inl, inr, arith, if◌then◌else◌, Option,
  none, some, Bool-cases, either,
}
use rateforge.Base.Int.{
  ℤ, pos, pos_part, ◌≤ℤ◌, ltb_ℤ, leb_ℤ, eq_ℤ, pos_of_nonneg, InRange, add64-pos, sub64-pos, add64,
  sub64,
}
use rateforge.Time.{Time, second}
use rateforge.Bucket.{BucketConfig, Bucket, request_cost}
use rateforge.Window
use rateforge.Window.{SlidingWindow}
use rateforge.Bucket.Valid.{IsTame}
use rateforge.Bucket.Race.{
  advance, for_request, for_schedule, enter, plan_request, plan_refill, weigh, pay, ask, entering,
  reading, due, measuring, touching, weighing, paying, gating, refunding, returned, finished,
}
use rateforge.Bucket.Race.Cover.{IsCovered, Covers, moved}

lower : (a b : ℤ) → pos 0 ≤ℤ a → a ≤ℤ b → pos_part a ≤ pos_part b
lower a b h k = ground arith

module _ (end : Time) (cfg : BucketConfig) (tame : IsTame cfg)
    (cost : (pos 1 ≤ℤ cfg.tokens_per_request) × InRange cfg.tokens_per_request) (total : ℕ)
    (small : total < 2 ^ 63) where
  pub enter-Covers :
      (now : Time) (b : Bucket)
      → IsCovered end cfg total (entering now) b
      → Covers end cfg total (enter now b, b)
  unfolding enter
  enter-Covers now b v =
      either (λ c. Covers end cfg total (c, b)) b.blocked
        (moved end cfg total (entering now) (returned (false, pos 0)) b v tt (omega arith))
        (moved end cfg total (entering now) (reading now) b v v.fits (omega arith))

  pub plan_request-Covers :
      (now : Time) (b : Bucket)
      → IsCovered end cfg total (reading now) b
      → Covers end cfg total (plan_request now b, b)
  unfolding plan_request
  plan_request-Covers now b v = elim (Bool-cases (ltb_ℤ (pos 0) b.config.refill_interval)) [
    | inl on ↦ rw on (
        moved end cfg total (reading now) (measuring for_request now b.config) b v
          (v.fits, v.config, ground arith) (omega arith))
    | inr off ↦ rw off (
        moved end cfg total (reading now) (touching now b.config) b v (v.fits, v.config)
          (omega arith))
  ]

  pub plan_refill-Covers :
      (now : Time) (b : Bucket)
      → IsCovered end cfg total (due now) b
      → Covers end cfg total (plan_refill now b, b)
  unfolding plan_refill
  plan_refill-Covers now b v = elim (Bool-cases (leb_ℤ b.config.refill_interval (pos 0))) [
    | inl off ↦ rw off (moved end cfg total (due now) finished b v tt (omega arith))
    | inr on ↦ rw on (
        moved end cfg total (due now) (measuring for_schedule now b.config) b v
          (v.fits, v.config, ground arith) (omega arith))
  ]

  request_cost_lem : request_cost cfg ≡ cfg.tokens_per_request
  unfolding request_cost
  request_cost_lem = ground (arith, cost)

  pub weigh-Covers :
      (now : Time) (b : Bucket)
      → IsCovered end cfg total (weighing now cfg) b
      → Covers end cfg total (weigh now cfg b, b)
  unfolding weigh
  weigh-Covers now b v =
      simp request_cost_lem (elim (Bool-cases (ltb_ℤ b.tokens cfg.tokens_per_request)) [
        | inl short ↦ simp short (moved end cfg total (weighing now cfg) _ b v tt (omega arith))
        | inr enough ↦ simp enough (
            moved end cfg total (weighing now cfg) (paying now cfg b.tokens) b v
              (v.fits.0, refl, ground arith) (omega arith))
      ])

  pub pay-Covers :
      (now : Time) (current : ℤ) (b : Bucket)
      → IsCovered end cfg total (paying now cfg current) b
      → Covers end cfg total (pay now cfg current b)
  unfolding pay
  pay-Covers now current b v =
      let t = pos_part current in
      let n = pos_part cfg.tokens_per_request in
      let en = pos_of_nonneg cfg.tokens_per_request (omega (arith, cost)) in
      let et = pos_of_nonneg current (omega (arith, cost, v.fits)) in
      let enough : n ≤ t = lower cfg.tokens_per_request current (omega (arith, cost)) v.fits.2 in
      simp request_cost_lem (elim (Bool-cases (eq_ℤ b.tokens current)) [
        | inr lost ↦ simp lost (
            moved end cfg total (paying now cfg current) (weighing now cfg) b v (v.fits.0, refl)
              (omega arith))
        | inl won ↦
            let same : pos_part b.tokens ≡ t = ground arith in
            let left : sub64 current cfg.tokens_per_request ≡ pos (t - n) =
              rw (et, en) (sub64-pos t n enough (omega (arith, v.bound, same))) in
            simp (won, left)
              (record {
                config = v.config;
                level = omega arith;
                clock = v.clock;
                fits = (v.fits.0, refl);
                bound = omega (arith, v.bound, same, enough);
              })
      ])

  pub asked-Covers :
      (now : Time) (b : Bucket) (w : SlidingWindow) (answer : Option Bool)
      → IsCovered end cfg total (gating now cfg) b
      → Covers end cfg total (
        elim answer [
          | none ↦ returned (false, second)
          | some granted ↦ if granted then returned (true, pos 0) else refunding cfg
        ],
        record b { window = some w },
      )
  asked-Covers now b w none v = record {
    config = v.config;
    level = v.level;
    clock = v.clock;
    fits = tt;
    bound = omega (arith, v.bound);
  }
  asked-Covers now b w (some true) v = record {
    config = v.config;
    level = v.level;
    clock = v.clock;
    fits = tt;
    bound = v.bound;
  }
  asked-Covers now b w (some false) v = record {
    config = v.config;
    level = v.level;
    clock = v.clock;
    fits = refl;
    bound = v.bound;
  }

  pub ask-Covers :
      (now : Time) (o : Option SlidingWindow) (b : Bucket)
      → IsCovered end cfg total (gating now cfg) b
      → Covers end cfg total (ask now cfg o b)
  unfolding ask
  ask-Covers now none b v =
      moved end cfg total (gating now cfg) (returned (true, pos 0)) b v tt (omega arith)
  ask-Covers now (some w) b v = asked-Covers now b (Window.allow now w).1 (Window.allow now w).0 v

  pub refund-Covers :
      (b : Bucket)
      → IsCovered end cfg total (refunding cfg) b
      → Covers end cfg total (advance (refunding cfg) b)
  unfolding advance
  refund-Covers b v =
      let t = pos_part b.tokens in
      let n = pos_part cfg.tokens_per_request in
      let en = pos_of_nonneg cfg.tokens_per_request (omega (arith, cost)) in
      let et = pos_of_nonneg b.tokens v.level in
      let whole : add64 b.tokens cfg.tokens_per_request ≡ pos (t + n) =
        rw (et, en) (add64-pos t n (omega (arith, v.bound))) in
      simp (request_cost_lem, whole)
        (record {
          config = v.config;
          level = omega arith;
          clock = v.clock;
          fits = tt;
          bound = omega (arith, v.bound);
        })
