-- ===== src/Bucket/Retry.antt =====
-- The wait that a refused request is told.
use native.Mathlib.Nat.{
  div-mul-le_self, le-div_iff_mul-le, lt-div-mul-add, mul-le-mul_right, mul-le-mul_left,
  div-lt_iff_lt-mul,
}
use native.Mathlib.Decide.{dec_lt}
use rateforge.Base.{
  ℕ, ◌+◌, ◌-◌, ◌*◌, ◌/◌, ◌^◌, ◌≤◌, ◌<◌, ◌≡◌, ◌∙◌, ap, sym, subst, Bool, true, false, arith, none,
}
use rateforge.Base.Int.{
  pos, pos_part, ◌+ℤ◌, +ℤ_parts, ◌≤ℤ◌, ◌<ℤ◌, pos_of_nonneg, add64-pos, sub64-pos, mul64-pos,
  div64-pos,
}
use rateforge.Time.{Time, Duration}
use rateforge.Bucket.{BucketConfig, Bucket, retry_after, allow}
use rateforge.Bucket.Meter.{Meter, elapsed, refill, serve-paid}
use rateforge.Bucket.Valid.{IsClock}
use rateforge.Bucket.Refine.{view, IsValid, topped-IsValid}
use rateforge.Bucket.Allow.{allow_refines, allow-short, found, balance, cost, gate}

-- The intervals that bring in `d` tokens.
abbrev intervals_for : ℕ → ℕ → ℕ
intervals_for d r = (d + r - 1) / r

intervals_for-enough : (d r : ℕ) → 0 < r → d ≤ intervals_for d r * r
intervals_for-enough d r h = omega (arith, lt-div-mul-add {a = d + r - 1} h)

intervals_for-le : (d r : ℕ) → 0 < r → intervals_for d r ≤ d
intervals_for-le d r h =
    let grows = mul-le-mul_left d h in
    let below : intervals_for d r < d + 1 = (div-lt_iff_lt-mul h).1 (omega (arith, grows)) in
    omega arith

-- Without overflow the wait is that number of intervals.
retry_after_pos :
    (cfg : BucketConfig) (n l r i : ℕ)
    → cfg.refill_rate ≡ pos r
    → cfg.refill_interval ≡ pos i
    → 0 < r
    → 0 < i
    → r < 2 ^ 62
    → l < n
    → n < 2 ^ 62
    → n * i < 2 ^ 62
    → retry_after cfg (pos n) (pos l) ≡ pos (intervals_for (n - l) r * i)
unfolding retry_after
retry_after_pos cfg n l r i er ei hr hi rr h hn hw =
    let few = intervals_for-le (n - l) r hr in
    let less : intervals_for (n - l) r * i ≤ n * i = mul-le-mul_right i (omega arith) in
    rw
      (
        er,
        ei,
        sub64-pos n l (omega arith) (omega arith),
        add64-pos (n - l) r (omega arith),
        sub64-pos (n - l + r) 1 (omega arith) (omega arith),
        div64-pos (n - l + r - 1) r (omega arith),
        mul64-pos (intervals_for (n - l) r) i (omega arith),
      )
      (ground arith)

-- A meter short of `n` tokens holds them after the intervals for the rest, if its last refill is past.
waited :
    (m : Meter) (now later n : ℕ)
    → m.since ≤ now
    → 0 < m.rate
    → 0 < m.interval
    → n ≤ m.cap
    → now + intervals_for (n - m.level) m.rate * m.interval ≤ later
    → n ≤ (refill later m).level
unfolding refill
waited m now later n h hr hi hn hl =
    let k = intervals_for (n - m.level) m.rate in
    let rounds : k ≤ elapsed later m = (le-div_iff_mul-le hi).1 (omega arith) in
    let more = mul-le-mul_right m.rate rounds in
    omega (arith, more, intervals_for-enough (n - m.level) m.rate hr)

since-le : (now : ℕ) (m : Meter) → m.since ≤ now → (refill now m).since ≤ now
unfolding refill
since-le now m h = omega (arith, div-mul-le_self (now - m.since) m.interval)

-- With the tokens at hand and no second gate a request is granted.
pub granted_when_paid :
    (t : Time) (b : Bucket)
    → IsValid b
    → IsClock t
    → b.blocked ≡ false
    → b.window ≡ none
    → cost b ≤ balance t b
    → (allow t b).0.0 ≡ true
granted_when_paid t b v c on bare h =
    let l = balance t b - cost b in
    ap (λ (r : Bool × Meter). r.0)
      ((allow_refines t b v c).0
        ∙ serve-paid (pos_part t) (cost b) l b.blocked (gate t b.window) (view b) on (omega arith))
    ∙ ap (gate t) bare

module _ (now : Time) (b : Bucket) (v : IsValid b) (c : IsClock now)
    (past : b.last_refill_time ≤ℤ now) (on : b.blocked ≡ false) (bare : b.window ≡ none)
    (hr : pos 0 <ℤ b.config.refill_rate) (hi : pos 0 <ℤ b.config.refill_interval)
    (hn : b.config.tokens_per_request ≤ℤ b.config.max_tokens)
    (hw : pos_part b.config.tokens_per_request * pos_part b.config.refill_interval < 2 ^ 62)
    (short : balance now b < cost b) where
  -- The wait, in nanoseconds.
  abbrev wait : ℕ
  wait =
      intervals_for (cost b - balance now b) (pos_part b.config.refill_rate)
      * pos_part b.config.refill_interval

  told : retry_after b.config (pos (cost b)) (pos (balance now b)) ≡ pos wait
  told =
      let one : 1 ≤ cost b = ground (arith, v.cost) in
      let long = mul-le-mul_right (pos_part b.config.refill_interval) one in
      retry_after_pos b.config (cost b) (balance now b) (pos_part b.config.refill_rate)
        (pos_part b.config.refill_interval) (pos_of_nonneg b.config.refill_rate (omega arith))
        (pos_of_nonneg b.config.refill_interval (omega arith)) (ground arith) (ground arith)
        (ground (arith, v.tame.pace)) short (ground (arith, v.tame.cap)) hw

  short_granted : IsClock (now +ℤ pos wait) → (allow (now +ℤ pos wait) (found now b)).0.0 ≡ true
  short_granted k =
      let t = topped-IsValid now b v c in
      let v' : IsValid (found now b) = record {
        tame = t.tame;
        cost = t.cost;
        level = t.level;
        clock = t.clock;
        gate = t.gate;
        fine = t.fine;
      } in
      granted_when_paid (now +ℤ pos wait) (found now b) v' k on bare (
        waited (view (found now b)) (pos_part now) (pos_part (now +ℤ pos wait)) (cost b)
          (since-le (pos_part now) (view b) (ground arith)) (ground arith) (ground arith)
          (ground arith) (ground (arith, +ℤ_parts now (pos wait))))

-- A request that Allow refuses on a valid bucket which is neither blocked nor has a window is
-- granted after the wait that the refusal tells, on the bucket that the refusal left, if RefillRate
-- and RefillInterval are positive, MaxTokens covers a request, the cost times the interval is below
-- 2^62, the last refill is not in the future, and both times are clock readings.
pub retry_granted :
    (now : Time) (b : Bucket)
    → IsValid b
    → IsClock now
    → b.last_refill_time ≤ℤ now
    → b.blocked ≡ false
    → b.window ≡ none
    → pos 0 <ℤ b.config.refill_rate
    → pos 0 <ℤ b.config.refill_interval
    → b.config.tokens_per_request ≤ℤ b.config.max_tokens
    → pos_part b.config.tokens_per_request * pos_part b.config.refill_interval < 2 ^ 62
    → let (answer, b') = allow now b in
      answer.0 ≡ false → IsClock (now +ℤ answer.1) → (allow (now +ℤ answer.1) b').0.0 ≡ true
retry_granted now b v c past on bare hr hi hn hw refused later =
    elim (dec_lt (balance now b) (cost b)) [
      | no paid ↦ cc (granted_when_paid now b v c on bare (omega arith))
      | yes short ↦
          let e =
            allow-short now b v c on short
            ∙ ap (λ (d : Duration). ((false, d), found now b))
                (told now b v c past on bare hr hi hn hw short) in
          subst
            (λ (r : (Bool × Duration) × Bucket).
              IsClock (now +ℤ r.0.1) → (allow (now +ℤ r.0.1) r.1).0.0 ≡ true)
            (sym e) (short_granted now b v c past on bare hr hi hn hw short) later
    ]
