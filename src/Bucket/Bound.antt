-- ===== src/Bucket/Bound.antt =====
-- What a bucket can grant over any sequence of requests and scheduled refills.
use native.Mathlib.Nat.{le_trans}
use rateforge.Base.{
  ℕ, ◌+◌, ◌-◌, ◌*◌, ◌/◌, ◌≤◌, ◌≡◌, ap, sym, subst, Bool, true, false, arith, if◌then◌else◌, List,
  [], ◌∷◌,
}
use rateforge.Base.Int.{ℤ, pos, pos_part, ◌≤ℤ◌}
use rateforge.Time.{Time}
use rateforge.Bucket.{
  BucketConfig, Bucket, refreshed, scheduled_refill, allow, lazy_refill, check_window,
}
use rateforge.Bucket.Meter.{Meter, refill, supply, supply-serve, supply-refill}
use rateforge.Bucket.Valid.{IsClock}
use rateforge.Bucket.Refine.{view, IsValid, topped, topped-IsValid, scheduled_refill_refines}
use rateforge.Bucket.Allow.{allow_refines, gate}

-- What can happen to a bucket: a request at a time, or the scheduler's refill at a time.
pub data Event : Type 0 where
  request refill_due : Time → Event

abbrev pub time_of : Event → Time
time_of (request t) = t
time_of (refill_due t) = t

-- The number of granted requests, and the bucket at the end.
unfoldable pub run : List Event → Bucket → ℕ × Bucket
run [] b = (0, b)
run (request t ∷ events) b =
    let (answer, b') = allow t b in
    let (granted, final) = run events b' in ((if answer.0 then granted + 1 else granted), final)
run (refill_due t ∷ events) b = run events (scheduled_refill t b)

-- Every event falls before `end`.
abbrev pub Until : Time → List Event → Type 0
Until end [] = Unit {0}
Until end (e ∷ events) = IsClock (time_of e) × (time_of e ≤ℤ end) × Until end events

config-check_window : (now : Time) (n : ℤ) (b : Bucket) → (check_window now n b).1.config ≡ b.config
unfolding check_window
config-check_window now n b = ground arith

config-lazy_refill :
    (now : Time) (c : BucketConfig) (b : Bucket) → (lazy_refill now c b).config ≡ b.config
unfolding lazy_refill
config-lazy_refill now c b = ground arith

-- No call of Allow changes the configuration.
pub config-allow : (now : Time) (b : Bucket) → (allow now b).1.config ≡ b.config
unfolding allow refreshed
config-allow now b = grind (arith, config-check_window, config-lazy_refill)

-- What the run grants and what is left are covered by the supply at the start.
abbrev Within : ℕ → ℕ → Bucket → ℕ × Bucket → Type 0
Within end cost b r = (r.0 * cost + supply end (view r.1) ≤ supply end (view b)) × IsValid r.1

supply-topped :
    (end : Time) (t : Time) (b : Bucket)
    → pos 0 ≤ℤ t
    → t ≤ℤ end
    → supply (pos_part end) (view (topped t b)) ≤ supply (pos_part end) (view b)
unfolding refill
supply-topped end t b h k = supply-refill (pos_part end) (pos_part t) (view b) (ground arith)

supply-allow :
    (end : Time) (t : Time) (b : Bucket)
    → IsValid b
    → IsClock t
    → t ≤ℤ end
    → (if (allow t b).0.0 then pos_part b.config.tokens_per_request else 0)
        + supply (pos_part end) (view (allow t b).1)
      ≤ supply (pos_part end) (view b)
supply-allow end t b v c h =
    let n = pos_part b.config.tokens_per_request in
    subst
      (λ (r : Bool × Meter).
        (if r.0 then n else 0) + supply (pos_part end) r.1 ≤ supply (pos_part end) (view b))
      (sym (allow_refines t b v c).0)
      (supply-serve (pos_part end) (pos_part t) n b.blocked (gate t b.window) (view b)
        (ground arith))

spend-le :
    (granted n after rest start : ℕ) (answer : Bool)
    → granted * n + rest ≤ after
    → (if answer then n else 0) + after ≤ start
    → (if answer then granted + 1 else granted) * n + rest ≤ start
spend-le granted n after rest start true h k = omega arith
spend-le granted n after rest start false h k = omega arith

run-Within :
    (end : Time) (events : List Event) (b : Bucket)
    → IsValid b
    → Until end events
    → Within (pos_part end) (pos_part b.config.tokens_per_request) b (run events b)
unfolding run
run-Within end [] b v u = (omega arith, v)
run-Within end (refill_due t ∷ events) b v u =
    let ih = run-Within end events (topped t b) (topped-IsValid t b v u.0) u.2 in
    subst
      (λ (x : Bucket).
        Within (pos_part end) (pos_part b.config.tokens_per_request) b (run events x))
      (sym (scheduled_refill_refines t b v u.0))
      (le_trans ih.0 (supply-topped end t b u.0.0 u.1), ih.1)
run-Within end (request t ∷ events) b v u =
    let ih = run-Within end events (allow t b).1 (allow_refines t b v u.0).1 u.2 in
    let n = ap (λ (c : BucketConfig). pos_part c.tokens_per_request) (config-allow t b) in
    (spend-le _ _ _ _ _ (allow t b).0.0 (rw n at ih.0) (supply-allow end t b v u.0 u.1), ih.1)

-- For a valid bucket, and requests and scheduled refills in any order, each at a clock reading no
-- later than `end`: the requests allowed cost at most the tokens at the start and RefillRate for
-- each whole interval since the last refill. The bucket is valid at the end.
pub run_bounded :
    (end : Time) (events : List Event) (b : Bucket)
    → IsValid b
    → Until end events
    → let (granted, b') = run events b in
      (granted * pos_part b.config.tokens_per_request
        ≤ pos_part b.tokens
          + (pos_part end - pos_part b.last_refill_time)
            / pos_part b.config.refill_interval
            * pos_part b.config.refill_rate)
      × IsValid b'
run_bounded end events b v u = let w = run-Within end events b v u in (omega (arith, w.0), w.1)
