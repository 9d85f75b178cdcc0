-- ===== src/Bucket/Race.antt =====
-- internal/bucket/bucket.go under concurrency: many calls of Allow and ScheduledRefill on one bucket, cut
-- at each access to an atomic field, and interleaved in any order, with Block and Unblock between them.
-- What stands between two accesses is local to its call. A window is locked as a whole, and its pointer
-- changes in UpdateConfig only, which is left out here; a call of Window.Allow is one step.
pub mod Cover
pub mod Refill
pub mod Spend
pub mod Advance
pub mod Bound
pub mod Alone
mod Tests
use rateforge.Base.{
  ℕ, ◌+◌, Bool, true, false, Option, none, some, List, [], ◌∷◌, ◌≡◌, if◌then◌else◌, get_elem?, set,
}
use rateforge.Base.Int.{ℤ, pos, add64, sub64, mul64, div64, ltb_ℤ, leb_ℤ, eq_ℤ, ◌≤ℤ◌}
use rateforge.Time.{Time, Duration, second, unix_nano, from_nano, add_time, sub_time}
use rateforge.Window
use rateforge.Window.{SlidingWindow}
use rateforge.Bucket.{BucketConfig, Bucket, request_cost, retry_after, block, unblock}
use rateforge.Bucket.Valid.{IsClock}

-- Who called lazyRefill, and so what follows it.
pub data Purpose : Type 0 where
  for_request for_schedule : Purpose

-- Where a call stands: before the access that its constructor names, with its local variables. The
-- configuration is the one that it loaded.
pub data Call : Type 0 where
  -- Allow: the load of `blocked`, and that of the configuration
  entering reading : Time → Call
  -- ScheduledRefill: the load of the configuration
  due : Time → Call
  -- lazyRefill: the load of the last refill time, and its compare-and-swap with the loaded time and
  -- the intervals since then
  measuring : Purpose → Time → BucketConfig → Call
  claiming : Purpose → Time → BucketConfig → ℤ → ℤ → Call
  -- its inner loop: the load of the balance, and its compare-and-swap from one balance to another
  adding : Purpose → Time → BucketConfig → ℤ → Call
  storing : Purpose → Time → BucketConfig → ℤ → ℤ → ℤ → Call
  -- Allow: the store of the access time, the load of the balance, its compare-and-swap, the window,
  -- and the addition that gives the tokens back
  touching weighing : Time → BucketConfig → Call
  paying : Time → BucketConfig → ℤ → Call
  gating : Time → BucketConfig → Call
  refunding : BucketConfig → Call
  -- Allow with its answer, and ScheduledRefill
  returned : Bool × Duration → Call
  finished : Call

-- What follows lazyRefill.
unfoldable pub refilled : Purpose → Time → BucketConfig → Call
refilled for_request now cfg = touching now cfg
refilled for_schedule now cfg = finished

unfoldable pub enter : Time → Bucket → Call
enter now b = if b.blocked then returned (false, pos 0) else reading now

-- The two configuration loads.
unfoldable pub plan_request : Time → Bucket → Call
plan_request now b =
    if ltb_ℤ (pos 0) b.config.refill_interval
    then measuring for_request now b.config
    else touching now b.config

unfoldable pub plan_refill : Time → Bucket → Call
plan_refill now b =
    if leb_ℤ b.config.refill_interval (pos 0) then finished else measuring for_schedule now b.config

unfoldable pub measure : Purpose → Time → BucketConfig → Bucket → Call
measure p now cfg b =
    let elapsed = sub_time now (from_nano b.last_refill_time) in
    let intervals = div64 elapsed cfg.refill_interval in
    if leb_ℤ intervals (pos 0)
    then refilled p now cfg
    else claiming p now cfg b.last_refill_time intervals

unfoldable pub claim : Purpose → Time → BucketConfig → ℤ → ℤ → Bucket → Call × Bucket
claim p now cfg last intervals b =
    let new_last = unix_nano (add_time (from_nano last) (mul64 intervals cfg.refill_interval)) in
    if eq_ℤ b.last_refill_time last
    then (
      adding p now cfg (mul64 intervals cfg.refill_rate),
      record b { last_refill_time = new_last },
    )
    else (measuring p now cfg, b)

unfoldable pub add : Purpose → Time → BucketConfig → ℤ → Bucket → Call
add p now cfg amount b =
    let updated = add64 b.tokens amount in
    storing p now cfg amount b.tokens
      (if ltb_ℤ cfg.max_tokens updated then cfg.max_tokens else updated)

unfoldable pub store : Purpose → Time → BucketConfig → ℤ → ℤ → ℤ → Bucket → Call × Bucket
store p now cfg amount current updated b =
    if eq_ℤ b.tokens current
    then (refilled p now cfg, record b { tokens = updated })
    else (adding p now cfg amount, b)

unfoldable pub weigh : Time → BucketConfig → Bucket → Call
weigh now cfg b =
    if ltb_ℤ b.tokens (request_cost cfg)
    then returned (false, retry_after cfg (request_cost cfg) b.tokens)
    else paying now cfg b.tokens

unfoldable pub pay : Time → BucketConfig → ℤ → Bucket → Call × Bucket
pay now cfg current b =
    if eq_ℤ b.tokens current
    then (gating now cfg, record b { tokens = sub64 current (request_cost cfg) })
    else (weighing now cfg, b)

-- The window that was loaded, if any; a panic in it is recovered as a refusal.
unfoldable pub ask : Time → BucketConfig → Option SlidingWindow → Bucket → Call × Bucket
ask now cfg none b = (returned (true, pos 0), b)
ask now cfg (some w) b =
    let (answer, w') = Window.allow now w in
    (
      elim answer [
        | none ↦ returned (false, second)
        | some granted ↦ if granted then returned (true, pos 0) else refunding cfg
      ],
      record b { window = some w' },
    )

unfoldable pub pass_gate : Time → BucketConfig → Bucket → Call × Bucket
unfolding ask
pass_gate now cfg b = ask now cfg b.window b

-- One access of a call, and the call and the bucket after it.
unfoldable pub advance : Call → Bucket → Call × Bucket
unfolding enter plan_request plan_refill measure claim add store weigh pay pass_gate
advance (entering now) b = (enter now b, b)
advance (reading now) b = (plan_request now b, b)
advance (due now) b = (plan_refill now b, b)
advance (measuring p now cfg) b = (measure p now cfg b, b)
advance (claiming p now cfg last intervals) b = claim p now cfg last intervals b
advance (adding p now cfg amount) b = (add p now cfg amount b, b)
advance (storing p now cfg amount current updated) b = store p now cfg amount current updated b
advance (touching now cfg) b = (weighing now cfg, record b { last_access_time = unix_nano now })
advance (weighing now cfg) b = (weigh now cfg b, b)
advance (paying now cfg current) b = pay now cfg current b
advance (gating now cfg) b = pass_gate now cfg b
advance (refunding cfg) b =
    (returned (false, cfg.refill_interval), record b { tokens = add64 b.tokens (request_cost cfg) })
advance (returned answer) b = (returned answer, b)
advance finished b = (finished, b)

-- A bucket with all the calls that were ever made on it.
pub record System : Type 0 where
  pub bucket : Bucket
  pub calls : List Call

-- What can happen next, by the time `end`: a request or a scheduled refill begins, some call makes its
-- next access, or an administrator blocks or unblocks.
pub data Step (end : Time) (s : System) : System → Type 0 where
  request :
      (now : Time)
      → IsClock now × (now ≤ℤ end)
      → Step end s (record s { calls = entering now ∷ s.calls })
  refill :
      (now : Time)
      → IsClock now × (now ≤ℤ end)
      → Step end s (record s { calls = due now ∷ s.calls })
  access :
      (i : ℕ) (c : Call)
      → get_elem? s.calls i ≡ some c
      → Step end s
          (record { bucket = (advance c s.bucket).1; calls = set s.calls i (advance c s.bucket).0 })
  blocks : Step end s (record s { bucket = block s.bucket })
  unblocks : Step end s (record s { bucket = unblock s.bucket })

pub data Reach (end : Time) (b : Bucket) : System → Type 0 where
  start : Reach end b (record { bucket = b; calls = [] })
  later : {s t : System} → Reach end b s → Step end s t → Reach end b t

-- The calls of Allow that were answered with yes.
abbrev pub granted : List Call → ℕ
granted [] = 0
granted (returned (answer, wait) ∷ calls) = if answer then granted calls + 1 else granted calls
granted (c ∷ calls) = granted calls
