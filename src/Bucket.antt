-- ===== src/Bucket.antt =====
-- internal/bucket/bucket.go: one token bucket.
-- The atomics are the fields of the state, and a method returns the new state. Here one call runs at
-- a time, so each compare-and-swap succeeds at its first try and each retry loop is passed once; calls
-- that run at the same time are in Bucket/Race.
pub mod Meter
pub mod Valid
pub mod Refine
pub mod Allow
pub mod Bound
pub mod Life
pub mod Retry
pub mod Race
mod Tests
use rateforge.Base.{ℕ, Bool, true, false, ◌||◌, ◌&&◌, Option, none, some, if◌then◌else◌}
use rateforge.Base.Int.{ℤ, pos, add64, sub64, mul64, div64, ltb_ℤ, leb_ℤ}
use rateforge.Time.{Time, Duration, zero_time, second, unix_nano, from_nano, add_time, sub_time}
use rateforge.Window
use rateforge.Window.{WindowConfig, SlidingWindow}

-- `bucket.Config`
pub record BucketConfig : Type 0 where
  pub max_tokens : ℤ
  pub refill_rate : ℤ
  pub refill_interval : Duration
  pub tokens_per_request : ℤ
  pub sliding_window : Option WindowConfig

pub record Bucket : Type 0 where
  pub config : BucketConfig
  pub tokens : ℤ
  pub last_refill_time : ℤ
  pub blocked : Bool
  pub last_access_time : ℤ
  pub created_at : Time
  pub window : Option SlidingWindow

unfoldable pub normalize : BucketConfig → BucketConfig
normalize cfg =
    if leb_ℤ cfg.tokens_per_request (pos 0) then record cfg { tokens_per_request = pos 1 } else cfg

-- The window that New and UpdateConfig build: only for an enabled sub-configuration.
unfoldable pub build_window : Option WindowConfig → Option SlidingWindow
build_window none = none
build_window (some w) = if w.enabled then some (Window.new w) else none

unfoldable pub new : BucketConfig → Time → Bucket
unfolding normalize
new cfg now =
    let normalized = normalize cfg in
    record {
      config = normalized;
      tokens = normalized.max_tokens;
      last_refill_time = unix_nano now;
      blocked = false;
      last_access_time = unix_nano now;
      created_at = now;
      window = build_window normalized.sliding_window;
    }

-- `lazyRefill`, which is called with a positive RefillInterval only.
unfoldable pub lazy_refill : Time → BucketConfig → Bucket → Bucket
lazy_refill now cfg b =
    let last = from_nano b.last_refill_time in
    let elapsed = sub_time now last in
    let intervals = div64 elapsed cfg.refill_interval in
    let new_last = unix_nano (add_time last (mul64 intervals cfg.refill_interval)) in
    let tokens_to_add = mul64 intervals cfg.refill_rate in
    let updated = add64 b.tokens tokens_to_add in
    if leb_ℤ intervals (pos 0) then b else record b {
      last_refill_time = new_last;
      tokens = if ltb_ℤ cfg.max_tokens updated then cfg.max_tokens else updated;
    }

-- The wait that a request short of tokens is told.
unfoldable pub retry_after : BucketConfig → ℤ → ℤ → Duration
retry_after cfg n current =
    if leb_ℤ cfg.refill_rate (pos 0) || leb_ℤ cfg.refill_interval (pos 0)
    then second
    else let deficit = sub64 n current in
      let intervals = div64 (sub64 (add64 deficit cfg.refill_rate) (pos 1)) cfg.refill_rate in
      mul64 intervals cfg.refill_interval

-- The tokens of a request: at least one.
unfoldable pub request_cost : BucketConfig → ℤ
request_cost cfg = if leb_ℤ cfg.tokens_per_request (pos 0) then pos 1 else cfg.tokens_per_request

-- The second gate, passed once `n` tokens are taken: a refusal gives them back, and a panic in the
-- window is recovered as a refusal.
unfoldable pub check_window : Time → ℤ → Bucket → (Bool × Duration) × Bucket
check_window now n b = elim b.window [
  | none ↦ ((true, pos 0), b)
  | some w ↦
      let (answer, w') = Window.allow now w in
      elim answer [
        | none ↦ ((false, second), record b { window = some w' })
        | some granted ↦ if granted then ((true, pos 0), record b { window = some w' }) else (
          (false, b.config.refill_interval),
          record b { window = some w'; tokens = add64 b.tokens n },
        )
      ]
]

-- The state in which Allow looks at the balance.
unfoldable pub refreshed : Time → Bucket → Bucket
refreshed now b =
    let cfg = b.config in
    let refilled = if ltb_ℤ (pos 0) cfg.refill_interval then lazy_refill now cfg b else b in
    record refilled { last_access_time = unix_nano now }

-- `Allow`: whether the request is allowed, the wait otherwise, and the bucket after it.
unfoldable pub allow : Time → Bucket → (Bool × Duration) × Bucket
allow now b =
    let cfg = b.config in
    let n = request_cost cfg in
    let fresh = refreshed now b in
    if b.blocked
    then ((false, pos 0), b)
    else if ltb_ℤ fresh.tokens n
    then ((false, retry_after cfg n fresh.tokens), fresh)
    else check_window now n (record fresh { tokens = sub64 fresh.tokens n })

unfoldable pub scheduled_refill : Time → Bucket → Bucket
scheduled_refill now b =
    if leb_ℤ b.config.refill_interval (pos 0) then b else lazy_refill now b.config b

unfoldable pub update_config : BucketConfig → Bucket → Bucket
unfolding normalize
update_config cfg b =
    let normalized = normalize cfg in
    record b {
      config = normalized;
      tokens = if ltb_ℤ normalized.max_tokens b.tokens then normalized.max_tokens else b.tokens;
      window = build_window normalized.sliding_window;
    }

unfoldable pub block : Bucket → Bucket
block b = record b { blocked = true }

unfoldable pub unblock : Bucket → Bucket
unblock b = record b { blocked = false }

unfoldable pub is_blocked : Bucket → Bool
is_blocked b = b.blocked

-- `TokensRemaining` and `LastAccess`
unfoldable pub tokens_remaining : Bucket → ℤ
tokens_remaining b = b.tokens

unfoldable pub last_access : Bucket → Time
last_access b = from_nano b.last_access_time

unfoldable pub next_refill_time : Bucket → Time
next_refill_time b =
    if leb_ℤ b.config.refill_interval (pos 0)
    then zero_time
    else add_time (from_nano b.last_refill_time) b.config.refill_interval
