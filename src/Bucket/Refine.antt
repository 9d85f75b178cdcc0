-- ===== src/Bucket/Refine.antt =====
-- A valid bucket seen as the abstract meter.
use native.Mathlib.Nat.{div-zero, div-mul-le_self}
use rateforge.Base.{◌-◌, ◌≡◌, ap, ap₂, inl, inr, arith, Option, none, some, Bool-cases}
use rateforge.Base.Int.{
  ℤ, pos, pos_part, ◌≤ℤ◌, ◌<ℤ◌, ltb_ℤ, leb_ℤ, InRange, pos_of_nonneg, max_int64,
}
use rateforge.Time.{Time, unix_nano}
use rateforge.Window.Valid
use rateforge.Window.{SlidingWindow, WindowConfig}
use rateforge.Bucket.{Bucket, lazy_refill, refreshed, scheduled_refill}
use rateforge.Bucket.Meter.{Meter, refill, refill-refill}
use rateforge.Bucket.Valid.{IsClock, IsTame, lazy_refill_pos}

abbrev pub view : Bucket → Meter
view b = record {
  cap = pos_part b.config.max_tokens;
  rate = pos_part b.config.refill_rate;
  interval = pos_part b.config.refill_interval;
  level = pos_part b.tokens;
  since = pos_part b.last_refill_time;
}

abbrev pub WindowIsValid : Option SlidingWindow → Type 0
WindowIsValid none = Unit {0}
WindowIsValid (some w) = Valid.IsValid w

-- A window configuration whose limit leaves room for one more.
abbrev pub WindowIsFine : Option WindowConfig → Type 0
WindowIsFine none = Unit {0}
WindowIsFine (some w) = InRange w.max_requests × (w.max_requests <ℤ max_int64)

pub record IsValid (b : Bucket) : Type 0 where
  pub tame : IsTame b.config
  pub cost : (pos 1 ≤ℤ b.config.tokens_per_request) × InRange b.config.tokens_per_request
  pub level : (pos 0 ≤ℤ b.tokens) × (b.tokens ≤ℤ b.config.max_tokens)
  pub clock : IsClock b.last_refill_time
  pub gate : WindowIsValid b.window
  pub fine : WindowIsFine b.config.sliding_window

-- The bucket with the balance that the meter has at `now`.
abbrev pub topped : Time → Bucket → Bucket
topped now b =
    let m = refill (pos_part now) (view b) in
    record b { tokens = pos m.level; last_refill_time = pos m.since }

idle_topped :
    (now : Time) (b : Bucket) → IsValid b → b.config.refill_interval ≤ℤ pos 0 → b ≡ topped now b
unfolding refill
idle_topped now b v h =
    let off : pos_part b.config.refill_interval ≡ 0 = ground arith in
    let cap = v.tame.cap in
    rw off (
      ap₂ (λ (t l : ℤ). record b { tokens = t; last_refill_time = l })
        (ground (
          arith,
          div-zero (pos_part now - pos_part b.last_refill_time),
          pos_of_nonneg b.tokens v.level.0,
        ))
        (ground (
          arith,
          div-zero (pos_part now - pos_part b.last_refill_time),
          pos_of_nonneg b.last_refill_time v.clock.0,
        )))

lazy_topped :
    (now : Time) (b : Bucket)
    → IsValid b
    → IsClock now
    → pos 0 <ℤ b.config.refill_interval
    → lazy_refill now b.config b ≡ topped now b
unfolding refill
lazy_topped now b v c h =
    let cap = v.tame.cap in
    rw (pos_of_nonneg now c.0) (
      lazy_refill_pos b b.config (pos_part now) (pos_part b.last_refill_time)
        (pos_part b.config.refill_interval) (pos_part b.config.max_tokens)
        (pos_part b.config.refill_rate) (pos_part b.tokens)
        (pos_of_nonneg b.config.max_tokens v.tame.cap.0)
        (pos_of_nonneg b.config.refill_rate v.tame.rate)
        (pos_of_nonneg b.config.refill_interval (omega arith)) (pos_of_nonneg b.tokens v.level.0)
        (pos_of_nonneg b.last_refill_time v.clock.0) (ground arith) (ground (arith, v.tame.pace))
        (ground arith) (ground arith) (ground arith) (ground arith))

-- What Allow sees of the balance, and what the scheduler's refill leaves, is the meter at that time.
pub refreshed_refines :
    (now : Time) (b : Bucket)
    → IsValid b
    → IsClock now
    → refreshed now b ≡ record (topped now b) { last_access_time = unix_nano now }
unfolding refreshed
refreshed_refines now b v c = elim (Bool-cases (ltb_ℤ (pos 0) b.config.refill_interval)) [
  | inl on ↦ rw on (
      ap (λ (t : Bucket). record t { last_access_time = unix_nano now })
        (lazy_topped now b v c (ground arith)))
  | inr off ↦ rw off (
      ap (λ (t : Bucket). record t { last_access_time = unix_nano now })
        (idle_topped now b v (ground arith)))
]

pub scheduled_refill_refines :
    (now : Time) (b : Bucket) → IsValid b → IsClock now → scheduled_refill now b ≡ topped now b
unfolding scheduled_refill
scheduled_refill_refines now b v c = elim (Bool-cases (leb_ℤ b.config.refill_interval (pos 0))) [
  | inl off ↦ rw off (idle_topped now b v (ground arith))
  | inr on ↦ rw on (lazy_topped now b v c (ground arith))
]

-- The refilled bucket is valid: the balance stays under the cap, the time of the refill is no later
-- than `now` or what it was.
pub topped-IsValid : (now : Time) (b : Bucket) → IsValid b → IsClock now → IsValid (topped now b)
unfolding refill
topped-IsValid now b v c =
    let cap = v.tame.cap in
    let used =
      div-mul-le_self (pos_part now - pos_part b.last_refill_time)
        (pos_part b.config.refill_interval) in
    record {
      tame = v.tame;
      cost = v.cost;
      level = ground arith;
      clock = ground arith;
      gate = v.gate;
      fine = v.fine;
    }

-- Refilling twice is refilling once.
pub topped-topped :
    (now later : Time) (b : Bucket)
    → pos 0 ≤ℤ now
    → now ≤ℤ later
    → topped later (topped now b) ≡ topped later b
unfolding refill
topped-topped now later b h l =
    ap (λ (m : Meter). record b { tokens = pos m.level; last_refill_time = pos m.since })
      (refill-refill (view b) (pos_part now) (pos_part later) (ground arith))
