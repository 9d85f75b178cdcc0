-- ===== src/Window.antt =====
-- internal/window/window.go: the sliding-window request counter over a ring of timestamps.
-- A method returns its result beside the new state; the mutex makes each method one step.
-- `head` and `count` are the source's ints, never negative: `count` falls only while positive. The
-- index `head - count + n` is taken as `head + n - count`, which is the same while `count ≤ n` (see Window/Valid).
pub mod Valid
pub mod Log
pub mod Refine
pub mod Run
pub mod Paced
mod Tests
use rateforge.Base.{
  ℕ, zero, suc, ◌+◌, ◌-◌, ◌%◌, Bool, true, false, Option, none, some, List, ltb, ◌==◌, ◌||◌,
  if◌then◌else◌, length, get_elem?, set, replicate,
}
use rateforge.Base.Int.{ℤ, pos, pos_part, add64, sub64, ltb_ℤ, leb_ℤ}
use rateforge.Time.{Time, Duration, unix_nano}

-- `window.Config`
pub record WindowConfig : Type 0 where
  pub enabled : Bool
  pub window_duration : Duration
  pub max_requests : ℤ
  pub buffer_size : ℤ

pub record SlidingWindow : Type 0 where
  pub window_size : Duration
  pub max_requests : ℤ
  pub timestamps : List ℤ
  pub head : ℕ
  pub count : ℕ

-- `bufSize` of New: at least MaxRequests + 1, and at least 1.
unfoldable pub buf_size : WindowConfig → ℤ
buf_size cfg =
    let min_size = add64 cfg.max_requests (pos 1) in
    let size = if ltb_ℤ cfg.buffer_size min_size then min_size else cfg.buffer_size in
    if ltb_ℤ size (pos 1) then pos 1 else size

unfoldable pub new : WindowConfig → SlidingWindow
unfolding buf_size
new cfg = record {
  window_size = cfg.window_duration;
  max_requests = cfg.max_requests;
  timestamps = replicate (pos_part (buf_size cfg)) (pos 0);
  head = 0;
  count = 0;
}

-- The loop of compactLocked over the `count` that is left, from index `start` on. The flag is
-- `false` when an index is out of range, which is a panic.
unfoldable pub compact_loop : ℤ → ℕ → ℕ → SlidingWindow → Bool × SlidingWindow
compact_loop cutoff zero start w = (true, record w { count = 0 })
compact_loop cutoff (suc k) start w = elim (get_elem? w.timestamps start) [
  | none ↦ (false, record w { count = suc k })
  | some ts ↦ elim (leb_ℤ ts cutoff) [
    | true ↦ compact_loop cutoff k ((start + 1) % length w.timestamps) w
    | false ↦ (true, record w { count = suc k })
  ]
]

unfoldable pub compact_locked : ℤ → SlidingWindow → Bool × SlidingWindow
compact_locked cutoff w =
    let n = length w.timestamps in
    if n == 0 || w.count == 0
    then (true, w)
    else compact_loop cutoff w.count ((w.head + n - w.count) % n) w

-- A write out of range panics (the flag is `false`).
unfoldable pub push_locked : ℤ → SlidingWindow → Bool × SlidingWindow
push_locked ts w =
    let n = length w.timestamps in
    if ltb w.head n
    then (
      true,
      record w {
        timestamps = set w.timestamps w.head ts;
        head = (w.head + 1) % n;
        count = if ltb w.count n then w.count + 1 else w.count;
      },
    )
    else (false, w)

-- `Allow`: the answer, or `none` for a panic.
unfoldable pub allow : Time → SlidingWindow → Option Bool × SlidingWindow
allow now w =
    let now_nano = unix_nano now in
    let (fine, compacted) = compact_locked (sub64 now_nano w.window_size) w in
    let (pushed, w') = push_locked now_nano compacted in
    if fine
    then if leb_ℤ compacted.max_requests (pos compacted.count)
      then (some false, compacted)
      else (if pushed then some true else none, w')
    else (none, compacted)

unfoldable pub cleanup : Time → SlidingWindow → Bool × SlidingWindow
cleanup now w = compact_locked (sub64 (unix_nano now) w.window_size) w

unfoldable pub count : SlidingWindow → ℕ
count w = w.count
