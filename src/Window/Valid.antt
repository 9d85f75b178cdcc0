-- ===== src/Window/Valid.antt =====
-- The representation invariant of a window: every index is in range, and the ring is never full
-- before the limit is reached.
use rateforge.Base.{
  ℕ, zero, suc, ◌+◌, ◌-◌, ◌%◌, ◌≤◌, ◌<◌, ◌≡◌, ◌≢◌, true, ◌⊎◌, none, arith, length, length-set,
  length-replicate, get_elem?-eq-get_or,
}
use rateforge.Base.Int.{ℤ, pos, pos_part, ◌≤ℤ◌, ◌<ℤ◌, sub64, InRange, max_int64, add64-suc}
use rateforge.Time.{Time, unix_nano}
use rateforge.Window.{
  WindowConfig, SlidingWindow, buf_size, new, compact_loop, compact_locked, push_locked, allow,
  cleanup,
}

pub record IsValid (w : SlidingWindow) : Type 0 where
  pub head_in : w.head < length w.timestamps
  pub roomy : w.max_requests <ℤ pos (length w.timestamps)
  pub counted : (w.count ≡ 0) ⊎ (pos w.count ≤ℤ w.max_requests)

-- The ring is never full.
pub count-lt-length : {w : SlidingWindow} → IsValid w → w.count < length w.timestamps
count-lt-length v = ground arith

-- What compacting keeps, whatever it drops.
pub record Compacted (w w' : SlidingWindow) : Type 0 where
  pub same_ring : w'.timestamps ≡ w.timestamps
  pub same_head : w'.head ≡ w.head
  pub same_size : w'.window_size ≡ w.window_size
  pub same_limit : w'.max_requests ≡ w.max_requests
  pub fewer : w'.count ≤ w.count

compact_loop-fine :
    (cutoff : ℤ) (k start : ℕ) (w : SlidingWindow)
    → start < length w.timestamps
    → k ≤ w.count
    → ((compact_loop cutoff k start w).0 ≡ true) × Compacted w (compact_loop cutoff k start w).1
unfolding compact_loop
compact_loop-fine cutoff zero start w h l = ground arith
compact_loop-fine cutoff (suc k) start w h l = ground (
  arith,
  get_elem?-eq-get_or w.timestamps start (pos 0) h,
  compact_loop-fine cutoff k ((start + 1) % length w.timestamps) w,
)

pub compact_locked-fine :
    (cutoff : ℤ) (w : SlidingWindow)
    → IsValid w
    → ((compact_locked cutoff w).0 ≡ true) × Compacted w (compact_locked cutoff w).1
unfolding compact_locked
compact_locked-fine cutoff w v = ground (
  arith,
  compact_loop-fine cutoff w.count ((w.head + length w.timestamps - w.count) % length w.timestamps)
      w,
)

pub Compacted-IsValid : {w w' : SlidingWindow} → Compacted w w' → IsValid w → IsValid w'
Compacted-IsValid c v = ground arith

-- New's buffer has a place for every request under the limit, and one more.
pub buf_size_lem :
    (cfg : WindowConfig)
    → InRange cfg.max_requests
    → cfg.max_requests <ℤ max_int64
    → (cfg.max_requests <ℤ buf_size cfg)
      × (pos 1 ≤ℤ buf_size cfg)
      × (cfg.buffer_size ≤ℤ buf_size cfg)
unfolding buf_size
buf_size_lem cfg r h = ground (arith, add64-suc cfg.max_requests r h)

-- A window that New makes is valid, if the limit leaves room for MaxRequests + 1.
pub new-IsValid :
    (cfg : WindowConfig)
    → InRange cfg.max_requests
    → cfg.max_requests <ℤ max_int64
    → IsValid (new cfg)
unfolding new
new-IsValid cfg r h = ground (
  arith,
  add64-suc cfg.max_requests r h,
  length-replicate (pos_part (buf_size cfg)) (pos 0),
  buf_size_lem cfg r h,
)

-- Pushing onto a valid window that has not reached its limit does not panic, and keeps it valid.
pub push_locked-IsValid :
    (ts : ℤ) (w : SlidingWindow)
    → IsValid w
    → pos w.count <ℤ w.max_requests
    → ((push_locked ts w).0 ≡ true) × IsValid (push_locked ts w).1
unfolding push_locked
push_locked-IsValid ts w v h = ground (arith, length-set w.timestamps w.head ts)

-- Allow on a valid window does not panic and keeps it valid.
pub allow-IsValid :
    (now : Time) (w : SlidingWindow)
    → IsValid w
    → ((allow now w).0 ≢ none) × IsValid (allow now w).1
unfolding allow
allow-IsValid now w v =
    let cutoff = sub64 (unix_nano now) w.window_size in
    let done = compact_locked-fine cutoff w v in
    let kept = Compacted-IsValid done.1 v in
    ground (arith, done, kept, push_locked-IsValid (unix_nano now) (compact_locked cutoff w).1 kept)

-- `Allow` does not change the configuration.
pub allow-same :
    (now : Time) (w : SlidingWindow)
    → IsValid w
    → ((allow now w).1.window_size ≡ w.window_size)
      × ((allow now w).1.max_requests ≡ w.max_requests)
unfolding allow push_locked
allow-same now w v = ground (arith, compact_locked-fine (sub64 (unix_nano now) w.window_size) w v)

-- `Cleanup` does not panic and keeps the window valid.
pub cleanup-IsValid :
    (now : Time) (w : SlidingWindow)
    → IsValid w
    → ((cleanup now w).0 ≡ true) × IsValid (cleanup now w).1
unfolding cleanup
cleanup-IsValid now w v =
    let done = compact_locked-fine (sub64 (unix_nano now) w.window_size) w v in
    (done.0, Compacted-IsValid done.1 v)
