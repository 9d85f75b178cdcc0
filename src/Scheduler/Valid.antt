-- ===== src/Scheduler/Valid.antt =====
-- The invariant of the pending refills, and how the operations change them.
use rateforge.Base.{ℕ, ◌≡◌, Option, none, if◌then◌else◌, Str, str_eq, length}
use rateforge.Time.{Time}
use rateforge.Heap.Order.{IsHeap}
use rateforge.Scheduler.{RefillHeap, refill_slice, refill_heap, forget}
use rateforge.Scheduler.Linked.{due_at, key, IsLinked}

-- The slice and the objects are linked, and the slice is a heap by time.
pub record IsValid (h : RefillHeap) : Type 0 where
  pub links : IsLinked h
  pub ordered : IsHeap (length h.slots) (key h)

-- Only the time of `id` changed, to `o`.
abbrev pub Updates : Str → Option Time → RefillHeap → RefillHeap → Type 0
Updates id o h h' =
    (j : Str) → due_at h'.entries j ≡ (if str_eq id j then o else due_at h.entries j)

-- `id` was taken off `h`, which had `n` more places.
abbrev pub Taken : ℕ → Str → RefillHeap → RefillHeap → Type 0
Taken n id h h' = IsValid (forget id h') × (length h'.slots ≡ n) × Updates id none h (forget id h')
