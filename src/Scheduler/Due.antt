-- ===== src/Scheduler/Due.antt =====
-- What Run does with the pending refills: how long it waits, and what it takes off when they are due.
use rateforge.Base.{
  ℕ, zero, suc, ◌+◌, ◌-◌, ◌<◌, ◌≡◌, refl, ◌⊎◌, inl, inr, some, List, [], ◌∷◌, arith, Str, length,
  Bool-cases, ◌==◌,
}
use rateforge.Base.Int.{pos, ◌≤ℤ◌, -ℤ_parts}
use rateforge.Time.{Time, Duration, hour, after, sub_time}
use rateforge.Scheduler.{
  RefillHeap, refill_heap, refill_slice, Scheduler, time_of_slot, next_wait, take_due, forget,
}
use rateforge.Scheduler.Linked.{due_at, at, key, due_at-place, time_of_slot_lem}
use rateforge.Scheduler.Valid.{IsValid}
use rateforge.Scheduler.Take.{pop_first_lem}
use rateforge.Scheduler.Collected.{Collected, wait_until, first-least, none_due, one_more}

smaller :
    (n k : ℕ) (id : Str) (h h' : RefillHeap)
    → length h.slots ≡ suc n
    → length h.slots < suc k
    → length h'.slots ≡ n
    → length (forget id h').slots < k
unfolding forget
smaller n k id h h' size l left = omega arith

sum_of :
    (n : ℕ) (id : Str) (due : List Str) (h h' rest : RefillHeap)
    → length h.slots ≡ suc n
    → length h'.slots ≡ n
    → length due + length rest.slots ≡ length (forget id h').slots
    → length (id ∷ due) + length rest.slots ≡ length h.slots
unfolding forget
sum_of n id due h h' rest size left sum = omega arith

-- On a slice that is a heap by time and linked with its objects both ways, the first loop of
-- processDue ends, without a panic, with more rounds than there are entries. The ids that it takes
-- off are those due at `now`, each once, in order of their times; what is left is linked and a
-- heap, and holds the others with the times that they had.
pub take_due_lem :
    (k : ℕ) (now : Time) (h : RefillHeap)
    → IsValid h
    → length h.slots < k
    → (due : List Str) × (rest : RefillHeap) × (take_due k now h ≡ some (due, rest))
      × (length due + length rest.slots ≡ length h.slots)
      × IsValid rest
      × Collected now h due rest
unfolding take_due
take_due_lem zero now h v l = absurd (omega arith)
take_due_lem (suc k) now h v l = elim (Bool-cases (length h.slots == 0)) [
  | inl empty ↦ (
    [],
    h,
    rw (empty, take_due) refl,
    omega arith,
    v,
    none_due now h (λ id t e. absurd (ground (arith, first-least h id t v e))),
  )
  | inr some_left ↦
      let n = length h.slots - 1 in
      let size : length h.slots ≡ suc n = ground arith in
      let read : time_of_slot 0 h ≡ some (key h 0) = time_of_slot_lem h 0 v.links (omega arith) in
      let timed = due_at-place h.entries (at h 0) (pos 0) (v.links.linked 0 (omega arith)) in
      elim (Bool-cases (after (key h 0) now)) [
        | inl later ↦ (
          [],
          h,
          rw (some_left, read, later, take_due) refl,
          omega arith,
          v,
          none_due now h (λ id t e. ground (arith, first-least h id t v e)),
        )
        | inr arrived ↦
            let (h', run, (w, left, u)) = pop_first_lem n h v size in
            let (due, rest, again, sum, x, c) =
              take_due_lem k now (forget (at h 0) h') w (smaller n k (at h 0) h h' size l left) in
            (
              at h 0 ∷ due,
              rest,
              rw (some_left, read, arrived, run, again, take_due) refl,
              sum_of n (at h 0) due h h' rest size left sum,
              x,
              one_more (at h 0) h (forget (at h 0) h') u now (key h 0) due rest timed arrived
                  (λ id t e. (first-least h id t v e).1) c,
            )
      ]
]

wait_until-mono : (now t u : Time) → t ≤ℤ u → wait_until now t ≤ℤ wait_until now u
unfolding sub_time
wait_until-mono now t u l = ground (arith, -ℤ_parts t now, -ℤ_parts u now)

-- On a scheduler whose slice is a heap by time and linked with its objects both ways, nextWait
-- returns, without a panic, a wait no longer than until any pending time: an hour where nothing is
-- pending, and else the wait until one of the pending times, or 0 where that is past.
pub next_wait_lem :
    (now : Time) (s : Scheduler)
    → IsValid s.heap
    → (w : Duration) × (next_wait now s ≡ some w)
      × ((id : Str) (t : Time) → due_at s.heap.entries id ≡ some t → w ≤ℤ wait_until now t)
      × (((length s.heap.slots ≡ 0) × (w ≡ hour))
          ⊎ ((id : Str) × (t : Time) × (due_at s.heap.entries id ≡ some t)
              × (w ≡ wait_until now t)))
unfolding next_wait
next_wait_lem now s v = elim (Bool-cases (length s.heap.slots == 0)) [
  | inl empty ↦ (
    hour,
    rw (empty, next_wait) refl,
    λ id t e. absurd (ground (arith, first-least s.heap id t v e)),
    inl (ground arith, refl),
  )
  | inr some_left ↦
      let h = s.heap in
      let read : time_of_slot 0 h ≡ some (key h 0) = time_of_slot_lem h 0 v.links (ground arith) in
      let timed = due_at-place h.entries (at h 0) (pos 0) (v.links.linked 0 (ground arith)) in
      (
        wait_until now (key h 0),
        rw (some_left, read, next_wait) refl,
        λ id t e. wait_until-mono now (key h 0) t (first-least h id t v e).1,
        inr (at h 0, key h 0, timed, refl),
      )
]
