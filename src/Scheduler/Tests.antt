-- ===== src/Scheduler/Tests.antt =====
-- The scheduler's theorems at concrete schedulers.
use rateforge.Dict
use rateforge.Base.{
  zero, false, Bool-cases, str_eq_iff, ltb, ℕ, suc, ◌+◌, ◌<◌, ◌≡◌, refl, ◌⊎◌, inl, inr, Option,
  none, some, List, [], ◌∷◌, arith, Str, codes, length, if◌then◌else◌, str_eq,
}
use rateforge.Base.Int.{pos, ◌≤ℤ◌}
use rateforge.Time.{Time}
use rateforge.Scheduler.{
  RefillHeap, Scheduler, new, schedule, remove, take_due, next_wait, process_due, refill_slice,
  refill_heap, entry_push, entry_less, time_of_slot, entry_swap, set_index,
}
use rateforge.Heap
use rateforge.Scheduler.Linked.{due_at, place, at}
use rateforge.Scheduler.Valid.{IsValid, Updates}
use rateforge.Scheduler.Change.{schedule-IsValid, remove-IsValid}
use rateforge.Scheduler.Collected.{Collected, wait_until, later_only}
use rateforge.Scheduler.Due.{take_due_lem}
use rateforge.Base.{true}
use rateforge.Base.Int.{◌-ℤ◌}
use rateforge.Time.{sub_time}
use rateforge.Scheduler.Loop.{
  Loop, planning, waiting, plan, Reach, start, later, plans, schedules, Reach-prompt,
}
use rateforge.Scheduler.Callback.{Ran, call_back, process_due_lem}

-- Three ids, put in an order that makes the heap sift.
abbrev three : Option Scheduler
three = elim (schedule (97 ∷ []) (pos 30) new) [
  | none ↦ none
  | some s ↦ elim (schedule (98 ∷ []) (pos 20) s) [
    | none ↦ none
    | some s' ↦ schedule (99 ∷ []) (pos 10) s'
  ]
]

abbrev slots_of : Option Scheduler → List Str
slots_of none = []
slots_of (some s) = s.heap.slots

three_slots : slots_of three ≡ (99 ∷ []) ∷ (97 ∷ []) ∷ (98 ∷ []) ∷ []
unfolding schedule Dict.lookup new Heap.push Heap.up Heap.up_loop refill_slice refill_heap
    entry_push Dict.insert str_eq entry_less time_of_slot entry_swap set_index
three_slots = refl

-- Two ids, the first due first.
abbrev two : Scheduler
two = record {
  heap = record {
    slots = codes "a" ∷ codes "b" ∷ [];
    entries =
        (codes "a", record { next_refill_time = pos 20; heap_index = pos 0 })
        ∷ (codes "b", record { next_refill_time = pos 30; heap_index = pos 1 })
        ∷ [];
  };
  wakeup = false;
  refills_total = pos 0;
}

two-IsValid : IsValid two.heap
unfolding Dict.lookup str_eq
two-IsValid = record {
  links = record {
    linked = λ i. elim i as (λ i. i < 2 → place two.heap.entries (at two.heap i) ≡ some (pos i)) [
      | zero ↦ λ l. refl
      | suc j ↦
          elim j
            as (λ j.
              suc j < 2 → place two.heap.entries (at two.heap (suc j)) ≡ some (pos (suc j))) [
                | zero ↦ λ l. refl
                | suc k ↦ λ l. absurd (omega arith)
              ]
    ];
    covered = λ id p e. elim (Bool-cases (str_eq (codes "a") id)) [
      | inl f ↦ (0, ground (arith, e, f), omega arith, (str_eq_iff (codes "a") id).0 f)
      | inr f ↦ elim (Bool-cases (str_eq (codes "b") id)) [
        | inl g ↦ (1, ground (arith, e, f, g), omega arith, (str_eq_iff (codes "b") id).0 g)
        | inr g ↦ absurd (ground (arith, e, f, g))
      ]
    ];
  };
  ordered = λ c a b. let only : c ≡ 1 = omega arith in rw only (omega arith);
}

abbrev due_later : Str → Time → ℕ → Option Time × ℕ
due_later id now n = (if ltb n 1 then some (pos 50) else none, n + 1)

schedule-IsValid_example :
    (s' : Scheduler) × (schedule (codes "b") (pos 5) two ≡ some s')
    × IsValid s'.heap
    × Updates (codes "b") (some (pos 5)) two.heap s'.heap
    × (s'.refills_total ≡ two.refills_total)
schedule-IsValid_example = schedule-IsValid (codes "b") (pos 5) two two-IsValid

remove-IsValid_example :
    (s' : Scheduler) × (remove (codes "a") two ≡ some s')
    × IsValid s'.heap
    × Updates (codes "a") none two.heap s'.heap
remove-IsValid_example = remove-IsValid (codes "a") two two-IsValid

take_due_lem_example :
    (due : List Str) × (rest : RefillHeap) × (take_due 3 (pos 25) two.heap ≡ some (due, rest))
    × (length due + length rest.slots ≡ 2)
    × IsValid rest
    × Collected (pos 25) two.heap due rest
take_due_lem_example = take_due_lem 3 (pos 25) two.heap two-IsValid (omega arith)

process_due_lem_example :
    (due : List Str) × (rest : RefillHeap) × Collected (pos 40) two.heap due rest
    × Ran due_later
        (pos 40)
        (call_back due_later (pos 40) due (0, λ j. later_only (pos 40) (due_at two.heap.entries j)))
        (0 + length due)
        (process_due due_later (pos 40) 0 two)
process_due_lem_example = process_due_lem due_later (pos 40) 0 two 0 two-IsValid refl (omega arith)

-- Run, for which an id was scheduled before its first turn.
abbrev one : Scheduler
one = record {
  heap = record {
    slots = codes "a" ∷ [];
    entries = (codes "a", record { next_refill_time = pos 20; heap_index = pos 0 }) ∷ [];
  };
  wakeup = true;
  refills_total = pos 0;
}

one_scheduled : schedule (codes "a") (pos 20) new ≡ some one
unfolding schedule Dict.lookup new Heap.push Heap.up Heap.up_loop refill_slice refill_heap
    entry_push Dict.insert str_eq set_index
one_scheduled = refl

abbrev at_select : Loop ℕ
at_select = record { sched = one; world = 0; phase = waiting (pos 5) (pos 15) }

one_planned : plan (pos 5) (record { sched = one; world = 0; phase = planning }) ≡ some at_select
unfolding plan next_wait time_of_slot sub_time ◌-ℤ◌ Dict.lookup str_eq
one_planned = refl

at_select-Reach : Reach due_later 0 at_select
at_select-Reach =
    later (later start (schedules (codes "a") (pos 20) one_scheduled))
      (plans (pos 5) refl one_planned)

Reach-prompt_example :
    IsValid one.heap
    × ((one.wakeup ≡ true)
        ⊎ ((id : Str) (t : Time)
            → due_at one.heap.entries id ≡ some t
            → pos 15 ≤ℤ wait_until (pos 5) t))
Reach-prompt_example = Reach-prompt due_later at_select-Reach
