-- ===== src/Scheduler.antt =====
-- internal/scheduler/heap.go and scheduler.go: the heap of pending refills.
-- An entry object is named by its id, which stands for the pointer to it: the slice holds ids, and
-- `entries` holds the objects, so that a write through a pointer is seen in both. The scheduler has at
-- most one object per id. Under the mutex an object is put in the map and on the heap, or taken off
-- both, in one step. `none` is a panic. The loop of Run is in Scheduler/Loop; the logger is left out.
pub mod Linked
pub mod Swap
pub mod Ends
pub mod Valid
pub mod Take
pub mod Change
pub mod Collected
pub mod Due
pub mod Callback
pub mod Attach
pub mod Loop
mod Tests
use rateforge.Base.{
  ℕ, zero, suc, ◌+◌, ◌-◌, Bool, true, false, Option, none, some, List, [], ◌∷◌, ◌++◌, if◌then◌else◌,
  Str, length, get_elem?, set, ◌==◌,
}
use rateforge.Base.Int.{ℤ, pos, negsuc, add64, ltb_ℤ}
use rateforge.Time.{Time, Duration, hour, before, after, sub_time}
use rateforge.Dict
use rateforge.Dict.{Dict}
use rateforge.Heap
use rateforge.Heap.{SortInterface, HeapInterface}

-- A `refillEntry`; its id is the key under which it stands.
pub record RefillEntry : Type 0 where
  pub next_refill_time : Time
  pub heap_index : ℤ

-- `refillHeap`, with the objects that it points to.
pub record RefillHeap : Type 0 where
  pub slots : List Str
  pub entries : Dict RefillEntry

-- The write `h[i].heapIndex = i`.
unfoldable pub set_index : Str → ℤ → Dict RefillEntry → Dict RefillEntry
set_index id i m = elim (Dict.lookup id m) [
  | none ↦ m
  | some e ↦ Dict.insert id (record e { heap_index = i }) m
]

-- The time of the entry that stands at an index.
unfoldable pub time_of_slot : ℕ → RefillHeap → Option Time
time_of_slot i h = elim (get_elem? h.slots i) [
  | none ↦ none
  | some id ↦ elim (Dict.lookup id h.entries) [ none ↦ none | some e ↦ some e.next_refill_time ]
]

-- `Less`
unfoldable pub entry_less : ℕ → ℕ → RefillHeap → Option Bool
entry_less i j h = elim (time_of_slot i h) [
  | none ↦ none
  | some t ↦ elim (time_of_slot j h) [ none ↦ none | some u ↦ some (before t u) ]
]

-- `Swap`
unfoldable pub entry_swap : ℕ → ℕ → RefillHeap → Option RefillHeap
entry_swap i j h = elim (get_elem? h.slots i) [
  | none ↦ none
  | some a ↦ elim (get_elem? h.slots j) [
    | none ↦ none
    | some b ↦ some (record {
      slots = set (set h.slots i b) j a;
      entries = set_index a (pos j) (set_index b (pos i) h.entries);
    })
  ]
]

-- `Push` of a new entry for an id.
unfoldable pub entry_push : Str × Time → RefillHeap → RefillHeap
entry_push (id, t) h = record {
  slots = h.slots ++ id ∷ [];
  entries =
      Dict.insert id (record { next_refill_time = t; heap_index = pos (length h.slots) }) h.entries;
}

-- The slice without its last element, and that element.
unfoldable pub split_last : List Str → Option (Str × List Str)
split_last [] = none
split_last (x ∷ xs) = elim (split_last xs) [
  | none ↦ some (x, [])
  | some (last, rest) ↦ some (last, x ∷ rest)
]

-- `Pop`
unfoldable pub entry_pop : RefillHeap → Option ((Str × Time) × RefillHeap)
entry_pop h = elim (split_last h.slots) [
  | none ↦ none
  | some (id, rest) ↦ elim (Dict.lookup id h.entries) [
    | none ↦ none
    | some e ↦ some (
      (id, e.next_refill_time),
      record { slots = rest; entries = set_index id (negsuc 0) h.entries },
    )
  ]
]

instance unfoldable pub refill_slice : SortInterface RefillHeap
refill_slice = record { len = λ h. length h.slots; less = entry_less; swap = entry_swap }

instance unfoldable pub refill_heap : HeapInterface RefillHeap (Str × Time)
refill_heap = record { push = entry_push; pop = entry_pop }

pub record Scheduler : Type 0 where
  pub heap : RefillHeap
  pub wakeup : Bool
  pub refills_total : ℤ

unfoldable pub new : Scheduler
new = record { heap = record { slots = []; entries = [] }; wakeup = false; refills_total = pos 0 }

-- A write of the time through the pointer, and Fix where the object says it stands.
unfoldable pub reschedule : Str → RefillEntry → Time → RefillHeap → Option RefillHeap
reschedule id e t h =
    let h' = record h { entries = Dict.insert id (record e { next_refill_time = t }) h.entries } in
    elim e.heap_index [ pos i ↦ Heap.fix i h' | negsuc i ↦ none ]

-- `Schedule`, with the signal that wakes Run.
unfoldable pub schedule : Str → Time → Scheduler → Option Scheduler
schedule id t s =
    let changed : Option RefillHeap = elim (Dict.lookup id s.heap.entries) [
      | some e ↦ reschedule id e t s.heap
      | none ↦ Heap.push {E = Str × Time} (id, t) s.heap
    ] in
    elim changed [ none ↦ none | some h ↦ some (record s { heap = h; wakeup = true }) ]

-- `delete(s.entries, id)`
unfoldable pub forget : Str → RefillHeap → RefillHeap
forget id h = record h { entries = Dict.delete id h.entries }

unfoldable pub remove : Str → Scheduler → Option Scheduler
remove id s = elim (Dict.lookup id s.heap.entries) [
  | none ↦ some s
  | some e ↦ elim e.heap_index [
    | negsuc i ↦ none
    | pos i ↦ elim (Heap.remove {E = Str × Time} i s.heap) [
      | none ↦ none
      | some (popped, h) ↦ some (record s { heap = forget id h })
    ]
  ]
]

-- `nextWait`, at the clock's reading.
unfoldable pub next_wait : Time → Scheduler → Option Duration
next_wait now s = if length s.heap.slots == 0 then some hour else (elim (time_of_slot 0 s.heap) [
  | none ↦ none
  | some t ↦ let wait = sub_time t now in some (if ltb_ℤ wait (pos 0) then pos 0 else wait)
])

-- The first loop of processDue: the ids taken off, in order. Each round takes one off, so that as many
-- rounds as there are entries, and one, are enough.
unfoldable pub take_due : ℕ → Time → RefillHeap → Option (List Str × RefillHeap)
take_due zero now h = none
take_due (suc k) now h = elim (length h.slots == 0) [
  | true ↦ some ([], h)
  | false ↦ elim (time_of_slot 0 h) [
    | none ↦ none
    | some t ↦ elim (after t now) [
      | true ↦ some ([], h)
      | false ↦ elim (Heap.pop {E = Str × Time} h) [
        | none ↦ none
        | some ((id, at), h') ↦ elim (take_due k now (forget id h')) [
          | none ↦ none
          | some (due, rest) ↦ some (id ∷ due, rest)
        ]
      ]
    ]
  ]
]

-- The second loop: the callback `on_due` on the world `W` it works on, and rescheduling.
unfoldable pub run_due {ℓ} :
    {W : Type ℓ}
    → (Str → Time → W → Option Time × W)
    → Time
    → List Str
    → W
    → Scheduler
    → Option (W × Scheduler)
run_due on_due now [] w s = some (w, s)
run_due on_due now (id ∷ due) w s =
    let (next, w') = on_due id now w in
    let counted = record s { refills_total = add64 s.refills_total (pos 1) } in
    let again : Option Scheduler = elim next [
      | none ↦ some counted
      | some t ↦ schedule id t counted
    ] in
    elim again [ none ↦ none | some s' ↦ run_due on_due now due w' s' ]

unfoldable pub process_due {ℓ} :
    {W : Type ℓ}
    → (Str → Time → W → Option Time × W)
    → Time
    → W
    → Scheduler
    → Option (W × Scheduler)
process_due on_due now w s = elim (take_due (length s.heap.slots + 1) now s.heap) [
  | none ↦ none
  | some (due, h) ↦ run_due on_due now due w (record s { heap = h })
]

unfoldable pub heap_size : Scheduler → ℕ
heap_size s = length s.heap.slots

unfoldable pub refills_total : Scheduler → ℤ
refills_total s = s.refills_total
