-- ===== src/Scheduler/Collected.antt =====
-- The ids that are due at a time, and the others: what the first loop of processDue is to give.
use rateforge.Base.{
  ℕ, ◌<◌, ◌≡◌, refl, ap, ◌∙◌, Bool, true, false, inl, inr, Option, none, some, List, [], ◌∷◌, arith,
  if◌then◌else◌, Str, str_eq, str_eq_iff, length, All, Bool-cases, Option-cases,
}
use rateforge.Base.Int.{pos, ◌≤ℤ◌, ltb_ℤ}
use rateforge.Time.{Time, Duration, after, sub_time}
use rateforge.Heap.Order.{root_least}
use rateforge.Scheduler.{RefillHeap, refill_heap, refill_slice}
use rateforge.Scheduler.Linked.{due_at, at, time_or_zero, key, place}
use rateforge.Scheduler.Valid.{IsValid, Updates}

-- Whether `id` is one of the ids.
abbrev pub occurs : Str → List Str → Bool
occurs id [] = false
occurs id (x ∷ xs) = if str_eq x id then true else occurs id xs

-- Each of the ids is due at `now`.
abbrev pub Arrived : Time → RefillHeap → List Str → Type 0
Arrived now h due =
    All (λ id. (t : Time) × (due_at h.entries id ≡ some t) × (after t now ≡ false)) due

-- `x` is none of the ids, and due no later than any.
abbrev pub IsFirst : RefillHeap → Str → List Str → Type 0
IsFirst h x xs =
    All
      (λ y.
        (str_eq x y ≡ false)
        × (time_or_zero (due_at h.entries x) ≤ℤ time_or_zero (due_at h.entries y)))
      xs

-- The ids differ, and each is due no later than those after it.
abbrev pub IsOrdered : RefillHeap → List Str → Type 0
IsOrdered h [] = Unit
IsOrdered h (x ∷ xs) = IsFirst h x xs × IsOrdered h xs

-- The time, if it is after `now`.
abbrev pub later_only : Time → Option Time → Option Time
later_only now none = none
later_only now (some t) = if after t now then some t else none

-- How long it is until `t`, from `now` on.
abbrev pub wait_until : Time → Time → Duration
wait_until now t = if ltb_ℤ (sub_time t now) (pos 0) then pos 0 else sub_time t now

-- `due` are the ids of `h` that are due at `now`, in order, and `rest` holds the others.
pub record Collected (now : Time) (h : RefillHeap) (due : List Str) (rest : RefillHeap)
    : Type 0 where
  pub arrived : Arrived now h due
  pub order : IsOrdered h due
  pub complete :
      (id : Str) (t : Time)
      → due_at h.entries id ≡ some t
      → after t now ≡ false
      → occurs id due ≡ true
  pub kept : (id : Str) → due_at rest.entries id ≡ later_only now (due_at h.entries id)

place_of_time :
    (h : RefillHeap) (id : Str) (t : Time)
    → IsValid h
    → due_at h.entries id ≡ some t
    → (i : ℕ) × (i < length h.slots) × (at h i ≡ id)
place_of_time h id t v e = elim (Option-cases (place h.entries id)) [
  | inl f ↦ absurd (ground arith)
  | inr (p, f) ↦ let (i, _, l, there) = v.links.covered id p f in (i, l, there)
]

-- The first entry is due no later than any other.
pub first-least :
    (h : RefillHeap) (id : Str) (t : Time)
    → IsValid h
    → due_at h.entries id ≡ some t
    → (0 < length h.slots) × (key h 0 ≤ℤ t)
first-least h id t v e =
    let (i, l, there) = place_of_time h id t v e in
    let bound = root_least (length h.slots) (key h) i v.ordered l in (omega arith, ground arith)

pub none_due :
    (now : Time) (h : RefillHeap)
    → ((id : Str) (t : Time) → due_at h.entries id ≡ some t → after t now ≡ true)
    → Collected now h [] h
none_due now h later = record {
  arrived = tt;
  order = tt;
  complete = λ id t e f. ground (arith, later id t e);
  kept = λ id. elim (Option-cases (due_at h.entries id)) [
    | inl e ↦ rw e refl
    | inr (t, e) ↦ rw (e, later id t e) refl
  ];
}

-- The entries of `h` that stand in `h1`, which lacks one.
module _ (top : Str) (h h1 : RefillHeap) (u : Updates top none h h1) where
  still_there :
      (id : Str) (t : Time)
      → due_at h1.entries id ≡ some t
      → (due_at h.entries id ≡ some t) × (str_eq top id ≡ false)
  still_there id t e = elim (Bool-cases (str_eq top id)) [
    | inl f ↦ absurd (ground (arith, u id))
    | inr f ↦ (ground (arith, u id), f)
  ]

  Arrived-weaken : (now : Time) (due : List Str) → Arrived now h1 due → Arrived now h due
  Arrived-weaken now [] a = tt
  Arrived-weaken now (x ∷ due) ((t, e, f), a) =
      ((t, (still_there x t e).0, f), Arrived-weaken now due a)

  -- Each of the ids that are due in `h1` is due after `top`.
  after_top :
      (now t0 : Time) (due : List Str)
      → due_at h.entries top ≡ some t0
      → ((id : Str) (t : Time) → due_at h.entries id ≡ some t → t0 ≤ℤ t)
      → Arrived now h1 due
      → IsFirst h top due
  after_top now t0 [] e least a = tt
  after_top now t0 (x ∷ due) e least ((t, f, g), a) =
      let (old, other) = still_there x t f in
      ((other, rw (e, old) (least x t old)), after_top now t0 due e least a)

  IsFirst-weaken :
      (now t : Time) (x : Str) (due : List Str)
      → due_at h1.entries x ≡ some t
      → Arrived now h1 due
      → IsFirst h1 x due
      → IsFirst h x due
  IsFirst-weaken now t x [] e a o = tt
  IsFirst-weaken now t x (y ∷ due) e ((w, f, g), a) ((ne, le), o) =
      let here = (still_there x t e).0 in
      let there = (still_there y w f).0 in
      let le' : t ≤ℤ w = ground arith in
      ((ne, rw (here, there) le'), IsFirst-weaken now t x due e a o)

  IsOrdered-weaken :
      (now : Time) (due : List Str) → Arrived now h1 due → IsOrdered h1 due → IsOrdered h due
  IsOrdered-weaken now [] a o = tt
  IsOrdered-weaken now (x ∷ due) ((t, e, f), a) (lower, o) =
      (IsFirst-weaken now t x due e a lower, IsOrdered-weaken now due a o)

  -- The ids due in `h` are `top` and those due in `h1`.
  pub one_more :
      (now t0 : Time) (due : List Str) (rest : RefillHeap)
      → due_at h.entries top ≡ some t0
      → after t0 now ≡ false
      → ((id : Str) (t : Time) → due_at h.entries id ≡ some t → t0 ≤ℤ t)
      → Collected now h1 due rest
      → Collected now h (top ∷ due) rest
  one_more now t0 due rest e f least c = record {
    arrived = ((t0, e, f), Arrived-weaken now due c.arrived);
    order = (after_top now t0 due e least c.arrived, IsOrdered-weaken now due c.arrived c.order);
    complete = λ id t g l. elim (Bool-cases (str_eq top id)) [
      | inl q ↦ rw q refl
      | inr q ↦ rw q (c.complete id t (u id ∙ rw q g) l)
    ];
    kept = λ id. elim (Bool-cases (str_eq top id)) [
      | inl q ↦
          let gone : due_at h1.entries id ≡ none = u id ∙ rw q refl in
          let here : due_at h.entries id ≡ some t0 = ground (arith, str_eq_iff top id) in
          c.kept id ∙ rw (gone, here, f) refl
      | inr q ↦
          let same : due_at h1.entries id ≡ due_at h.entries id = u id ∙ rw q refl in
          c.kept id ∙ ap (λ o. later_only now o) same
    ];
  }
