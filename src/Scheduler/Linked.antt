-- ===== src/Scheduler/Linked.antt =====
-- The two views of the pending refills: the slice, and the objects with their back-pointers.
use mathlib.Core.Option.{some-injective}
use rateforge.Base.{
  ℕ, ◌<◌, ◌≡◌, ◌≢◌, sym, ap, ◌∙◌, false, inl, inr, Option, none, some, [], arith, if◌then◌else◌,
  Str, str_eq, str_eq_iff, length, get_or, get_elem?-eq-get_or, Bool-cases, Option-cases,
}
use rateforge.Base.Int.{ℤ, pos, ltb_ℤ}
use rateforge.Time.{Time, zero_time}
use rateforge.Dict
use rateforge.Dict.{Dict}
use rateforge.Scheduler.{RefillEntry, RefillHeap, set_index, time_of_slot, entry_less}

-- The back-pointer and the time of an id, if it is there.
abbrev pub place : Dict RefillEntry → Str → Option ℤ
place m id = elim (Dict.lookup id m) [ none ↦ none | some e ↦ some e.heap_index ]

abbrev pub due_at : Dict RefillEntry → Str → Option Time
due_at m id = elim (Dict.lookup id m) [ none ↦ none | some e ↦ some e.next_refill_time ]

-- The id at an index, and its time.
abbrev pub at : RefillHeap → ℕ → Str
at h i = get_or h.slots i []

abbrev pub time_or_zero : Option Time → Time
time_or_zero none = zero_time
time_or_zero (some t) = t

abbrev pub key : RefillHeap → ℕ → ℤ
key h i = time_or_zero (due_at h.entries (at h i))

pub key-ext :
    (h h' : RefillHeap) (c : ℕ)
    → at h' c ≡ at h c
    → due_at h'.entries (at h c) ≡ due_at h.entries (at h c)
    → key h' c ≡ key h c
key-ext h h' c same timed = rw same (ap (λ o. time_or_zero o) timed)

-- Each place of the slice names an object that points back to it, and each object stands there.
pub record IsLinked (h : RefillHeap) : Type 0 where
  pub linked : (i : ℕ) → i < length h.slots → place h.entries (at h i) ≡ some (pos i)
  pub covered :
      (id : Str) (p : ℤ)
      → place h.entries id ≡ some p
      → (i : ℕ) × (p ≡ pos i) × (i < length h.slots) × (at h i ≡ id)

-- No id stands twice.
pub distinct :
    (h : RefillHeap) (i j : ℕ)
    → IsLinked h
    → i < length h.slots
    → j < length h.slots
    → at h i ≡ at h j
    → i ≡ j
distinct h i j v p q e =
    let same = sym (v.linked i p) ∙ ap (place h.entries) e ∙ v.linked j q in
    cc (some-injective (pos i) (pos j) same)

pub apart :
    (h : RefillHeap) (x c : ℕ)
    → IsLinked h
    → x < length h.slots
    → c < length h.slots
    → x ≢ c
    → str_eq (at h x) (at h c) ≡ false
apart h x c v p q ne = elim (Bool-cases (str_eq (at h x) (at h c))) [
  | inl e ↦ absurd (ne (distinct h x c v p q ((str_eq_iff (at h x) (at h c)).0 e)))
  | inr e ↦ e
]

pub place-set_index :
    (a b : Str) (i : ℤ) (m : Dict RefillEntry)
    → place m a ≢ none
    → place (set_index a i m) b ≡ (if str_eq a b then some i else place m b)
unfolding set_index
place-set_index a b i m h = elim (Option-cases (Dict.lookup a m)) [
  | inl e ↦ absurd (h (ground (arith, e)))
  | inr (x, e) ↦
      rw (e, set_index) (ground (arith, Dict.lookup-insert a b (record x { heap_index = i }) m))
]

pub due_at-set_index :
    (a b : Str) (i : ℤ) (m : Dict RefillEntry) → due_at (set_index a i m) b ≡ due_at m b
unfolding set_index
due_at-set_index a b i m = elim (Option-cases (Dict.lookup a m)) [
  | inl e ↦ rw (e, set_index)
  | inr (x, e) ↦
      rw (e, set_index)
        (ground (arith, Dict.lookup-insert a b (record x { heap_index = i }) m, str_eq_iff a b, e))
]

-- A place that names an object has a time.
pub due_at-place :
    (m : Dict RefillEntry) (id : Str) (p : ℤ)
    → place m id ≡ some p
    → due_at m id ≡ some (time_or_zero (due_at m id))
due_at-place m id p h = ground arith

pub time_of_slot_lem :
    (h : RefillHeap) (i : ℕ) → IsLinked h → i < length h.slots → time_of_slot i h ≡ some (key h i)
unfolding time_of_slot
time_of_slot_lem h i v l = ground (
  arith,
  get_elem?-eq-get_or h.slots i [] l,
  due_at-place h.entries (at h i) (pos i) (v.linked i l),
)

pub entry_less_lem :
    (h : RefillHeap) (i j : ℕ)
    → IsLinked h
    → i < length h.slots
    → j < length h.slots
    → entry_less i j h ≡ some (ltb_ℤ (key h i) (key h j))
unfolding entry_less
entry_less_lem h i j v p q = rw (time_of_slot_lem h i v p, time_of_slot_lem h j v q, entry_less)
