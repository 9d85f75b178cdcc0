-- ===== src/Scheduler/Swap.antt =====
-- Swap on the two views of the pending refills, for the loops of container/heap.
use mathlib.Core.Option.{some-injective}
use rateforge.Base.{
  ℕ, ◌≤◌, ◌<◌, ◌≡◌, ◌≢◌, sym, ap, ◌∙◌, inl, inr, none, some, List, [], arith, if◌then◌else◌, Str,
  str_eq, str_eq_iff, str_eq_refl, length, length-set, get_or, set, get_elem?-eq-get_or,
  get_or-set_self, get_or-set_ne, Bool-cases, ◌==◌, ==_iff,
}
use rateforge.Base.Int.{ℤ, pos}
use rateforge.Dict.{Dict}
use rateforge.Heap.Order.{Sifts}
use rateforge.Scheduler.{RefillEntry, RefillHeap, refill_slice, set_index, entry_swap}
use rateforge.Scheduler.Linked.{
  place, due_at, at, time_or_zero, key, IsLinked, apart, place-set_index, due_at-set_index,
  entry_less_lem,
}

get_or-set :
    (xs : List Str) (i c : ℕ) (v : Str)
    → i < length xs
    → get_or (set xs i v) c [] ≡ (if i == c then v else get_or xs c [])
get_or-set xs i c v h = elim (Bool-cases (i == c)) [
  | inl e ↦ let same = (==_iff i c).0 e in rw (e, ← same) (get_or-set_self xs i v [] h)
  | inr e ↦ rw e (get_or-set_ne xs i c v [] (λ same. ground arith))
]

module _ (h : RefillHeap) (i j : ℕ) (v : IsLinked h) (hi : i < length h.slots)
    (hj : j < length h.slots) where
  -- The slice after the swap.
  abbrev pub swapped : RefillHeap
  swapped = record {
    slots = set (set h.slots i (at h j)) j (at h i);
    entries = set_index (at h i) (pos j) (set_index (at h j) (pos i) h.entries);
  }

  pub swapped_lem : entry_swap i j h ≡ some swapped
  unfolding entry_swap
  swapped_lem =
      rw (get_elem?-eq-get_or h.slots i [] hi, get_elem?-eq-get_or h.slots j [] hj, entry_swap)

  pub at-swapped :
      (c : ℕ) → at swapped c ≡ (if j == c then at h i else if i == c then at h j else at h c)
  at-swapped c = rw (
    get_or-set (set h.slots i (at h j)) j c (at h i) (rw length-set hj),
    get_or-set h.slots i c (at h j) hi,
  )

  place-swapped :
      (id : Str)
      → place swapped.entries id ≡ (
          if str_eq (at h i) id
          then some (pos j)
          else if str_eq (at h j) id
          then some (pos i)
          else place h.entries id)
  place-swapped id =
      let there : place h.entries (at h j) ≢ none = λ e. cc (v.linked j hj, e) in
      let first = place-set_index (at h j) id (pos i) h.entries there in
      let still : place (set_index (at h j) (pos i) h.entries) (at h i) ≢ none = λ e.
        ground
          (arith, place-set_index (at h j) (at h i) (pos i) h.entries there, v.linked i hi, e) in
      place-set_index (at h i) id (pos j) (set_index (at h j) (pos i) h.entries) still ∙ rw first

  pub due_at-swapped : (id : Str) → due_at swapped.entries id ≡ due_at h.entries id
  due_at-swapped id =
      due_at-set_index (at h i) id (pos j) (set_index (at h j) (pos i) h.entries)
      ∙ due_at-set_index (at h j) id (pos i) h.entries

  pub length-swapped : length swapped.slots ≡ length h.slots
  length-swapped = rw (length-set, length-set)

  linked-swapped :
      (c : ℕ) → c < length h.slots → place swapped.entries (at swapped c) ≡ some (pos c)
  linked-swapped c l = elim (Bool-cases (j == c)) [
    | inl e ↦
        let same = (==_iff j c).0 e in
        rw (at-swapped c, e, place-swapped (at h i), str_eq_refl (at h i))
          (ap (λ x. some (pos x)) same)
    | inr e ↦ elim (Bool-cases (i == c)) [
      | inl f ↦
          let same = (==_iff i c).0 f in
          let ne = apart h i j v hi hj (λ t. ground arith) in
          rw (at-swapped c, e, f, place-swapped (at h j), ne, str_eq_refl (at h j))
            (ap (λ x. some (pos x)) same)
      | inr f ↦
          rw
            (
              at-swapped c,
              e,
              f,
              place-swapped (at h c),
              apart h i c v hi l (λ t. ground arith),
              apart h j c v hj l (λ t. ground arith),
            )
            (v.linked c l)
    ]
  ]

  covered-swapped :
      (id : Str) (p : ℤ)
      → place swapped.entries id ≡ some p
      → (c : ℕ) × (p ≡ pos c) × (c < length h.slots) × (at swapped c ≡ id)
  covered-swapped id p e = elim (Bool-cases (str_eq (at h i) id)) [
    | inl f ↦
        let here : place swapped.entries id ≡ some (pos j) = place-swapped id ∙ rw f in
        (
          j,
          some-injective p (pos j) (sym e ∙ here),
          hj,
          ground (arith, at-swapped j, (str_eq_iff (at h i) id).0 f),
        )
    | inr f ↦ elim (Bool-cases (str_eq (at h j) id)) [
      | inl g ↦
          let here : place swapped.entries id ≡ some (pos i) = place-swapped id ∙ rw (f, g) in
          let ne : j ≢ i = λ t. ground (arith, str_eq_refl (at h i), t, f, g) in
          (
            i,
            some-injective p (pos i) (sym e ∙ here),
            hi,
            ground (arith, at-swapped i, (str_eq_iff (at h j) id).0 g),
          )
      | inr g ↦
          let same : place swapped.entries id ≡ place h.entries id = place-swapped id ∙ rw (f, g) in
          let (c, at_c, l, there) = v.covered id p (sym same ∙ e) in
          (
            c,
            at_c,
            l,
            ground (arith, at-swapped c, there, f, g, ==_iff i c, ==_iff j c, str_eq_refl id),
          )
    ]
  ]

  pub swapped-IsLinked : IsLinked swapped
  swapped-IsLinked = record {
    linked = λ c l. linked-swapped c (rw (← length-swapped) l);
    covered = λ id p e.
        let (c, at_c, l, there) = covered-swapped id p e in (c, at_c, rw length-swapped l, there);
  }

-- The slice `h` is linked, has `k` places, its objects have the times they have in `m0`, and the id at
-- `n` is `top`.
pub record Keeps (m0 : Dict RefillEntry) (k n : ℕ) (top : Str) (h : RefillHeap) : Type 0 where
  pub links : IsLinked h
  pub size : length h.slots ≡ k
  pub times : (id : Str) → due_at h.entries id ≡ due_at m0 id
  pub last : at h n ≡ top

-- The loops may run on the first `n` places, at most `k`, of such slices.
pub sifts : (m0 : Dict RefillEntry) (k n : ℕ) (top : Str) → n ≤ k → Sifts n key (Keeps m0 k n top)
unfolding refill_slice
sifts m0 k n top l = record {
  less_lem = λ h i j p a b.
      entry_less_lem h i j p.links (rw p.size (omega arith)) (rw p.size (omega arith));
  swap_lem = λ h i j p a b.
      let hi : i < length h.slots = rw p.size (omega arith) in
      let hj : j < length h.slots = rw p.size (omega arith) in
      (
        swapped h i j p.links hi hj,
        swapped_lem h i j p.links hi hj,
        record {
          links = swapped-IsLinked h i j p.links hi hj;
          size = length-swapped h i j p.links hi hj ∙ p.size;
          times = λ id. due_at-swapped h i j p.links hi hj id ∙ p.times id;
          last = ground (arith, at-swapped h i j p.links hi hj n, p.last);
        },
        λ c.
            ap (λ o. time_or_zero o)
              (due_at-swapped h i j p.links hi hj (at (swapped h i j p.links hi hj) c))
            ∙ rw (at-swapped h i j p.links hi hj c) (ground arith),
      );
}
