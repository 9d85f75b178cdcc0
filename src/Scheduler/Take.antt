-- ===== src/Scheduler/Take.antt =====
-- Taking an entry off the pending refills, as Pop and Remove of container/heap do.
use rateforge.Base.{
  ℕ, suc, ◌<◌, ◌≡◌, refl, ap, ◌∙◌, subst, inl, inr, Option, some, arith, Str, length, Bool-cases,
  ◌==◌, ==_iff,
}
use rateforge.Time.{Time}
use rateforge.Heap
use rateforge.Heap.Order.{IsHeap}
use rateforge.Heap.Down.{MidInv, changed-MidInv, settle_lem, down_root_lem}
use rateforge.Heap.Run.{pop_lem, remove-last, remove_lem}
use rateforge.Scheduler.{RefillHeap, refill_slice, refill_heap, entry_pop, entry_swap, forget}
use rateforge.Scheduler.Linked.{due_at, at, time_or_zero, key, key-ext, apart}
use rateforge.Scheduler.Swap.{
  Keeps, sifts, swapped, swapped_lem, swapped-IsLinked, at-swapped, due_at-swapped, length-swapped,
}
use rateforge.Scheduler.Ends.{entry_pop_lem}
use rateforge.Scheduler.Valid.{IsValid, Taken}

-- Pop, where `id` stands last and the places before it are a heap.
abbrev Finished : ℕ → RefillHeap → RefillHeap → Str → Type 0
Finished n h h2 id =
    (h' : RefillHeap) × (entry_pop h2 ≡ some ((id, time_or_zero (due_at h.entries id)), h'))
    × Taken n id h h'

finish :
    (n : ℕ) (h h2 : RefillHeap) (id : Str)
    → Keeps h.entries (suc n) n id h2
    → IsHeap n (key h2)
    → Finished n h h2 id
unfolding forget
finish n h h2 id p o =
    let (h', run, links, size, times, same) = entry_pop_lem n h2 p.links p.size in
    let top = at h2 n in
    let before : (c : ℕ) → c < n → key (forget top h') c ≡ key h2 c = λ c l.
      let other =
        apart h2 n c p.links (rw p.size (omega arith)) (rw p.size (omega arith))
          (λ t. omega arith) in
      key-ext h2 (forget top h') c (same c l) (times (at h2 c) ∙ rw other) in
    subst (λ x. Finished n h h2 x) p.last
      (
        h',
        run ∙ ap (λ o. some ((top, time_or_zero o), h')) (p.times top),
        (
          record {
            links = links;
            ordered = λ c a b.
                let l : c < n = rw (← size) b in
                rw (before c l, before (Heap.parent c) (omega arith)) (o c a l);
          },
          size,
          λ j. times j ∙ rw (p.times j),
        ),
      )

-- The swap that Pop and Remove begin with.
module _ (n i : ℕ) (h : RefillHeap) (v : IsValid h) (size : length h.slots ≡ suc n)
    (l : i < suc n) where
  abbrev hi : i < length h.slots
  hi = rw size l

  abbrev hn : n < length h.slots
  hn = rw size (omega arith)

  abbrev first : RefillHeap
  first = swapped h i n v.links hi hn

  first_lem : entry_swap i n h ≡ some first
  first_lem = swapped_lem h i n v.links hi hn

  first-Keeps : Keeps h.entries (suc n) n (at h i) first
  first-Keeps = record {
    links = swapped-IsLinked h i n v.links hi hn;
    size = length-swapped h i n v.links hi hn ∙ size;
    times = due_at-swapped h i n v.links hi hn;
    last = ground (arith, at-swapped h i n v.links hi hn n);
  }

  first-MidInv : MidInv n (key first) i
  first-MidInv =
      changed-MidInv n (key h) (key first) i (λ c a b. v.ordered c a (rw size (omega arith)))
        (λ c a b.
          let stays : at first c ≡ at h c = ground (arith, at-swapped h i n v.links hi hn c) in
          key-ext h first c stays (due_at-swapped h i n v.links hi hn (at h c)))

  -- What taking the entry at `i` off gives.
  abbrev pub Removed : Option ((Str × Time) × RefillHeap) → Type 0
  Removed r =
      (h' : RefillHeap) × (r ≡ some ((at h i, time_or_zero (due_at h.entries (at h i))), h'))
      × Taken n (at h i) h h'

  still-Keeps : n ≡ i → Keeps h.entries (suc n) n (at h i) h
  still-Keeps same = record {
    links = v.links;
    size = size;
    times = λ j. refl;
    last = ap (λ c. at h c) same;
  }

  -- Remove takes the entry at an index off.
  pub remove_at_lem : Removed (Heap.remove {E = Str × Time} i h)
  unfolding refill_slice refill_heap
  remove_at_lem = elim (Bool-cases (n == i)) [
    | inl e ↦
        let same = (==_iff n i).0 e in
        let (h', popped, taken) =
          finish n h h (at h i) (still-Keeps same)
            (λ c a b. v.ordered c a (rw size (omega arith))) in
        (h', remove-last n i h _ size same popped, taken)
    | inr e ↦
        let (h2, run, p, o) =
          settle_lem n key (Keeps h.entries (suc n) n (at h i))
            (sifts h.entries (suc n) n (at h i) (omega arith)) i first (ground arith) first-Keeps
            first-MidInv in
        let (h', popped, taken) = finish n h h2 (at h i) p o in
        (h', remove_lem n i h first h2 _ size e first_lem run popped, taken)
  ]

-- Pop takes the first entry off.
pub pop_first_lem :
    (n : ℕ) (h : RefillHeap) (v : IsValid h) (size : length h.slots ≡ suc n)
    → Removed n 0 h v size (omega arith) (Heap.pop {E = Str × Time} h)
unfolding refill_slice refill_heap
pop_first_lem n h v size =
    let start = first n 0 h v size (omega arith) in
    let ((moved, h2), run, p, o) =
      down_root_lem n key (Keeps h.entries (suc n) n (at h 0))
        (sifts h.entries (suc n) n (at h 0) (omega arith)) start
        (first-Keeps n 0 h v size (omega arith)) (first-MidInv n 0 h v size (omega arith)) in
    let (h', popped, taken) = finish n h h2 (at h 0) p o in
    (h', pop_lem n h start h2 moved _ size (first_lem n 0 h v size (omega arith)) run popped, taken)
