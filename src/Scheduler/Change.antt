-- ===== src/Scheduler/Change.antt =====
-- What Schedule and Remove do to the pending refills.
use rateforge.Base.{
  ℕ, suc, ◌-◌, ◌<◌, ◌≡◌, ◌≢◌, refl, sym, ap, ◌∙◌, true, false, inl, inr, Option, none, some, arith,
  Str, str_eq, str_eq_iff, length, Option-cases,
}
use rateforge.Base.Int.{pos, negsuc}
use rateforge.Time.{Time}
use rateforge.Dict
use rateforge.Dict.{Dict}
use rateforge.Heap
use rateforge.Heap.Order.{UpInv}
use rateforge.Heap.Up.{up_lem}
use rateforge.Heap.Down.{changed-MidInv, settle_lem}
use rateforge.Heap.Run.{push_lem}
use rateforge.Scheduler.{
  RefillEntry, RefillHeap, refill_slice, refill_heap, entry_push, Scheduler, schedule, reschedule,
  remove, forget,
}
use rateforge.Scheduler.Linked.{place, due_at, at, key, key-ext, apart, due_at-place}
use rateforge.Scheduler.Swap.{Keeps, sifts}
use rateforge.Scheduler.Ends.{
  place-insert, due_at-insert, length-push, get_or-push, pushed-IsLinked,
}
use rateforge.Scheduler.Valid.{IsValid, Updates}
use rateforge.Scheduler.Take.{remove_at_lem}

-- A new entry, sifted up.
pub push_new_lem :
    (id : Str) (t : Time) (h : RefillHeap)
    → IsValid h
    → due_at h.entries id ≡ none
    → (h' : RefillHeap) × (Heap.push {E = Str × Time} (id, t) h ≡ some h')
      × IsValid h'
      × Updates id (some t) h h'
unfolding refill_slice refill_heap entry_push
push_new_lem id t h v fresh =
    let h1 = entry_push (id, t) h in
    let n = length h.slots in
    let item : RefillEntry = record { next_refill_time = t; heap_index = pos n } in
    let size : length h1.slots ≡ suc n = length-push h.slots id in
    let start : Keeps h1.entries (suc n) (suc n) (at h1 (suc n)) h1 = record {
      links = pushed-IsLinked id t h v.links fresh;
      size = size;
      times = λ j. refl;
      last = refl;
    } in
    let old : (c : ℕ) → c < n → key h1 c ≡ key h c = λ c l.
      let other : str_eq id (at h c) ≡ false = ground (
        arith,
        str_eq_iff id (at h c),
        due_at-place h.entries (at h c) (pos c) (v.links.linked c l),
      ) in
      let same : at h1 c ≡ at h c = ground (arith, get_or-push h.slots id c) in
      key-ext h h1 c same (due_at-insert id (at h c) item h.entries ∙ rw other) in
    let rising : UpInv (suc n) (key h1) n = record {
      edges = λ c a b q.
          rw (old c (ground arith), old (Heap.parent c) (ground arith))
            (v.ordered c a (ground arith));
      bridged = λ c a b q r. absurd (ground arith);
    } in
    let (h2, run, p, o) =
      up_lem (suc n) key (Keeps h1.entries (suc n) (suc n) (at h1 (suc n)))
        (sifts h1.entries (suc n) (suc n) (at h1 (suc n)) (omega arith)) n h1 (omega arith) start
        rising in
    (
      h2,
      push_lem n (id, t) h (some h2) size run,
      record { links = p.links; ordered = rw p.size o },
      λ j. p.times j ∙ due_at-insert id j item h.entries,
    )

-- The objects, with a new time for one of them.
abbrev retimed : Str → RefillEntry → Time → RefillHeap → RefillHeap
retimed id e t h = record h {
  entries = Dict.insert id (record e { next_refill_time = t }) h.entries;
}

reschedule-fix :
    (i : ℕ) (id : Str) (t : Time) (e : RefillEntry) (h : RefillHeap)
    → e.heap_index ≡ pos i
    → reschedule id e t h ≡ Heap.fix i (retimed id e t h)
unfolding reschedule
reschedule-fix i id t e h here =
    ap
      (λ p. elim p as (λ p. Option RefillHeap) [
        | pos c ↦ Heap.fix c (retimed id e t h)
        | negsuc c ↦ none
      ])
      here

-- A new time for an entry that stands at `i`.
pub reschedule_lem :
    (i : ℕ) (t : Time) (e : RefillEntry) (h : RefillHeap)
    → IsValid h
    → Dict.lookup (at h i) h.entries ≡ some e
    → e.heap_index ≡ pos i
    → i < length h.slots
    → (h' : RefillHeap) × (reschedule (at h i) e t h ≡ some h')
      × IsValid h'
      × Updates (at h i) (some t) h h'
unfolding Heap.fix refill_slice
reschedule_lem i t e h v found here l =
    let id = at h i in
    let n = length h.slots in
    let h1 = retimed id e t h in
    let places : (j : Str) → place h1.entries j ≡ place h.entries j = λ j.
      place-insert id j (record e { next_refill_time = t }) h.entries
      ∙ ground (arith, str_eq_iff id j) in
    let start : Keeps h1.entries n n (at h1 n) h1 = record {
      links = record {
        linked = λ c q. places (at h c) ∙ v.links.linked c q;
        covered = λ j p q. v.links.covered j p (sym (places j) ∙ q);
      };
      size = refl;
      times = λ j. refl;
      last = refl;
    } in
    let old : (c : ℕ) → c < n → c ≢ i → key h1 c ≡ key h c = λ c q ne.
      let other = apart h i c v.links l q (λ s. ne (sym s)) in
      key-ext h h1 c refl
        (due_at-insert id (at h c) (record e { next_refill_time = t }) h.entries ∙ rw other) in
    let (h2, run, p, o) =
      settle_lem n key (Keeps h1.entries n n (at h1 n))
        (sifts h1.entries n n (at h1 n) (omega arith)) i h1 l start
        (changed-MidInv n (key h) (key h1) i v.ordered old) in
    (
      h2,
      reschedule-fix i id t e h here ∙ run,
      record { links = p.links; ordered = rw p.size o },
      λ j. p.times j ∙ due_at-insert id j (record e { next_refill_time = t }) h.entries,
    )

-- On a scheduler whose slice is a heap by time and linked with its objects both ways, Schedule
-- returns, without a panic, and keeps it so; then the id is due at the new time, every other id as
-- before, and no callback was counted.
pub schedule-IsValid :
    (id : Str) (t : Time) (s : Scheduler)
    → IsValid s.heap
    → (s' : Scheduler) × (schedule id t s ≡ some s')
      × IsValid s'.heap
      × Updates id (some t) s.heap s'.heap
      × (s'.refills_total ≡ s.refills_total)
unfolding schedule
schedule-IsValid id t s v = elim (Option-cases (Dict.lookup id s.heap.entries)) [
  | inl e ↦
      let (h, run, w, u) = push_new_lem id t s.heap v (ground arith) in
      (record s { heap = h; wakeup = true }, rw (e, run, schedule) refl, w, u, refl)
  | inr (x, e) ↦
      let (i, here, l, there) = v.links.covered id x.heap_index (ground arith) in
      let (h, run, w, u) = reschedule_lem i t x s.heap v (rw there e) here l in
      let run' : reschedule id x t s.heap ≡ some h = rw (← there) run in
      (record s { heap = h; wakeup = true }, rw (e, run', schedule) refl, w, rw (← there) u, refl)
]

-- On a scheduler whose slice is a heap by time and linked with its objects both ways, Remove
-- returns, without a panic, and keeps it so; then the id has no time, and every other id is due as
-- before.
pub remove-IsValid :
    (id : Str) (s : Scheduler)
    → IsValid s.heap
    → (s' : Scheduler) × (remove id s ≡ some s') × IsValid s'.heap × Updates id none s.heap s'.heap
unfolding remove
remove-IsValid id s v = elim (Option-cases (Dict.lookup id s.heap.entries)) [
  | inl e ↦ (s, rw (e, remove) refl, v, λ j. ground (arith, str_eq_iff id j))
  | inr (x, e) ↦
      let (i, here, l, there) = v.links.covered id x.heap_index (ground arith) in
      let n = length s.heap.slots - 1 in
      let (h, run, (w, size, u)) = remove_at_lem n i s.heap v (omega arith) (omega arith) in
      (
        record s { heap = forget id h },
        rw (e, here, run, remove) refl,
        rw (← there) w,
        rw (← there) u,
      )
]
