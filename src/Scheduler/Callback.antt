-- ===== src/Scheduler/Callback.antt =====
-- processDue as a whole: the callbacks, and what is pending after them.
use rateforge.Base.{
  ℕ, ◌+◌, ◌^◌, ◌<◌, ◌≡◌, refl, ap, ◌∙◌, subst, Option, none, some, List, [], ◌∷◌, arith,
  if◌then◌else◌, Str, str_eq, length,
}
use rateforge.Base.Int.{pos, add64, add64-pos}
use rateforge.Time.{Time}
use rateforge.Scheduler.{RefillHeap, Scheduler, schedule, run_due, process_due}
use rateforge.Scheduler.Linked.{due_at}
use rateforge.Scheduler.Valid.{IsValid}
use rateforge.Scheduler.Change.{schedule-IsValid}
use rateforge.Scheduler.Collected.{Collected, later_only}
use rateforge.Scheduler.Due.{take_due_lem}

-- The pending times as a function of the id.
abbrev pub Pending : Type 0
Pending = Str → Option Time

abbrev pub override : Str → Option Time → Pending → Pending
override id none p = p
override id (some t) p = λ j. if str_eq id j then some t else p j

-- The callbacks for the ids in turn, on the world and the pending times.
abbrev pub call_back {ℓ} :
    {W : Type ℓ} → (Str → Time → W → Option Time × W) → Time → List Str → W × Pending → W × Pending
call_back on_due now [] (w, p) = (w, p)
call_back on_due now (id ∷ due) (w, p) =
    let (next, w') = on_due id now w in call_back on_due now due (w', override id next p)

-- The scheduler has exactly the times of `p`.
abbrev pub Represents : Scheduler → Pending → Type 0
Represents s p = IsValid s.heap × ((j : Str) → due_at s.heap.entries j ≡ p j)

module _ {ℓ} {W : Type ℓ} (on_due : Str → Time → W → Option Time × W) (now : Time) where
  -- The callbacks return, with the world and the pending times of `q`, and `n` callbacks counted.
  abbrev pub Ran : W × Pending → ℕ → Option (W × Scheduler) → Type ℓ
  Ran q n r =
      (w' : W) × (s' : Scheduler) × (r ≡ some (w', s'))
      × (w' ≡ q.0)
      × Represents s' q.1
      × (s'.refills_total ≡ pos n)

  run_due_lem :
      (due : List Str) (w : W) (p : Pending) (s : Scheduler) (count : ℕ)
      → Represents s p
      → s.refills_total ≡ pos count
      → count + length due < 2 ^ 63
      → Ran (call_back on_due now due (w, p)) (count + length due) (run_due on_due now due w s)
  unfolding run_due
  run_due_lem [] w p s count r c l = (w, s, refl, refl, r, c ∙ ap pos (omega arith))
  run_due_lem (id ∷ due) w p s count (v, same) c l =
      let (next, w1) = on_due id now w in
      let counted : Scheduler = record s { refills_total = add64 s.refills_total (pos 1) } in
      let one : counted.refills_total ≡ pos (count + 1) = rw c (add64-pos count 1 (omega arith)) in
      let longer : count + 1 + length due ≡ count + length (id ∷ due) = omega arith in
      let target : Option Time → Type ℓ = λ o.
        Ran (call_back on_due now due (w1, override id o p)) (count + length (id ∷ due))
          (elim (elim o as (λ o. Option Scheduler) [
            | none ↦ some counted
            | some t ↦ schedule id t counted
          ])
            as (λ o. Option (W × Scheduler)) [
              | none ↦ none
              | some s' ↦ run_due on_due now due w1 s'
            ]) in
      elim (on_due id now w).0 as target [
        | none ↦
            subst
              (λ n. Ran (call_back on_due now due (w1, p)) n (run_due on_due now due w1 counted))
              longer (run_due_lem due w1 p counted (count + 1) (v, same) one (omega arith))
        | some t ↦
            let (s1, run1, v1, u, keep) = schedule-IsValid id t counted v in
            let now_due : (j : Str) → due_at s1.heap.entries j ≡ override id (some t) p j =
              λ j. u j ∙ rw (same j) in
            let q = call_back on_due now due (w1, override id (some t) p) in
            rw run1 (
              subst (λ n. Ran q n (run_due on_due now due w1 s1)) longer
                (run_due_lem due w1 (override id (some t) p) s1 (count + 1) (v1, now_due)
                  (keep ∙ one) (omega arith)))
      ]

  -- On a scheduler whose slice is a heap by time and linked with its objects both ways, processDue
  -- returns, without a panic, for any callback, if the count of callbacks stays below 2^63: it
  -- calls back for exactly the ids that are due, in order of their times; the world is what these
  -- calls leave, one after the other, the count grows by their number, and what is pending is the
  -- times that were not due, with the times that the calls asked for.
  pub process_due_lem :
      (w : W) (s : Scheduler) (count : ℕ)
      → IsValid s.heap
      → s.refills_total ≡ pos count
      → count + length s.heap.slots < 2 ^ 63
      → (due : List Str) × (rest : RefillHeap) × Collected now s.heap due rest
        × Ran
            (call_back on_due now due (w, λ j. later_only now (due_at s.heap.entries j)))
            (count + length due)
            (process_due on_due now w s)
  unfolding process_due
  process_due_lem w s count v c l =
      let (due, rest, run, size, x, collected) =
        take_due_lem (length s.heap.slots + 1) now s.heap v (omega arith) in
      let (w', s', ran, world, r, total) =
        run_due_lem due w (λ j. later_only now (due_at s.heap.entries j)) (record s { heap = rest })
          count (x, collected.kept) c (omega arith) in
      (due, rest, collected, (w', s', rw (run, process_due) ran, world, r, total))
