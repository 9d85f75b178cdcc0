-- ===== src/Scheduler/Loop.antt =====
-- Run of internal/scheduler/scheduler.go among the calls of Schedule and Remove by other goroutines.
-- A turn of its loop sets the timer to what nextWait returns, and then waits for the first of three: the
-- context, the timer, the wakeup channel. processDue is one step, and so is each call of Schedule, with
-- its signal, and of Remove; `none` is a panic, or a receive that blocks.
use mathlib.Core.Option.{some-ne-none, some-injective}
use rateforge.Base.{
  ℕ, ◌+◌, ◌^◌, ◌<◌, ◌≡◌, refl, ap, sym, ◌∙◌, subst, Bool, true, false, ◌⊎◌, inl, inr, Option, none,
  some, arith, if◌then◌else◌, Str, str_eq, length, Bool-cases,
}
use rateforge.Base.Int.{pos, ◌≤ℤ◌}
use rateforge.Time.{Time, Duration}
use rateforge.Scheduler.{RefillHeap, Scheduler, new, schedule, remove, next_wait, process_due}
use rateforge.Scheduler.Linked.{due_at}
use rateforge.Scheduler.Valid.{IsValid}
use rateforge.Scheduler.Change.{schedule-IsValid, remove-IsValid}
use rateforge.Scheduler.Collected.{wait_until}
use rateforge.Scheduler.Due.{next_wait_lem}
use rateforge.Scheduler.Callback.{process_due_lem}
use rateforge.Scheduler.Attach.{new-IsValid}

-- Where Run stands: before nextWait, or at its select, with the reading of the clock by which the timer
-- was set and the time it was set to, or returned.
pub data Phase : Type 0 where
  planning : Phase
  waiting : Time → Duration → Phase
  stopped : Phase

pub record Loop {ℓ} (W : Type ℓ) : Type ℓ where
  pub sched : Scheduler
  pub world : W
  pub phase : Phase

module _ {ℓ} {W : Type ℓ} where
  -- nextWait and the timer.
  unfoldable pub plan : Time → Loop W → Option (Loop W)
  plan now l = elim (next_wait now l.sched) [
    | none ↦ none
    | some wait ↦ some (record l { phase = waiting now wait })
  ]

  -- The timer's case of the select.
  unfoldable pub fire : (Str → Time → W → Option Time × W) → Time → Loop W → Option (Loop W)
  fire on_due now l = elim (process_due on_due now l.world l.sched) [
    | none ↦ none
    | some (w, s) ↦ some (record { sched = s; world = w; phase = planning })
  ]

  -- The wakeup's case, which takes the token off the channel.
  unfoldable pub wake : Loop W → Option (Loop W)
  wake l =
      if l.sched.wakeup
      then some (record l { sched = record (l.sched) { wakeup = false }; phase = planning })
      else none

-- What can happen, with the callback `on_due`.
pub data Step {ℓ} {W : Type ℓ} (on_due : Str → Time → W → Option Time × W) (l : Loop W)
    : Loop W → Type ℓ where
  plans : (now : Time) {m : Loop W} → l.phase ≡ planning → plan now l ≡ some m → Step on_due l m
  fires :
      (now at : Time) (wait : Duration) (count : ℕ) {m : Loop W}
      → l.phase ≡ waiting at wait
      → l.sched.refills_total ≡ pos count
      → count + length l.sched.heap.slots < 2 ^ 63
      → fire on_due now l ≡ some m
      → Step on_due l m
  wakes :
      (at : Time) (wait : Duration) {m : Loop W}
      → l.phase ≡ waiting at wait
      → wake l ≡ some m
      → Step on_due l m
  cancels :
      (at : Time) (wait : Duration)
      → l.phase ≡ waiting at wait
      → Step on_due l (record l { phase = stopped })
  schedules :
      (id : Str) (t : Time) {s : Scheduler}
      → schedule id t l.sched ≡ some s
      → Step on_due l (record l { sched = s })
  removes :
      (id : Str) {s : Scheduler}
      → remove id l.sched ≡ some s
      → Step on_due l (record l { sched = s })

pub data Reach {ℓ} {W : Type ℓ} (on_due : Str → Time → W → Option Time × W) (w : W)
    : Loop W → Type ℓ where
  start : Reach on_due w (record { sched = new; world = w; phase = planning })
  later : {l m : Loop W} → Reach on_due w l → Step on_due l m → Reach on_due w m

-- Where Run waits, its timer was set to no more than the time until `t`. Otherwise it is to call
-- nextWait before it waits, or has returned.
abbrev pub InTime : Phase → Time → Type 0
InTime planning t = Unit
InTime (waiting now wait) t = wait ≤ℤ wait_until now t
InTime stopped t = Unit

-- Run is to be woken, or its timer is set for the first of the pending times.
abbrev pub IsPrompt : Scheduler → Phase → Type 0
IsPrompt s p =
    (s.wakeup ≡ true) ⊎ ((id : Str) (t : Time) → due_at s.heap.entries id ≡ some t → InTime p t)

signalled :
    (o : Option RefillHeap) (s s' : Scheduler)
    → (elim o as (λ _. Option Scheduler) [
      | none ↦ none
      | some h ↦ some (record s { heap = h; wakeup = true })
    ])
      ≡ some s'
    → s'.wakeup ≡ true
signalled none s s' e = cc
signalled (some h) s s' e = ap (λ (x : Scheduler). x.wakeup) (sym (some-injective _ s' e))

schedule-wakeup :
    (id : Str) (t : Time) (s s' : Scheduler) → schedule id t s ≡ some s' → s'.wakeup ≡ true
unfolding schedule
schedule-wakeup id t s s' e = signalled _ s s' e

remove-wakeup : (id : Str) (s s' : Scheduler) → remove id s ≡ some s' → s'.wakeup ≡ s.wakeup
unfolding remove
remove-wakeup id s s' e = ground arith

-- A removal leaves no pending time that was not there.
remove-IsPrompt :
    (id : Str) (s s' : Scheduler) (p : Phase)
    → IsValid s.heap
    → remove id s ≡ some s'
    → IsPrompt s p
    → IsPrompt s' p
remove-IsPrompt id s s' p v e (inl woken) = inl (remove-wakeup id s s' e ∙ woken)
remove-IsPrompt id s s' p v e (inr prompt) =
    let (s1, run, _, u) = remove-IsValid id s v in
    let same = some-injective s1 s' (sym run ∙ e) in
    inr (λ j t there. prompt j t (
      still (str_eq id j) (due_at s.heap.entries j) t
        (sym (u j) ∙ ap (λ (x : Scheduler). due_at x.heap.entries j) same ∙ there)))
  where
    still :
        (gone : Bool) (o : Option Time) (t : Time)
        → (if gone then none else o) ≡ some t
        → o ≡ some t
    still true o t f = cc
    still false o t f = f

-- What holds of Run and its scheduler at every moment.
pub record IsAwake {ℓ} {W : Type ℓ} (l : Loop W) : Type ℓ where
  pub valid : IsValid l.sched.heap
  pub prompt : IsPrompt l.sched l.phase

module _ {ℓ} {W : Type ℓ} (on_due : Str → Time → W → Option Time × W) where
  plan-IsAwake : (now : Time) (l m : Loop W) → plan now l ≡ some m → IsAwake l → IsAwake m
  unfolding plan
  plan-IsAwake now l m e a =
      let (w, run, soon, _) = next_wait_lem now l.sched a.valid in
      let made : plan now l ≡ some (record l { phase = waiting now w }) = rw (run, plan) refl in
      subst IsAwake (some-injective _ m (sym made ∙ e))
        (record { valid = a.valid; prompt = inr soon })

  fire-IsAwake :
      (now : Time) (l m : Loop W) (count : ℕ)
      → l.sched.refills_total ≡ pos count
      → count + length l.sched.heap.slots < 2 ^ 63
      → fire on_due now l ≡ some m
      → IsAwake l
      → IsAwake m
  unfolding fire
  fire-IsAwake now l m count c few e a =
      let (due, rest, _, ran) = process_due_lem on_due now l.world l.sched count a.valid c few in
      let (w, s, run, _, r, _) = ran in
      let made : fire on_due now l ≡ some (record { sched = s; world = w; phase = planning }) =
        rw (run, fire) refl in
      subst IsAwake (some-injective _ m (sym made ∙ e))
        (record { valid = r.0; prompt = inr (λ id t there. tt) })

  wake-IsAwake : (l m : Loop W) → wake l ≡ some m → IsAwake l → IsAwake m
  unfolding wake
  wake-IsAwake l m e a = elim (Bool-cases l.sched.wakeup) [
    | inr quiet ↦ absurd (some-ne-none m (sym e ∙ simp quiet refl))
    | inl woken ↦
        let next : Loop W = record l {
          sched = record (l.sched) { wakeup = false };
          phase = planning;
        } in
        let made : wake l ≡ some next = simp woken refl in
        subst IsAwake (some-injective next m (sym made ∙ e))
          (record { valid = a.valid; prompt = inr (λ id t there. tt) })
  ]

  Step-IsAwake : {l m : Loop W} → Step on_due l m → IsAwake l → IsAwake m
  Step-IsAwake {l} {m} (plans now p e) a = plan-IsAwake now l m e a
  Step-IsAwake {l} {m} (fires now at wait count p c few e) a = fire-IsAwake now l m count c few e a
  Step-IsAwake {l} {m} (wakes at wait p e) a = wake-IsAwake l m e a
  Step-IsAwake (cancels at wait p) a = record { valid = a.valid; prompt = inr (λ id t there. tt) }
  Step-IsAwake {l} (schedules id t {s} e) a =
      let (s1, run, v, _, _) = schedule-IsValid id t l.sched a.valid in
      let same = some-injective s1 s (sym run ∙ e) in
      record {
        valid = subst (λ (x : Scheduler). IsValid x.heap) same v;
        prompt = inl (schedule-wakeup id t l.sched s e);
      }
  Step-IsAwake {l} (removes id {s} e) a =
      let (s1, run, v, _) = remove-IsValid id l.sched a.valid in
      let same = some-injective s1 s (sym run ∙ e) in
      record {
        valid = subst (λ (x : Scheduler). IsValid x.heap) same v;
        prompt = remove-IsPrompt id l.sched s l.phase a.valid e a.prompt;
      }

  Reach-IsAwake : {w : W} {l : Loop W} → Reach on_due w l → IsAwake l
  Reach-IsAwake start = record { valid = new-IsValid; prompt = inr (λ id t there. tt) }
  Reach-IsAwake (later r st) = Step-IsAwake st (Reach-IsAwake r)

  -- At every moment of Run on a new scheduler, with any callback, and with calls of Schedule and
  -- Remove between its steps, while fewer than 2^63 callbacks are counted, and whether or not
  -- anything is pending: the slice is a heap by time and linked with its objects both ways; and
  -- where Run waits at its select, a wakeup is ready to be taken, or the timer was set, for every
  -- pending time, to no more than the time until then.
  pub Reach-prompt :
      {w : W} {l : Loop W}
      → Reach on_due w l
      → IsValid l.sched.heap
        × ((l.sched.wakeup ≡ true)
            ⊎ ((id : Str) (t : Time) → due_at l.sched.heap.entries id ≡ some t → InTime l.phase t))
  Reach-prompt r = let a = Reach-IsAwake r in (a.valid, a.prompt)
