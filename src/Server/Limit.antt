-- ===== src/Server/Limit.antt =====
-- The connection limiter of internal/server/middleware.go. The channel is its number of tokens; a send to
-- a full one and a receive from an empty one block, which is `none`. A connection stands under the number
-- of its acceptance, with whether its release was done.
use mathlib.Core.Option.{some-ne-none, some-injective}
use rateforge.Base.{
  ℕ, zero, suc, ◌+◌, ◌-◌, ◌≤◌, ◌<◌, ◌≡◌, refl, sym, ap, ◌∙◌, subst, Bool, true, false, inl, inr,
  Option, none, some, List, [], ◌∷◌, ◌++◌, arith, if◌then◌else◌, ltb, ◌==◌, length, get_elem?,
  get_or, get_elem?-eq-get_or, set, Bool-cases,
}
use rateforge.Base.Int.{ℤ, pos, pos_part, leb_ℤ, ◌≤ℤ◌, pos_of_nonneg}

pub record Limiter : Type 0 where
  pub max : ℕ
  pub taken : ℕ
  pub waiting : ℕ
  pub conns : List Bool

-- `LimitListener`, where `none` is the listener as it was.
unfoldable pub limit_listener : ℤ → Option Limiter
limit_listener max =
    if leb_ℤ max (pos 0)
    then none
    else some (record { max = pos_part max; taken = 0; waiting = 0; conns = [] })

-- The send that `Accept` begins with.
unfoldable pub acquire : Limiter → Option Limiter
acquire l =
    if ltb l.taken l.max
    then some (record l { taken = l.taken + 1; waiting = l.waiting + 1 })
    else none

unfoldable pub release : Limiter → Option Limiter
release l = if l.taken == 0 then none else some (record l { taken = l.taken - 1 })

-- The rest of `Accept`, with a connection or without one.
unfoldable pub accepted : Limiter → Option Limiter
accepted l = some (record l { waiting = l.waiting - 1; conns = l.conns ++ false ∷ [] })

unfoldable pub failed : Limiter → Option Limiter
failed l = release (record l { waiting = l.waiting - 1 })

-- `Close` of a connection.
unfoldable pub close : ℕ → Limiter → Option Limiter
close i l = elim (get_elem? l.conns i) [
  | none ↦ none
  | some done ↦ if done then some l else release (record l { conns = set l.conns i true })
]

-- What happens at the listener: calls of Accept that begin and end, and calls of Close.
pub data Step : Limiter → Limiter → Type 0 where
  begins : {l m : Limiter} → acquire l ≡ some m → Step l m
  accepts : {l m : Limiter} → 0 < l.waiting → accepted l ≡ some m → Step l m
  fails : {l m : Limiter} → 0 < l.waiting → failed l ≡ some m → Step l m
  closes : {l m : Limiter} (i : ℕ) → i < length l.conns → close i l ≡ some m → Step l m

pub data Reachable (max : ℤ) : Limiter → Type 0 where
  starts : {l : Limiter} → limit_listener max ≡ some l → Reachable max l
  steps : {l m : Limiter} → Reachable max l → Step l m → Reachable max m

-- The connections whose release is still to be done.
abbrev pub open_count : List Bool → ℕ
open_count [] = 0
open_count (done ∷ conns) = if done then open_count conns else open_count conns + 1

-- Each token is one of a connection that is open, or of a call of Accept that has not returned.
pub record IsBalanced (max : ℤ) (l : Limiter) : Type 0 where
  pub cap : pos l.max ≡ max
  pub bound : l.taken ≤ l.max
  pub held : l.taken ≡ l.waiting + open_count l.conns

open_count-push : (conns : List Bool) → open_count (conns ++ false ∷ []) ≡ open_count conns + 1
open_count-push [] = refl
open_count-push (done ∷ conns) = ground (arith, open_count-push conns)

open_count-set :
    (conns : List Bool) (i : ℕ)
    → get_elem? conns i ≡ some false
    → (open_count (set conns i true) + 1 ≡ open_count conns)
      × (get_elem? (set conns i true) i ≡ some true)
open_count-set [] i e = ground arith
open_count-set (done ∷ conns) zero e = ground arith
open_count-set (done ∷ conns) (suc i) e = ground (arith, open_count-set conns i e)

started-IsBalanced : (max : ℤ) (l : Limiter) → limit_listener max ≡ some l → IsBalanced max l
unfolding limit_listener
started-IsBalanced max l e = elim (Bool-cases (leb_ℤ max (pos 0))) [
  | inl off ↦ absurd (some-ne-none l (sym e ∙ rw off refl))
  | inr on ↦
      let fresh : Limiter = record { max = pos_part max; taken = 0; waiting = 0; conns = [] } in
      let same : fresh ≡ l = some-injective fresh l (sym (rw on refl) ∙ e) in
      subst (IsBalanced max) same (record {
        cap = sym (pos_of_nonneg max (ground arith));
        bound = omega arith;
        held = omega arith;
      })
]

-- A token that no connection holds is given back.
release_lem : (l : Limiter) → 0 < l.taken → release l ≡ some (record l { taken = l.taken - 1 })
unfolding release
release_lem l h =
    let some_taken : (l.taken == 0) ≡ false = ground arith in rw (some_taken, release) refl

close_lem :
    (max : ℤ) (l : Limiter) (i : ℕ)
    → IsBalanced max l
    → i < length l.conns
    → (m : Limiter) × (close i l ≡ some m) × IsBalanced max m × (close i m ≡ some m)
unfolding close
close_lem max l i v h =
    let there = get_elem?-eq-get_or l.conns i false h in
    elim (Bool-cases (get_or l.conns i false)) [
      | inl done ↦
          let again : close i l ≡ some l = rw (there, done, close) refl in (l, again, v, again)
      | inr open_one ↦
          let still : get_elem? l.conns i ≡ some false = there ∙ ap (λ b. some b) open_one in
          let (fewer, now_done) = open_count-set l.conns i still in
          let marked = record l { conns = set l.conns i true } in
          let m = record marked { taken = l.taken - 1 } in
          let given = release_lem marked (ground (arith, v.held)) in
          (
            m,
            rw (still, close) given,
            record {
              cap = v.cap;
              bound = omega (arith, v.bound);
              held = omega (arith, v.held, fewer);
            },
            rw (now_done, close) refl,
          )
    ]

Step-IsBalanced : (max : ℤ) (l m : Limiter) → IsBalanced max l → Step l m → IsBalanced max m
unfolding acquire accepted failed
Step-IsBalanced max l m v (begins e) = elim (Bool-cases (ltb l.taken l.max)) [
  | inr full ↦ absurd (some-ne-none m (sym e ∙ rw full refl))
  | inl free ↦
      let next = record l { taken = l.taken + 1; waiting = l.waiting + 1 } in
      subst (IsBalanced max) (some-injective next m (sym (rw free refl) ∙ e))
        (record { cap = v.cap; bound = ground arith; held = omega (arith, v.held) })
]
Step-IsBalanced max l m v (accepts h e) =
    let next = record l { waiting = l.waiting - 1; conns = l.conns ++ false ∷ [] } in
    subst (IsBalanced max) (some-injective next m e) (record {
      cap = v.cap;
      bound = v.bound;
      held = omega (arith, v.held, open_count-push l.conns);
    })
Step-IsBalanced max l m v (fails h e) =
    let left = record l { waiting = l.waiting - 1 } in
    let next = record left { taken = l.taken - 1 } in
    subst (IsBalanced max)
      (some-injective next m (sym (release_lem left (omega (arith, v.held))) ∙ e))
      (record { cap = v.cap; bound = omega (arith, v.bound); held = omega (arith, v.held) })
Step-IsBalanced max l m v (closes i h e) =
    let (next, run, balanced, _) = close_lem max l i v h in
    subst (IsBalanced max) (some-injective next m (sym run ∙ e)) balanced

Reachable-IsBalanced : (max : ℤ) (l : Limiter) → Reachable max l → IsBalanced max l
Reachable-IsBalanced max l (starts e) = started-IsBalanced max l e
Reachable-IsBalanced max l (steps {l = k} r s) =
    Step-IsBalanced max k l (Reachable-IsBalanced max k r) s

-- In every state that a limited listener reaches, by calls of Accept that begin and then end with a
-- connection or without one, and calls of Close on its connections, in any order: the connections
-- that are open and the calls of Accept that hold a slot are together at most the limit; Close of a
-- connection does not block, and a second Close changes nothing.
pub Reachable-close :
    (max : ℤ) (l : Limiter) (i : ℕ)
    → Reachable max l
    → i < length l.conns
    → (pos (l.waiting + open_count l.conns) ≤ℤ max)
      × ((m : Limiter) × (close i l ≡ some m) × (close i m ≡ some m))
Reachable-close max l i r h =
    let v = Reachable-IsBalanced max l r in
    let (m, run, _, again) = close_lem max l i v h in
    (ground (arith, v.cap, v.bound, v.held), (m, run, again))
