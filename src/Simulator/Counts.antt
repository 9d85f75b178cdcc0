-- ===== src/Simulator/Counts.antt =====
-- What a simulated client counts, and how many requests it makes.
use mathlib.Core.List.{append-nil, append_assoc}
use rateforge.Base.{
  ℕ, zero, suc, ◌+◌, ◌^◌, ◌≤◌, ◌<◌, ◌≡◌, refl, ap, sym, ◌∙◌, Bool, true, false, inl, inr, List, [],
  ◌∷◌, ◌++◌, arith, if◌then◌else◌, length, Bool-cases, ◌==◌, not,
}
use rateforge.Base.Int.{ℤ, pos, negsuc, pos_part, ◌≤ℤ◌, add64, add64-pos}
use rateforge.Base.Sort.{tally}
use rateforge.Time.{Time, Duration, before, add_time}
use rateforge.Simulator.{
  ClientResult, Attempt, not_built, failed, answered, do_request, Pass, burst, pause,
  until_deadline,
}

-- The three ways in which a request counts, and whether it was timed.
abbrev pub is_allowed : Attempt → Bool
is_allowed (answered latency status) = status == 200
is_allowed a = false

abbrev pub is_rejected : Attempt → Bool
is_rejected (answered latency status) = not (status == 200)
is_rejected a = false

abbrev pub is_error : Attempt → Bool
is_error (answered latency status) = false
is_error a = true

abbrev pub latencies_of : List Attempt → List Duration
latencies_of [] = []
latencies_of (not_built ∷ made) = latencies_of made
latencies_of (failed latency ∷ made) = latency ∷ latencies_of made
latencies_of (answered latency status ∷ made) = latency ∷ latencies_of made

-- The result after some more requests.
pub record_all : List Attempt → ClientResult → ClientResult
record_all [] res = res
record_all (a ∷ made) res = record_all made (do_request a res)

-- The requests of the first passes.
abbrev pub first : ℕ → List Pass → List Attempt
first zero passes = []
first (suc n) [] = []
first (suc n) (p ∷ passes) = p.attempt ∷ first n passes

pub record_all-append :
    (xs ys : List Attempt) (res : ClientResult)
    → record_all (xs ++ ys) res ≡ record_all ys (record_all xs res)
unfolding record_all
record_all-append [] ys res = refl
record_all-append (x ∷ xs) ys res = record_all-append xs ys (do_request x res)

-- How many requests the burst makes, and whether runClient returns there.
pub burst_made :
    (n : ℕ) (passes : List Pass) (res : ClientResult)
    → (k : ℕ) × (k ≤ n)
      × (k ≤ length passes)
      × ((burst n passes res).1 ≡ record_all (first k passes) res)
unfolding burst record_all
burst_made zero passes res = (0, omega arith, omega arith, refl)
burst_made (suc n) [] res = (0, omega arith, omega arith, refl)
burst_made (suc n) (p ∷ passes) res = elim (Bool-cases p.cancelled) [
  | inl done ↦ (0, omega arith, omega arith, simp done refl)
  | inr on ↦
      let (k, few, there, e) = burst_made n passes (do_request p.attempt res) in
      (suc k, omega arith, omega arith, simp on e)
]

-- How many requests the loop makes.
unfoldable pub rounds : Time → Duration → Duration → Time → List Pass → ℕ
rounds deadline interval jitter now [] = 0
rounds deadline interval jitter now (p ∷ passes) =
    let later = add_time (add_time now p.spent) (pause interval jitter p.draw) in
    let next = suc (rounds deadline interval jitter later passes) in
    if before now deadline then if p.cancelled then 0 else next else 0

pub until_deadline_made :
    (deadline : Time) (interval jitter : Duration) (now : Time) (passes : List Pass)
    (res : ClientResult)
    → until_deadline deadline interval jitter now passes res
      ≡ record_all (first (rounds deadline interval jitter now passes) passes) res
unfolding until_deadline rounds record_all
until_deadline_made deadline interval jitter now [] res = refl
until_deadline_made deadline interval jitter now (p ∷ passes) res =
    let later = add_time (add_time now p.spent) (pause interval jitter p.draw) in
    elim (Bool-cases (before now deadline)) [
      | inr over ↦ simp over refl
      | inl early ↦ elim (Bool-cases p.cancelled) [
        | inl done ↦ simp (early, done) refl
        | inr on ↦
            simp (early, on)
              (until_deadline_made deadline interval jitter later passes (do_request p.attempt res))
      ]
    ]

-- From a result, some more requests were counted.
pub record Counted (res : ClientResult) (made : List Attempt) (res' : ClientResult) : Type 0 where
  pub key : res'.api_key ≡ res.api_key
  pub allowed : res'.allowed ≡ pos (pos_part res.allowed + tally is_allowed made)
  pub rejected : res'.rejected ≡ pos (pos_part res.rejected + tally is_rejected made)
  pub errors : res'.errors ≡ pos (pos_part res.errors + tally is_error made)
  pub latencies : res'.latencies ≡ res.latencies ++ latencies_of made

-- Counters that leave room for so many more.
abbrev pub HasRoom : ℕ → ClientResult → Type 0
HasRoom n res =
    ((pos 0 ≤ℤ res.allowed) × (pos_part res.allowed + n < 2 ^ 63))
    × ((pos 0 ≤ℤ res.rejected) × (pos_part res.rejected + n < 2 ^ 63))
    × ((pos 0 ≤ℤ res.errors) × (pos_part res.errors + n < 2 ^ 63))

add_one : (z : ℤ) → pos 0 ≤ℤ z → pos_part z + 1 < 2 ^ 63 → add64 z (pos 1) ≡ pos (pos_part z + 1)
add_one (pos n) h k = add64-pos n 1 k
add_one (negsuc n) h k = absurd (omega arith)

same : (z : ℤ) → pos 0 ≤ℤ z → z ≡ pos (pos_part z + 0)
same (pos n) h = ap pos (omega arith)
same (negsuc n) h = absurd (omega arith)

do_request-Counted :
    (a : Attempt) (res : ClientResult) → HasRoom 1 res → Counted res (a ∷ []) (do_request a res)
unfolding do_request
do_request-Counted not_built res h = record {
  key = refl;
  allowed = same res.allowed h.0.0;
  rejected = same res.rejected h.1.0;
  errors = add_one res.errors h.2.0 h.2.1;
  latencies = sym (append-nil res.latencies);
}
do_request-Counted (failed latency) res h = record {
  key = refl;
  allowed = same res.allowed h.0.0;
  rejected = same res.rejected h.1.0;
  errors = add_one res.errors h.2.0 h.2.1;
  latencies = refl;
}
do_request-Counted (answered latency status) res h = elim (Bool-cases (status == 200)) [
  | inl yes_it_is ↦ simp yes_it_is (record {
    key = refl;
    allowed = rw yes_it_is (add_one res.allowed h.0.0 h.0.1);
    rejected = rw yes_it_is (same res.rejected h.1.0);
    errors = same res.errors h.2.0;
    latencies = refl;
  })
  | inr other ↦ simp other (record {
    key = refl;
    allowed = rw other (same res.allowed h.0.0);
    rejected = rw other (add_one res.rejected h.1.0 h.1.1);
    errors = same res.errors h.2.0;
    latencies = refl;
  })
]

pub tally_split :
    (p : Attempt → Bool) (n : ℕ) (a : Attempt) (made : List Attempt)
    → pos (n + tally p (a ∷ []) + tally p made) ≡ pos (n + tally p (a ∷ made))
tally_split p n a made = ap pos (ground arith)

latencies_split :
    (a : Attempt) (made : List Attempt)
    → latencies_of (a ∷ []) ++ latencies_of made ≡ latencies_of (a ∷ made)
latencies_split not_built made = refl
latencies_split (failed latency) made = refl
latencies_split (answered latency status) made = refl

tally_one : (p : Attempt → Bool) (a : Attempt) → tally p (a ∷ []) ≤ 1
tally_one p a = ground arith

room :
    (made : List Attempt) (a : Attempt) (res : ClientResult)
    → HasRoom (length (a ∷ made)) res
    → Counted res (a ∷ []) (do_request a res)
    → HasRoom (length made) (do_request a res)
room made a res h c =
    rw (c.allowed, c.rejected, c.errors)
      (omega (arith, h, tally_one is_allowed a, tally_one is_rejected a, tally_one is_error a))

pub record_all-Counted :
    (made : List Attempt) (res : ClientResult)
    → HasRoom (length made) res
    → Counted res made (record_all made res)
unfolding record_all
record_all-Counted [] res h = record {
  key = refl;
  allowed = same res.allowed h.0.0;
  rejected = same res.rejected h.1.0;
  errors = same res.errors h.2.0;
  latencies = sym (append-nil res.latencies);
}
record_all-Counted (a ∷ made) res h =
    let c = do_request-Counted a res (omega (arith, h)) in
    let d = record_all-Counted made (do_request a res) (room made a res h c) in
    record {
      key = d.key ∙ c.key;
      allowed = d.allowed ∙ rw c.allowed (tally_split is_allowed (pos_part res.allowed) a made);
      rejected =
          d.rejected ∙ rw c.rejected (tally_split is_rejected (pos_part res.rejected) a made);
      errors = d.errors ∙ rw c.errors (tally_split is_error (pos_part res.errors) a made);
      latencies =
          d.latencies
          ∙ ap (λ (l : List Duration). l ++ latencies_of made) c.latencies
          ∙ append_assoc res.latencies (latencies_of (a ∷ [])) (latencies_of made)
          ∙ ap (λ (l : List Duration). res.latencies ++ l) (latencies_split a made);
    }

-- A request counts in exactly one way.
pub tally_ways :
    (made : List Attempt)
    → tally is_allowed made + tally is_rejected made + tally is_error made ≡ length made
tally_ways [] = refl
tally_ways (not_built ∷ made) = omega (arith, tally_ways made)
tally_ways (failed latency ∷ made) = omega (arith, tally_ways made)
tally_ways (answered latency status ∷ made) = ground (arith, tally_ways made)
