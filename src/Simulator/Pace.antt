-- ===== src/Simulator/Pace.antt =====
-- How fast a simulated client sends, and the whole of its run.
use mathlib.Core.List.{append-nil}
use native.Mathlib.Decide.{dec_lt}
use rateforge.Base.{
  ℕ, zero, suc, ◌+◌, ◌-◌, ◌*◌, ◌^◌, ◌≤◌, ◌<◌, ◌≡◌, refl, ap, sym, ◌∙◌, subst, inl, inr, List, [],
  ◌∷◌, ◌++◌, arith, length, length-append, All, Bool-cases, Str,
}
use rateforge.Base.Int.{ℤ, pos, pos_part, ◌≤ℤ◌, add64, sub64, wrap64, ◌+ℤ◌, ◌-ℤ◌, pos_of_nonneg}
use rateforge.Base.Sort.{tally}
use rateforge.Time.{before, add_time}
use rateforge.Float.{Float}
use rateforge.Simulator.{
  ClientProfile, ClientResult, Attempt, Pass, burst, pause, interval_of, run_client,
}
use rateforge.Simulator.Counts.{
  is_allowed, is_rejected, is_error, latencies_of, record_all, first, record_all-append, burst_made,
  rounds, until_deadline_made, record_all-Counted,
}

-- The pause is the interval with the draw for the jitter, cut at 0.
pub pause_pos :
    (i j d : ℕ)
    → i < 2 ^ 61
    → j < 2 ^ 61
    → d ≤ j + j
    → pause (pos i) (pos j) (pos d) ≡ pos (i + d - j)
unfolding pause add64 sub64 wrap64 ◌+ℤ◌ ◌-ℤ◌
pause_pos i j d hi hj hd = ground arith

-- A pass that does not turn the clock back, with a draw from the generator's range.
pub record IsFair (j : ℕ) (p : Pass) : Type 0 where
  pub spent : pos 0 ≤ℤ p.spent
  pub draw : (pos 0 ≤ℤ p.draw) × (p.draw ≤ℤ pos (j + j))

module _ (i j : ℕ) (hi : i < 2 ^ 61) (hj : j < 2 ^ 61) where
  later_pos :
      (t : ℕ) (p : Pass)
      → IsFair j p
      → add_time (add_time (pos t) p.spent) (pause (pos i) (pos j) p.draw)
        ≡ pos (t + pos_part p.spent + (i + pos_part p.draw - j))
  unfolding ◌+ℤ◌
  later_pos t p f =
      let es = pos_of_nonneg p.spent f.spent in
      let ed = pos_of_nonneg p.draw f.draw.0 in
      rw (es, ed, pause_pos i j (pos_part p.draw) hi hj (ground (arith, f.draw))) (ground arith)

  rounds_over :
      (deadline t : ℕ) (passes : List Pass)
      → deadline ≤ t
      → rounds (pos deadline) (pos i) (pos j) (pos t) passes ≡ 0
  unfolding rounds
  rounds_over deadline t [] h = refl
  rounds_over deadline t (p ∷ passes) h = ground arith

  -- The loop makes no more requests than the time allows, with the shortest pause after each.
  pub rounds_paced :
      (deadline t : ℕ) (passes : List Pass)
      → All (IsFair j) passes
      → rounds (pos deadline) (pos i) (pos j) (pos t) passes * (i - j) ≤ deadline - t + (i - j)
  unfolding rounds
  rounds_paced deadline t [] f = omega arith
  rounds_paced deadline t (p ∷ passes) f =
      let t' = t + pos_part p.spent + (i + pos_part p.draw - j) in
      let next = rounds (pos deadline) (pos i) (pos j) (pos t') passes in
      elim (Bool-cases (before (pos t) (pos deadline))) [
        | inr over ↦ simp over (omega arith)
        | inl early ↦ elim (Bool-cases p.cancelled) [
          | inl done ↦ simp (early, done) (omega arith)
          | inr on ↦
              simp (early, on, later_pos t p f.0)
                (elim (dec_lt t' deadline) [
                  | yes more ↦ omega (arith, rounds_paced deadline t' passes f.1)
                  | no end ↦ rw (rounds_over deadline t' passes (omega arith)) (omega arith)
                ])
        ]
      ]

length-first : (k : ℕ) (passes : List Pass) → length (first k passes) ≤ length passes
length-first zero passes = omega arith
length-first (suc k) [] = omega arith
length-first (suc k) (p ∷ passes) = omega (arith, length-first k passes)

length-first_few : (k : ℕ) (passes : List Pass) → length (first k passes) ≤ k
length-first_few zero passes = omega arith
length-first_few (suc k) [] = omega arith
length-first_few (suc k) (p ∷ passes) = omega (arith, length-first_few k passes)

-- The requests of a run: those of the burst, and those of the loop.
pub record Ran (res : ClientResult) (client : Str) (fired passes : List Pass) (k m : ℕ)
    : Type 0 where
  pub key : res.api_key ≡ client
  pub allowed : res.allowed ≡ pos (tally is_allowed (first k fired ++ first m passes))
  pub rejected : res.rejected ≡ pos (tally is_rejected (first k fired ++ first m passes))
  pub errors : res.errors ≡ pos (tally is_error (first k fired ++ first m passes))
  pub latencies : res.latencies ≡ latencies_of (first k fired ++ first m passes)

deadline_pos : (t d : ℕ) → pos t +ℤ pos d ≡ pos (t + d)
unfolding ◌+ℤ◌
deadline_pos t d = ground arith

module _ {F : Type 0} ⦃float : Float F⦄ (mul_f : F → F → F) (to_int : F → ℤ)
    (profile : ClientProfile F) where
  abbrev idle : ClientResult
  idle = record {
    api_key = profile.api_key;
    allowed = pos 0;
    rejected = pos 0;
    errors = pos 0;
    latencies = [];
  }

  ran :
      (fired passes : List Pass) (k m : ℕ)
      → length fired + length passes < 2 ^ 63
      → Ran (record_all (first k fired ++ first m passes) idle) profile.api_key fired passes k m
  ran fired passes k m h =
      let made = first k fired ++ first m passes in
      let few : length made < 2 ^ 63 = omega (
        arith,
        length-append (first k fired) (first m passes),
        length-first k fired,
        length-first m passes,
      ) in
      let c = record_all-Counted made idle (omega arith) in
      record {
        key = c.key;
        allowed = c.allowed ∙ ap pos (omega arith);
        rejected = c.rejected ∙ ap pos (omega arith);
        errors = c.errors ∙ ap pos (omega arith);
        latencies = c.latencies;
      }

  -- For a simulated client with a jitter, a duration and an interval that are not negative, the
  -- jitter and the interval below 2^61, and passes of the loop that do not turn the clock back and
  -- draw what the generator may give: the result counts exactly the requests of a first part of the
  -- burst and of a first part of the loop, by their outcome, fewer than 2^63 of them; the burst has
  -- at most BurstSize requests, and those of the loop but one, at the interval less the jitter
  -- each, take no longer than the duration.
  pub run_client_lem :
      (i j d t : ℕ) (fired passes : List Pass)
      → interval_of mul_f to_int profile.rps ≡ pos i
      → profile.jitter ≡ pos j
      → profile.duration ≡ pos d
      → i < 2 ^ 61
      → j < 2 ^ 61
      → All (IsFair j) passes
      → length fired + length passes < 2 ^ 63
      → (k : ℕ) × (m : ℕ) × (k ≤ pos_part profile.burst_size)
        × (m * (i - j) ≤ d + (i - j))
        × Ran
            (run_client mul_f to_int profile fired (pos t) passes)
            profile.api_key
            fired
            passes
            k
            m
  unfolding run_client
  run_client_lem i j d t fired passes ei ej ed hi hj fair h =
      let n = pos_part profile.burst_size in
      let (k, few, there, made) = burst_made n fired idle in
      elim (Bool-cases (burst n fired idle).0) [
        | inl back ↦ (
          k,
          0,
          few,
          omega arith,
          simp (back, made)
              (subst
                (λ (x : List Attempt). Ran (record_all x idle) profile.api_key fired passes k 0)
                (append-nil (first k fired)) (ran fired passes k 0 h)),
        )
        | inr on ↦
            let m = rounds (pos (t + d)) (pos i) (pos j) (pos t) passes in
            let before_loop = record_all (first k fired) idle in
            (
              k,
              m,
              few,
              omega (arith, rounds_paced i j hi hj (t + d) t passes fair),
              simp (on, made, ei, ej, ed, deadline_pos t d)
                  (subst (λ (x : ClientResult). Ran x profile.api_key fired passes k m)
                    (record_all-append (first k fired) (first m passes) idle
                      ∙ sym (
                          until_deadline_made (pos (t + d)) (pos i) (pos j) (pos t) passes
                            before_loop))
                    (ran fired passes k m h)),
            )
      ]
