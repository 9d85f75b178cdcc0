-- ===== src/Simulator/Tests.antt =====
-- The simulator's theorems at concrete values, with hundredths for float64.
use rateforge.Base.{
  ℕ, suc, ◌+◌, ◌*◌, ◌/◌, ◌≤◌, ◌<◌, ◌≡◌, refl, Bool, true, false, some, List, [], ◌∷◌, map, arith,
  Str, codes, if◌then◌else◌,
}
use rateforge.Base.Int.{ℤ, pos, pos_part, leb_ℤ}
use rateforge.Base.Sort.{tally, SameItems, sort_strings}
use rateforge.Time.{Duration}
use rateforge.Float.Sample.{hundredths}
use rateforge.Simulator.{
  ClientProfile, ClientResult, Report, Attempt, not_built, failed, answered, Pass, interval_of,
  run_client, rank, percentile, sort_durations, conclude,
}
use rateforge.Simulator.Pace.{IsFair, Ran, run_client_lem}
use rateforge.Simulator.Rank.{percentile_lem}
use rateforge.Simulator.Arrival.{Reported, conclude_lem}

abbrev times : ℕ → ℕ → ℕ
times a b = a * b / 100

abbrev whole : ℕ → ℤ
whole a = pos (a / 100)

-- One request at once, then two a second for a second.
abbrev profile : ClientProfile ℕ
profile = record {
  api_key = codes "c";
  rps = 200;
  burst_size = pos 1;
  duration = pos 1_000_000_000;
  jitter = pos 0;
}

abbrev pass : Attempt → Pass
pass a = record { cancelled = false; attempt = a; spent = pos 1000; draw = pos 0 }

abbrev fired : List Pass
fired = pass (answered (pos 700) 200) ∷ []

abbrev passes : List Pass
passes = pass (answered (pos 900) 429) ∷ pass (failed (pos 1000)) ∷ pass not_built ∷ []

half_a_second : interval_of times whole profile.rps ≡ pos 500_000_000
unfolding interval_of hundredths
half_a_second = refl

pass-IsFair : (a : Attempt) → IsFair 0 (pass a)
pass-IsFair a = record { spent = omega arith; draw = omega arith }

run_client_lem_example :
    (k : ℕ) × (m : ℕ) × (k ≤ 1)
    × (m * 500_000_000 ≤ 1_500_000_000)
    × Ran (run_client times whole profile fired (pos 0) passes) (codes "c") fired passes k m
run_client_lem_example =
    run_client_lem times whole profile 500_000_000 0 1_000_000_000 0 fired passes half_a_second refl
      refl (omega arith) (omega arith) (pass-IsFair _, (pass-IsFair _, (pass-IsFair _, tt)))
      (omega arith)

abbrev samples : List Duration
samples = pos 30 ∷ pos 10 ∷ pos 20 ∷ []

percentile_lem_example :
    let i = pos_part (rank times whole 3 50) in
    (v : Duration) × (percentile times whole (sort_durations samples) 50 ≡ some v)
    × (i < 3)
    × (suc i ≤ tally (λ z. leb_ℤ z v) samples)
    × (3 ≤ tally (λ z. leb_ℤ v z) samples + i)
percentile_lem_example = percentile_lem times whole samples 50 (omega arith)

abbrev result_of : Str → ClientResult
result_of k = record {
  api_key = k;
  allowed = pos 1;
  rejected = pos 0;
  errors = pos 0;
  latencies = pos 7 ∷ [];
}

abbrev clients : List Str
clients = codes "a" ∷ codes "b" ∷ []

abbrev arrived : List Str
arrived = codes "b" ∷ codes "a" ∷ []

clients-SameItems : SameItems clients arrived
clients-SameItems p = two (p (codes "a")) (p (codes "b"))
  where
    two :
        (a b : Bool)
        → (if a then (if b then 0 + 1 else 0) + 1 else (if b then 0 + 1 else 0))
          ≡ (if b then (if a then 0 + 1 else 0) + 1 else (if a then 0 + 1 else 0))
    two true true = refl
    two true false = refl
    two false true = refl
    two false false = refl

conclude_lem_example :
    (report : Report) × (conclude times whole (map result_of arrived) ≡ some report)
    × (conclude times whole (map result_of clients) ≡ some report)
    × Reported result_of (sort_strings clients) report
conclude_lem_example =
    conclude_lem times whole result_of (λ k. refl) clients arrived clients-SameItems
