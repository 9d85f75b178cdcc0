-- ===== src/Simulator.antt =====
-- cmd/simulator/main.go: what a simulated client counts, and the report over all clients.
-- A request is its outcome, which the environment supplies with the clock readings and the random draws;
-- HTTP, flags, goroutines and the printed layout are left out. A float64 is an element of a type `F` with
-- its operations; its product and its conversion to an int64 are parameters.
pub mod Counts
pub mod Pace
pub mod Rank
pub mod Arrival
mod Tests
use rateforge.Base.{
  ℕ, zero, suc, ◌-◌, Bool, true, false, Option, none, some, List, [], ◌∷◌, ◌++◌, if◌then◌else◌, Str,
  codes, length, get_elem?, map, ◌==◌, ◌>>=◌,
}
use rateforge.Base.Int.{ℤ, pos, pos_part, add64, sub64, mul64, ltb_ℤ, leb_ℤ}
use rateforge.Base.Decimal.{decimal}
use rateforge.Base.Sort.{sort, str_le}
use rateforge.Time.{Time, Duration, second, before, add_time}
use rateforge.Float.{Float, zero_f}

pub record ClientProfile (F : Type 0) : Type 0 where
  pub api_key : Str
  pub rps : F
  pub burst_size : ℤ
  pub duration : Duration
  pub jitter : Duration

-- `clientResult`
pub record ClientResult : Type 0 where
  pub api_key : Str
  pub allowed : ℤ
  pub rejected : ℤ
  pub errors : ℤ
  pub latencies : List Duration

-- How a request goes: it cannot be built, it fails after a time, or it is answered after a time.
pub data Attempt : Type 0 where
  not_built : Attempt
  failed : Duration → Attempt
  answered : Duration → ℕ → Attempt

-- `doRequest`
unfoldable pub do_request : Attempt → ClientResult → ClientResult
do_request not_built res = record res { errors = add64 res.errors (pos 1) }
do_request (failed latency) res = record res {
  errors = add64 res.errors (pos 1);
  latencies = res.latencies ++ latency ∷ [];
}
do_request (answered latency status) res =
    let timed = record res { latencies = res.latencies ++ latency ∷ [] } in
    if status == 200
    then record timed { allowed = add64 res.allowed (pos 1) }
    else record timed { rejected = add64 res.rejected (pos 1) }

-- A pass of a loop: whether the context is done, the request, how long the pass takes besides its pause,
-- and what the random generator gives below 2 * jitter + 1.
pub record Pass : Type 0 where
  pub cancelled : Bool
  pub attempt : Attempt
  pub spent : Duration
  pub draw : ℤ

-- The burst, with the number of requests left to fire: whether runClient returns there, and the result.
-- Where the history of the passes stops, the run does.
unfoldable pub burst : ℕ → List Pass → ClientResult → Bool × ClientResult
burst zero passes res = (false, res)
burst (suc n) [] res = (true, res)
burst (suc n) (p ∷ passes) res =
    let next = burst n passes (do_request p.attempt res) in
    if p.cancelled then (true, res) else next

-- The pause after a request.
unfoldable pub pause : Duration → Duration → ℤ → Duration
pause interval jitter draw =
    let sleep = add64 interval (sub64 draw jitter) in
    if ltb_ℤ (pos 0) jitter then if ltb_ℤ sleep (pos 0) then pos 0 else sleep else interval

-- The loop until the deadline, from a reading of the clock.
unfoldable pub until_deadline :
    Time → Duration → Duration → Time → List Pass → ClientResult → ClientResult
until_deadline deadline interval jitter now [] res = res
until_deadline deadline interval jitter now (p ∷ passes) res =
    let later = add_time (add_time now p.spent) (pause interval jitter p.draw) in
    let next = until_deadline deadline interval jitter later passes (do_request p.attempt res) in
    if before now deadline then if p.cancelled then res else next else res

-- A line of the report, and its end with the exit code.
pub record Row : Type 0 where
  pub key : Str
  pub allowed : ℤ
  pub rejected : ℤ
  pub errors : ℤ
  pub p50 : Duration
  pub p99 : Duration

pub record Report : Type 0 where
  pub rows : List Row
  pub total_allowed : ℤ
  pub total_rejected : ℤ
  pub total_errors : ℤ
  pub total : ℤ
  pub p50 : Duration
  pub p99 : Duration
  pub exit_code : ℕ

abbrev pub blank : Report
blank = record {
  rows = [];
  total_allowed = pos 0;
  total_rejected = pos 0;
  total_errors = pos 0;
  total = pos 0;
  p50 = pos 0;
  p99 = pos 0;
  exit_code = 0;
}

unfoldable pub sort_durations : List Duration → List Duration
sort_durations = sort leb_ℤ

unfoldable pub sort_results : List ClientResult → List ClientResult
sort_results = sort (λ a b. str_le a.api_key b.api_key)

module _ {F : Type 0} ⦃float : Float F⦄ (mul_f : F → F → F) (to_int : F → ℤ) where
  -- The interval between requests.
  unfoldable pub interval_of : F → Duration
  interval_of rps =
      if float.lt_f zero_f rps then to_int (float.div_f (float.of_int second) rps) else second

  -- `runClient`: the result that it sends, for the passes of its two loops and the time between them.
  unfoldable pub run_client : ClientProfile F → List Pass → Time → List Pass → ClientResult
  run_client profile fired start passes =
      let res : ClientResult = record {
        api_key = profile.api_key;
        allowed = pos 0;
        rejected = pos 0;
        errors = pos 0;
        latencies = [];
      } in
      let (returned, after) = burst (pos_part profile.burst_size) fired res in
      if returned
      then after
      else until_deadline (add_time start profile.duration) (interval_of profile.rps) profile.jitter
          start passes after

  -- The index that `percentile` reads, of `n` sorted values.
  unfoldable pub rank : ℕ → F → ℤ
  rank n p =
      let idx = to_int (mul_f p (float.of_int (pos (n - 1)))) in
      let raised = if ltb_ℤ idx (pos 0) then pos 0 else idx in
      if leb_ℤ (pos n) raised then pos (n - 1) else raised

  -- `percentile`, where `none` is a panic for the index.
  unfoldable pub percentile : List Duration → F → Option Duration
  percentile sorted p =
      if length sorted == 0
      then some (pos 0)
      else get_elem? sorted (pos_part (rank (length sorted) p))

  -- A line of the report.
  unfoldable pub row_of : ClientResult → Option Row
  row_of r = do
    p50 ← percentile (sort_durations r.latencies) (float.decimal 50 2)
    p99 ← percentile (sort_durations r.latencies) (float.decimal 99 2)
    some (record {
      key = r.api_key;
      allowed = r.allowed;
      rejected = r.rejected;
      errors = r.errors;
      p50 = p50;
      p99 = p99;
    })

  -- The loop of printReport: the lines, the totals, and all latencies.
  unfoldable pub add_rows :
      List ClientResult → Report × List Duration → Option (Report × List Duration)
  add_rows [] state = some state
  add_rows (r ∷ results) (report, all) = do
    row ← row_of r
    add_rows results (
      record report {
        rows = report.rows ++ row ∷ [];
        total_allowed = add64 report.total_allowed r.allowed;
        total_rejected = add64 report.total_rejected r.rejected;
        total_errors = add64 report.total_errors r.errors;
      },
      all ++ r.latencies,
    )

  -- `printReport`, where `none` is a panic.
  unfoldable pub print_report : List ClientResult → Option Report
  print_report results = do
    (report, all) ← add_rows results (blank, [])
    p50 ← percentile (sort_durations all) (float.decimal 50 2)
    p99 ← percentile (sort_durations all) (float.decimal 99 2)
    some (record report {
      total = add64 (add64 report.total_allowed report.total_rejected) report.total_errors;
      p50 = p50;
      p99 = p99;
      exit_code = if ltb_ℤ (pos 0) report.total_errors then 1 else 0;
    })

  -- The end of main: the results in the order in which the clients sent them.
  unfoldable pub conclude : List ClientResult → Option Report
  conclude arrived = print_report (sort_results arrived)
