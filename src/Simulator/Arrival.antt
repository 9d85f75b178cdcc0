-- ===== src/Simulator/Arrival.antt =====
-- The report does not depend on the order in which the simulated clients end.
use mathlib.Core.List.{append-nil, append_assoc}
use rateforge.Base.{
  ℕ, ◌≡◌, refl, ap, ap₂, sym, ◌∙◌, inl, inr, some, List, [], ◌∷◌, ◌++◌, map, arith, Str, length,
  get_or, get_elem?-eq-get_or, if◌then◌else◌, ◌==◌, Bool-cases, ◌↔◌,
}
use rateforge.Base.Int.{ℤ, pos, pos_part, ltb_ℤ, add64, ◌<ℤ◌, ◌≤ℤ◌}
use rateforge.Base.Sort.{SameItems, str_le, sort_strings, sort_strings_unique, sort-map}
use rateforge.Time.{Duration}
use rateforge.Float.{Float}
use rateforge.Simulator.{
  ClientResult, Row, Report, rank, percentile, sort_durations, row_of, add_rows, blank,
  print_report, sort_results, conclude,
}
use rateforge.Simulator.Rank.{rank-lt}

-- A client's line, but for its percentiles.
abbrev pub Line : Type 0
Line = Str × ℤ × ℤ × ℤ

abbrev pub line_of : Row → Line
line_of row = (row.key, row.allowed, row.rejected, row.errors)

abbrev pub lines_of : List Row → List Line
lines_of = map line_of

abbrev line_of_result : ClientResult → Line
line_of_result r = (r.api_key, r.allowed, r.rejected, r.errors)

abbrev pub line_for : (Str → ClientResult) → Str → Line
line_for f k = (k, (f k).allowed, (f k).rejected, (f k).errors)

-- A sum in 64 bits, from a start.
abbrev pub sum_from : ℤ → List ℤ → ℤ
sum_from start [] = start
sum_from start (x ∷ xs) = sum_from (add64 start x) xs

lines_of-push :
    (rows : List Row) (row : Row) → lines_of (rows ++ row ∷ []) ≡ lines_of rows ++ line_of row ∷ []
lines_of-push [] row = refl
lines_of-push (x ∷ rows) row = ap (λ ls. line_of x ∷ ls) (lines_of-push rows row)

-- What some clients' results add to a report.
record Added (f : Str → ClientResult) (clients : List Str) (report report' : Report) : Type 0 where
  lines : lines_of report'.rows ≡ lines_of report.rows ++ map (line_for f) clients
  allowed : report'.total_allowed ≡ sum_from report.total_allowed (map (λ k. (f k).allowed) clients)
  rejected :
      report'.total_rejected ≡ sum_from report.total_rejected (map (λ k. (f k).rejected) clients)
  errors : report'.total_errors ≡ sum_from report.total_errors (map (λ k. (f k).errors) clients)

-- What main reports of clients: a line for each with what its result counts, the sums of these,
-- and exit code 1 exactly if the sum of the errors is positive.
abbrev pub Reported : (Str → ClientResult) → List Str → Report → Type 0
Reported f clients report =
    let allowed = sum_from (pos 0) (map (λ k. (f k).allowed) clients) in
    let rejected = sum_from (pos 0) (map (λ k. (f k).rejected) clients) in
    let errors = sum_from (pos 0) (map (λ k. (f k).errors) clients) in
    (lines_of report.rows ≡ map (line_for f) clients)
    × (report.total_allowed ≡ allowed)
    × (report.total_rejected ≡ rejected)
    × (report.total_errors ≡ errors)
    × (report.total ≡ add64 (add64 allowed rejected) errors)
    × ((report.exit_code ≡ 1) ↔ (pos 0 <ℤ errors))
    × ((report.exit_code ≡ 0) ↔ (errors ≤ℤ pos 0))

abbrev exit_for : ℤ → ℕ
exit_for errors = if ltb_ℤ (pos 0) errors then 1 else 0

failing : (n : ℤ) → (exit_for n ≡ 1) ↔ (pos 0 <ℤ n)
failing n = ground arith

passing : (n : ℤ) → (exit_for n ≡ 0) ↔ (n ≤ℤ pos 0)
passing n = ground arith

module _ {F : Type 0} ⦃float : Float F⦄ (mul_f : F → F → F) (to_int : F → ℤ) where
  percentile-some :
      (sorted : List Duration) (p : F)
      → (v : Duration) × (percentile mul_f to_int sorted p ≡ some v)
  unfolding percentile
  percentile-some sorted p = elim (Bool-cases (length sorted == 0)) [
    | inl nothing ↦ (pos 0, simp nothing refl)
    | inr there ↦
        let i = pos_part (rank mul_f to_int (length sorted) p) in
        let lt = rank-lt mul_f to_int (length sorted) p (ground arith) in
        (get_or sorted i (pos 0), simp there (get_elem?-eq-get_or sorted i (pos 0) lt))
  ]

  row_of-some :
      (r : ClientResult)
      → (row : Row) × (row_of mul_f to_int r ≡ some row) × (line_of row ≡ line_of_result r)
  unfolding row_of
  row_of-some r =
      let (p50, e) = percentile-some (sort_durations r.latencies) (float.decimal 50 2) in
      let (p99, f) = percentile-some (sort_durations r.latencies) (float.decimal 99 2) in
      (
        record {
          key = r.api_key;
          allowed = r.allowed;
          rejected = r.rejected;
          errors = r.errors;
          p50 = p50;
          p99 = p99;
        },
        rw (e, f) refl,
        refl,
      )

  add_rows-some :
      (f : Str → ClientResult)
      → ((k : Str) → (f k).api_key ≡ k)
      → (clients : List Str) (report : Report) (all : List Duration)
      → (report' : Report) × (all' : List Duration) × (add_rows mul_f to_int
            (map f clients)
            (report, all)
          ≡ some (report', all'))
        × Added f clients report report'
  unfolding add_rows
  add_rows-some f named [] report all = (
    report,
    all,
    refl,
    record {
      lines = sym (append-nil (lines_of report.rows));
      allowed = refl;
      rejected = refl;
      errors = refl;
    },
  )
  add_rows-some f named (k ∷ clients) report all =
      let r = f k in
      let (row, made, its_line) = row_of-some r in
      let next = record report {
        rows = report.rows ++ row ∷ [];
        total_allowed = add64 report.total_allowed r.allowed;
        total_rejected = add64 report.total_rejected r.rejected;
        total_errors = add64 report.total_errors r.errors;
      } in
      let (report', all', run, a) = add_rows-some f named clients next (all ++ r.latencies) in
      let same_line : line_of_result r ≡ line_for f k =
        λ i. (named k i, r.allowed, r.rejected, r.errors) in
      let line = its_line ∙ same_line in
      (
        report',
        all',
        rw made run,
        record {
          lines =
              a.lines
              ∙ ap (λ ls. ls ++ map (line_for f) clients) (lines_of-push report.rows row)
              ∙ append_assoc (lines_of report.rows) (_ ∷ []) (map (line_for f) clients)
              ∙ ap (λ x. lines_of report.rows ++ x ∷ map (line_for f) clients) line;
          allowed = a.allowed;
          rejected = a.rejected;
          errors = a.errors;
        },
      )

  print_report-some :
      (f : Str → ClientResult)
      → ((k : Str) → (f k).api_key ≡ k)
      → (clients : List Str)
      → (report : Report) × (print_report mul_f to_int (map f clients) ≡ some report)
        × Reported f clients report
  unfolding print_report
  print_report-some f named clients =
      let (report, all, run, a) = add_rows-some f named clients blank [] in
      let (p50, e) = percentile-some (sort_durations all) (float.decimal 50 2) in
      let (p99, g) = percentile-some (sort_durations all) (float.decimal 99 2) in
      (
        record report {
          total = add64 (add64 report.total_allowed report.total_rejected) report.total_errors;
          p50 = p50;
          p99 = p99;
          exit_code = if ltb_ℤ (pos 0) report.total_errors then 1 else 0;
        },
        rw (run, e, g) refl,
        (
          a.lines,
          a.allowed,
          a.rejected,
          a.errors,
          rw (a.allowed, a.rejected, a.errors) refl,
          rw a.errors (failing _),
          rw a.errors (passing _),
        ),
      )

  -- Where each client has one result, of its name, main reports the same for any two orders in
  -- which the same clients end, without a panic: a line for each client with what its result
  -- counts, in the order of the names; as totals the sums of these counts, in 64 bits; and exit
  -- code 1 exactly if the sum of the clients' errors is positive, and else 0.
  pub conclude_lem :
      (f : Str → ClientResult)
      → ((k : Str) → (f k).api_key ≡ k)
      → (clients arrived : List Str) → SameItems clients arrived
      → (report : Report) × (conclude mul_f to_int (map f arrived) ≡ some report)
        × (conclude mul_f to_int (map f clients) ≡ some report)
        × Reported f (sort_strings clients) report
  unfolding conclude sort_results
  conclude_lem f named clients arrived same =
      let by_name = λ (a b : ClientResult). str_le a.api_key b.api_key in
      let keeps = λ (a b : Str). ap₂ str_le (named a) (named b) in
      let sorted = sort-map str_le by_name f keeps in
      let (report, run, told) = print_report-some f named (sort_strings clients) in
      (
        report,
        rw (sorted arrived, ← sort_strings_unique clients arrived same) run,
        rw (sorted clients) run,
        told,
      )
