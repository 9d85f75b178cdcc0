-- ===== src/Metrics.antt =====
-- internal/metrics/metrics.go: counters by label, gauges, and the latency histogram.
-- A float64 is an element of a type `F` with its operations. The names and help texts stand where the
-- text is printed, in Metrics/Text. A counter's entry and its value are one value here:
-- a value is read and written in one step, as its atomic addition is.
pub mod Laws
pub mod Text
mod Tests
use rateforge.Base.{
  ℕ, Bool, Option, none, some, List, [], ◌∷◌, if◌then◌else◌, Str, length, replicate, map,
}
use rateforge.Base.Int.{ℤ, pos, add64}
use rateforge.Float.{Float, zero_f}
use rateforge.Dict
use rateforge.Dict.{Dict}

abbrev pub Counter : Type 0
Counter = Dict ℤ

unfoldable pub new_counter : Counter
new_counter = []

unfoldable pub inc : Str → Counter → Counter
inc label c = elim (Dict.lookup label c) [
  | some v ↦ Dict.insert label (add64 v (pos 1)) c
  | none ↦ Dict.insert label (pos 1) c
]

abbrev pub Gauge : Type 0
Gauge = ℤ

unfoldable pub new_gauge : Gauge
new_gauge = pos 0

unfoldable pub set_gauge : ℤ → Gauge → Gauge
set_gauge v g = v

unfoldable pub add_gauge : ℤ → Gauge → Gauge
add_gauge delta g = add64 g delta

pub record Histogram (F : Type 0) : Type 0 where
  pub buckets : List ℤ
  pub sum : F
  pub count : ℤ

pub record Registry (F : Type 0) : Type 0 where
  pub requests_total : Counter
  pub request_latency : Histogram F
  pub active_clients : Gauge
  pub scheduler_refills : Gauge
  pub scheduler_heap_size : Gauge
  pub evictions_total : Gauge
  pub admin_changes_total : Counter

module _ {F : Type 0} ⦃float : Float F⦄ where
  -- `histogramBuckets`
  unfoldable pub histogram_buckets : List F
  histogram_buckets =
      float.decimal 5 5
      ∷ float.decimal 1 4
      ∷ float.decimal 5 4
      ∷ float.decimal 1 3
      ∷ float.decimal 5 3
      ∷ float.decimal 1 2
      ∷ float.decimal 5 2
      ∷ float.decimal 1 1
      ∷ float.decimal 5 1
      ∷ float.decimal 1 0
      ∷ []

  unfoldable pub new_histogram : Histogram F
  new_histogram = record {
    buckets = replicate (length {A = F} histogram_buckets) (pos 0);
    sum = zero_f;
    count = pos 0;
  }

  -- The loop of `Observe`.
  unfoldable pub count_below : F → List F → List ℤ → List ℤ
  count_below seconds [] counts = counts
  count_below seconds (upper ∷ uppers) [] = []
  count_below seconds (upper ∷ uppers) (n ∷ counts) =
      (if float.le_f seconds upper then add64 n (pos 1) else n) ∷ count_below seconds uppers counts

  unfoldable pub observe : F → Histogram F → Histogram F
  observe seconds h = record {
    buckets = count_below seconds histogram_buckets h.buckets;
    sum = float.add_f h.sum seconds;
    count = add64 h.count (pos 1);
  }

  unfoldable pub new_registry : Registry F
  new_registry = record {
    requests_total = new_counter;
    request_latency = new_histogram;
    active_clients = new_gauge;
    scheduler_refills = new_gauge;
    scheduler_heap_size = new_gauge;
    evictions_total = new_gauge;
    admin_changes_total = new_counter;
  }
