-- ===== src/Metrics/Text.antt =====
-- The text exposition of internal/metrics/metrics.go: the write methods and Handler. A map's labels come
-- in an order of its own, an argument here. The texts of a float64 (`%v`, FormatFloat) and of a quoted
-- label (`%q`) are parameters.
pub mod Order
use rateforge.Base.{
  ℕ, Bool, Option, none, some, List, [], ◌∷◌, ◌++◌, ◌||◌, ◌==◌, ◌>>=◌, if◌then◌else◌, Str, codes,
  length, str_eq, get_or,
}
use rateforge.Base.Int.{ℤ, pos}
use rateforge.Base.Decimal.{decimal}
use rateforge.Base.Sort.{sort_strings}
use rateforge.Float.{Float}
use rateforge.Dict
use rateforge.Metrics.{Counter, Gauge, Histogram, Registry, histogram_buckets}

abbrev pub newline : Str
newline = b'\n' ∷ []

-- The two comment lines above the samples of a metric.
unfoldable pub preamble : Str → Str → Str → Str
preamble name help kind =
    codes "# HELP "
    ++ (name
        ++ (codes " "
            ++ (help
                ++ (newline ++ (codes "# TYPE " ++ (name ++ (codes " " ++ (kind ++ newline))))))))

unfoldable pub plain_sample : Str → Str → Str
plain_sample name value = name ++ (codes " " ++ (value ++ newline))

unfoldable pub labelled_sample : Str → Str → Str → Str → Str
labelled_sample name label_name quoted value =
    name
    ++ (codes "{" ++ (label_name ++ (codes "=" ++ (quoted ++ (codes "} " ++ (value ++ newline))))))

module _ (quote : Str → Str) where
  -- The line of a label.
  unfoldable pub sample : Str → Str → Str → ℤ → Str
  unfolding plain_sample labelled_sample
  sample name label_name l v =
      if length l == 0 || length label_name == 0
      then plain_sample name (decimal v)
      else labelled_sample name label_name (quote l) (decimal v)

  -- The lines of the labels, one after the other. A label without a value would be a panic.
  unfoldable pub samples : Str → Str → Counter → List Str → Option Str
  samples name label_name c [] = some []
  samples name label_name c (l ∷ labels) = do
    v ← Dict.lookup l c
    rest ← samples name label_name c labels
    some (sample name label_name l v ++ rest)

  -- `Counter.write`, where the map's labels come in the given order.
  unfoldable pub write_counter : List Str → Str → Str → Str → Counter → Option Str
  write_counter order name help label_name c = do
    lines ← samples name label_name c (sort_strings order)
    some (preamble name help (codes "counter") ++ lines)

-- `Gauge.write`
unfoldable pub write_gauge : Str → Str → Gauge → Str
write_gauge name help g = preamble name help (codes "gauge") ++ plain_sample name (decimal g)

module _ {F : Type 0} ⦃float : Float F⦄ (quote : Str → Str) (show_f format_f : F → Str) where
  -- The lines of the buckets; fewer counts than bounds would be a panic.
  unfoldable pub bucket_lines : Str → List F → List ℤ → Option Str
  bucket_lines name [] counts = some []
  bucket_lines name (upper ∷ uppers) [] = none
  bucket_lines name (upper ∷ uppers) (n ∷ counts) = do
    rest ← bucket_lines name uppers counts
    some (
        labelled_sample (name ++ codes "_bucket") (codes "le") (quote (format_f upper)) (decimal n)
        ++ rest)

  -- `Histogram.write`
  unfoldable pub write_histogram : Str → Str → Histogram F → Option Str
  write_histogram name help h = do
    lines ← bucket_lines name histogram_buckets h.buckets
    some (
        preamble name help (codes "histogram")
        ++ (lines
            ++ (labelled_sample (name ++ codes "_bucket") (codes "le") (codes "\"+Inf\"")
                  (decimal h.count)
                ++ (plain_sample (name ++ codes "_sum") (show_f h.sum)
                    ++ plain_sample (name ++ codes "_count") (decimal h.count)))))

  -- What a GET is answered, where the labels of the two counters come in the given orders.
  unfoldable pub exposition : List Str → List Str → Registry F → Option Str
  exposition decisions actions r = do
    requests ←
        write_counter quote decisions (codes "sentinel_requests_total")
          (codes "Total rate-limit decisions made.") (codes "decision") r.requests_total
    latency ←
        write_histogram (codes "sentinel_request_latency_seconds")
          (codes "Decision latency in seconds.") r.request_latency
    changes ←
        write_counter quote actions (codes "sentinel_admin_changes_total")
          (codes "Total admin API mutations.") (codes "action") r.admin_changes_total
    some (
        requests
        ++ (latency
            ++ (write_gauge (codes "sentinel_active_clients")
                  (codes "Number of currently tracked clients.") r.active_clients
                ++ (write_gauge (codes "sentinel_scheduler_refills_total")
                      (codes "Cumulative scheduled refills processed.") r.scheduler_refills
                    ++ (write_gauge (codes "sentinel_scheduler_heap_size")
                          (codes "Current number of scheduled refill entries.")
                          r.scheduler_heap_size
                        ++ (write_gauge (codes "sentinel_evictions_total")
                              (codes "Cumulative LRU client evictions.") r.evictions_total
                            ++ changes))))))

  -- `Handler`: the status and the body.
  unfoldable pub handler : Str → List Str → List Str → Registry F → Option (ℕ × Str)
  handler method decisions actions r =
      let answered = exposition decisions actions r >>= (λ body. some (200, body)) in
      if str_eq method (codes "GET") then answered else some (405, [])
