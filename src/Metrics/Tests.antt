-- ===== src/Metrics/Tests.antt =====
-- The metrics' theorems at concrete values, with hundredths for float64.
use rateforge.Base.{ℕ, ◌≡◌, refl, arith, List, [], ◌∷◌, ◌++◌, codes, Str, some, str_eq}
use rateforge.Base.Int.{pos, add64, wrap64, ◌+ℤ◌}
use rateforge.Base.Decimal.{decimal}
use rateforge.Base.Sort.{sort, str_le}
use rateforge.Float.Sample.{hundredths}
use rateforge.Dict
use rateforge.Metrics.{histogram_buckets, new_counter, inc}
use rateforge.Metrics.Laws.{observed, below, observe-observed, counted}
use rateforge.Metrics.Text.{preamble, write_counter, samples, sample}

abbrev labels : List Str
labels = codes "allow" ∷ codes "reject" ∷ codes "allow" ∷ []

observe-observed_example :
    ((observed {F = ℕ} (7 ∷ 60 ∷ [])).buckets ≡ below {F = ℕ} (7 ∷ 60 ∷ []) histogram_buckets)
    × ((observed {F = ℕ} (7 ∷ 60 ∷ [])).count ≡ pos 2)
observe-observed_example = observe-observed {F = ℕ} (7 ∷ 60 ∷ []) (omega arith)

abbrev quoted : Str → Str
quoted s = codes "\"" ++ (s ++ codes "\"")

abbrev visited : List Str
visited = codes "reject" ∷ codes "allow" ∷ []

shown :
    write_counter quoted visited (codes "n") (codes "h") (codes "l") (counted labels)
    ≡ some (codes "# HELP n h\n# TYPE n counter\nn{l=\"allow\"} 2\nn{l=\"reject\"} 1\n")
unfolding write_counter samples sample sort str_le Dict.lookup Dict.insert inc new_counter str_eq
    preamble decimal add64 wrap64 ◌+ℤ◌
shown = refl
