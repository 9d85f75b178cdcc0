-- ===== src/Fairness/Tests.antt =====
-- The tracker's theorems at concrete values, with hundredths for float64.
use rateforge.Base.{ℕ, List, [], ◌∷◌, codes}
use rateforge.Base.Int.{pos}
use rateforge.Fairness.Laws.{Event, sets, records}

abbrev events : List (Event ℕ)
events = records (codes "a") (pos 3) ∷ sets (codes "a") 200 ∷ records (codes "b") (pos 1) ∷ []
