-- ===== src/Window/Log.antt =====
-- What a sliding window promises: a log of the requests allowed in the trailing window, oldest
-- first, that admits a request while it holds fewer than the limit.
use rateforge.Base.{ℕ, suc, Bool, true, false, List, [], ◌∷◌, ◌++◌, if◌then◌else◌, length}
use rateforge.Base.Int.{ℤ, pos, ◌-ℤ◌, leb_ℤ, ltb_ℤ}

-- Forget the oldest entries up to the first that is later than `cutoff`.
abbrev pub drop_expired : ℤ → List ℤ → List ℤ
drop_expired cutoff [] = []
drop_expired cutoff (t ∷ log) = if leb_ℤ t cutoff then drop_expired cutoff log else t ∷ log

-- The answer, and the log after it.
unfoldable pub admit : ℤ → ℤ → ℤ → List ℤ → Bool × List ℤ
admit limit cutoff now log =
    let kept = drop_expired cutoff log in
    if leb_ℤ limit (pos (length kept)) then (false, kept) else (true, kept ++ now ∷ [])

-- How many entries are later than `cutoff`.
abbrev pub count_after : ℤ → List ℤ → ℕ
count_after cutoff [] = 0
count_after cutoff (t ∷ log) =
    if leb_ℤ t cutoff then count_after cutoff log else suc (count_after cutoff log)

-- The limiter with unbounded memory: every granted request is kept (newest first), and a request is
-- granted while fewer than `limit` of them fall in the window of length `size` that ends with it.
unfoldable pub reference : ℤ → ℤ → List ℤ → List ℤ → List Bool
reference limit size [] history = []
reference limit size (t ∷ ts) history =
    let granted = ltb_ℤ (pos (count_after (t -ℤ size) history)) limit in
    granted ∷ reference limit size ts (if granted then t ∷ history else history)

-- What the unbounded limiter has granted at the end, newest first.
unfoldable pub grants : ℤ → ℤ → List ℤ → List ℤ → List ℤ
grants limit size [] history = history
grants limit size (t ∷ ts) history =
    let granted = ltb_ℤ (pos (count_after (t -ℤ size) history)) limit in
    grants limit size ts (if granted then t ∷ history else history)
