-- ===== src/Window/Run.antt =====
-- A run of `Allow` calls on one window against the limiter with unbounded memory.
use rateforge.Base.{
  ◌≡◌, refl, ap, ap₂, ◌∙◌, Bool, Bool-cases, inl, inr, sym, Option, some, List, [], ◌∷◌, ◌++◌, map,
  arith, All, All-append, length, if◌then◌else◌,
}
use rateforge.Base.Int.{
  ℤ, pos, ◌-ℤ◌, ◌≤ℤ◌, ◌<ℤ◌, -ℤ_parts, sub64-eq, -ℤ-InRange, InRange, leb_ℤ, ltb_ℤ, max_int64,
  wrap64_id, clock-InRange,
}
use rateforge.Time.{Time}
use rateforge.Window.{WindowConfig, SlidingWindow, new, allow}
use rateforge.Window.Log.{drop_expired, admit, count_after, reference, grants}
use rateforge.Window.Valid.{IsValid, new-IsValid, allow-IsValid, allow-same}
use rateforge.Window.Refine.{contents, allow_refines_log}

-- The answers to requests at the given times, in order.
unfoldable pub answers : List Time → SlidingWindow → List (Option Bool)
answers [] w = []
answers (t ∷ ts) w = let (answer, w') = allow t w in answer ∷ answers ts w'

-- Times that follow one another, none before `from`.
abbrev pub Ordered : Time → List Time → Type 0
Ordered from [] = Unit {0}
Ordered from (t ∷ ts) = (from ≤ℤ t) × (t ≤ℤ max_int64) × Ordered t ts

-- A log in order.
abbrev IsAscending : List ℤ → Type 0
IsAscending [] = Unit {0}
IsAscending (t ∷ log) = All (λ u. t ≤ℤ u) log × IsAscending log

count_after-All :
    (c t : ℤ) (log : List ℤ) → All (λ u. t ≤ℤ u) log → c <ℤ t → count_after c log ≡ length log
count_after-All c t [] h l = refl
count_after-All c t (u ∷ log) h l = ground (arith, count_after-All c t log h.1 l)

-- In an ordered log exactly the expired entries are dropped.
length-drop_expired :
    (c : ℤ) (log : List ℤ) → IsAscending log → length (drop_expired c log) ≡ count_after c log
length-drop_expired c [] h = refl
length-drop_expired c (t ∷ log) h =
    ground (arith, length-drop_expired c log h.1, count_after-All c t log h.0)

drop_expired-IsAscending :
    (c : ℤ) (log : List ℤ) → IsAscending log → IsAscending (drop_expired c log)
drop_expired-IsAscending c [] h = h
drop_expired-IsAscending c (t ∷ log) h = ground (arith, drop_expired-IsAscending c log h.1)

All-drop_expired : (P : ℤ → Type 0) (c : ℤ) (log : List ℤ) → All P log → All P (drop_expired c log)
All-drop_expired P c [] h = h
All-drop_expired P c (t ∷ log) h = ground (arith, All-drop_expired P c log h.1)

-- What a later cutoff counts does not depend on what an earlier one dropped.
count_after-drop_expired :
    (c d : ℤ) (log : List ℤ) → c ≤ℤ d → count_after d (drop_expired c log) ≡ count_after d log
count_after-drop_expired c d [] h = refl
count_after-drop_expired c d (t ∷ log) h = ground (arith, count_after-drop_expired c d log h)

count_after-append :
    (c t : ℤ) (log : List ℤ) → count_after c (log ++ t ∷ []) ≡ count_after c (t ∷ log)
count_after-append c t [] = refl
count_after-append c t (u ∷ log) = ground (arith, count_after-append c t log)

append-IsAscending :
    (t : ℤ) (log : List ℤ) → IsAscending log → All (λ u. u ≤ℤ t) log → IsAscending (log ++ t ∷ [])
append-IsAscending t [] h k = (tt, tt)
append-IsAscending t (u ∷ log) h k =
    (All-append (λ v. u ≤ℤ v) log (t ∷ []) h.0 (k.0, tt), append-IsAscending t log h.1 k.1)

All-le_trans : (t u : ℤ) (log : List ℤ) → t ≤ℤ u → All (λ v. v ≤ℤ t) log → All (λ v. v ≤ℤ u) log
All-le_trans t u [] l h = tt
All-le_trans t u (v ∷ log) l h = (omega arith, All-le_trans t u log l h.1)

-- A log that stands for the whole history at all cutoffs from the last one on.
record Tracks (cutoff last : ℤ) (log history : List ℤ) : Type 0 where
  ascending : IsAscending log
  past : All (λ u. u ≤ℤ last) log
  agree : (d : ℤ) → cutoff ≤ℤ d → count_after d history ≡ count_after d log

module _ (limit size : ℤ) (cutoff last t : ℤ) (log history : List ℤ) where
  admit-decides :
      Tracks cutoff last log history
      → cutoff ≤ℤ t -ℤ size
      → (admit limit (t -ℤ size) t log).0 ≡ ltb_ℤ (pos (count_after (t -ℤ size) history)) limit
  unfolding admit
  admit-decides k h =
      ground (arith, k.agree (t -ℤ size) h, length-drop_expired (t -ℤ size) log k.ascending)

  admit-Tracks :
      Tracks cutoff last log history
      → cutoff ≤ℤ t -ℤ size
      → last ≤ℤ t
      → Tracks
          (t -ℤ size)
          t
          (admit limit (t -ℤ size) t log).1
          (if (admit limit (t -ℤ size) t log).0 then t ∷ history else history)
  unfolding admit
  admit-Tracks k h l =
      let c = t -ℤ size in
      let kept = drop_expired c log in
      let sorted = drop_expired-IsAscending c log k.ascending in
      let before = All-le_trans last t kept l (All-drop_expired (λ u. u ≤ℤ last) c log k.past) in
      let same : (d : ℤ) → c ≤ℤ d → count_after d history ≡ count_after d kept =
        λ d p. k.agree d (omega arith) ∙ sym (count_after-drop_expired c d log p) in
      elim (Bool-cases (leb_ℤ limit (pos (length kept)))) [
        | inl full ↦ rw full (record { ascending = sorted; past = before; agree = same })
        | inr room ↦ rw room (record {
          ascending = append-IsAscending t kept sorted before;
          past = All-append (λ u. u ≤ℤ t) kept (t ∷ []) before (omega arith, tt);
          agree = λ d p. ground (arith, same d p, count_after-append d t kept);
        })
      ]

-- With the clock in range the cutoff does not wrap.
allow-admit :
    (t : Time) (w : SlidingWindow)
    → IsValid w
    → pos 0 ≤ℤ t
    → t ≤ℤ max_int64
    → pos 0 ≤ℤ w.window_size
    → InRange w.window_size
    → let (granted, log) = admit w.max_requests (t -ℤ w.window_size) t (contents w) in
      ((allow t w).0 ≡ some granted) × (contents (allow t w).1 ≡ log)
allow-admit t w v p q r s =
    let fits = clock-InRange t p q in
    rw (wrap64_id t fits, sub64-eq t w.window_size (-ℤ-InRange t w.window_size fits s p r)) at
      (allow_refines_log t v)

answers-reference :
    (last : ℤ) (ts : List Time) (w : SlidingWindow) (history : List ℤ)
    → IsValid w
    → pos 0 ≤ℤ w.window_size
    → InRange w.window_size
    → pos 0 ≤ℤ last
    → Tracks (last -ℤ w.window_size) last (contents w) history
    → Ordered last ts
    → answers ts w ≡ map some (reference w.max_requests w.window_size ts history)
unfolding answers reference
answers-reference last [] w history v p r q k o = refl
answers-reference last (t ∷ ts) w history v p r q k o =
    let (answered, logged) = allow-admit t w v (omega arith) o.1 p r in
    let (size, limit) = allow-same t w v in
    let later : last -ℤ w.window_size ≤ℤ t -ℤ w.window_size =
      omega (arith, -ℤ_parts last w.window_size, -ℤ_parts t w.window_size) in
    let decides =
      admit-decides w.max_requests w.window_size _ last t (contents w) history k later in
    let tracks =
      admit-Tracks w.max_requests w.window_size _ last t (contents w) history k later o.0 in
    let rest =
      answers-reference t ts (allow t w).1
        (if ltb_ℤ (pos (count_after (t -ℤ w.window_size) history)) w.max_requests
          then t ∷ history
          else history)
        (allow-IsValid t w v).1 (rw size p) (rw size r) (omega arith)
        (rw (size, logged, ← decides) tracks) o.2 in
    ap₂ ◌∷◌ (answered ∙ ap some decides) (rw (size, limit) at rest)

-- For a new window whose limit is in range and below the largest int64 and whose duration is in
-- range and not negative, and requests at times from 1970 on, in range, that do not go back: Allow
-- answers exactly as the limiter that remembers every granted request and counts those younger than
-- WindowDuration, so not one that is exactly as old, and does not panic.
pub answers_exact :
    (cfg : WindowConfig) (ts : List Time)
    → InRange cfg.max_requests
    → cfg.max_requests <ℤ max_int64
    → pos 0 ≤ℤ cfg.window_duration
    → InRange cfg.window_duration
    → Ordered (pos 0) ts
    → answers ts (new cfg) ≡ map some (reference cfg.max_requests cfg.window_duration ts [])
unfolding new
answers_exact cfg ts r h p q o =
    answers-reference (pos 0) ts (new cfg) [] (new-IsValid cfg r h) p q (omega arith) start o
  where
    start : Tracks (pos 0 -ℤ cfg.window_duration) (pos 0) (contents (new cfg)) []
    start = record { ascending = tt; past = tt; agree = λ d l. refl }

-- Every grant falls in a window with at most `limit` grants, itself included (newest first).
abbrev pub IsPaced : ℤ → ℤ → List ℤ → Type 0
IsPaced limit size [] = Unit {0}
IsPaced limit size (t ∷ history) =
    (pos (count_after (t -ℤ size) (t ∷ history)) ≤ℤ limit) × IsPaced limit size history

-- The limiter with unbounded memory never grants more than `limit` requests in a window.
pub grants-IsPaced :
    (limit size : ℤ) (ts history : List ℤ)
    → IsPaced limit size history
    → IsPaced limit size (grants limit size ts history)
unfolding grants
grants-IsPaced limit size [] history h = h
grants-IsPaced limit size (t ∷ ts) history h =
    elim (Bool-cases (ltb_ℤ (pos (count_after (t -ℤ size) history)) limit)) [
      | inl granted ↦ rw granted (grants-IsPaced limit size ts (t ∷ history) (ground arith, h))
      | inr refused ↦ rw refused (grants-IsPaced limit size ts history h)
    ]
