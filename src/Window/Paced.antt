-- ===== src/Window/Paced.antt =====
-- The requests that one window allows, taken together.
use rateforge.Base.{
  ◌≡◌, refl, Bool, true, false, Option, none, some, List, [], ◌∷◌, map, Bool-cases, inl, inr,
}
use rateforge.Base.Int.{ℤ, pos, ◌≤ℤ◌, ◌<ℤ◌, ltb_ℤ, ◌-ℤ◌, InRange, max_int64}
use rateforge.Time.{Time}
use rateforge.Window.{WindowConfig, new}
use rateforge.Window.Log.{reference, grants, count_after}
use rateforge.Window.Run.{answers, answers_exact, Ordered, IsPaced, grants-IsPaced}

-- The times at which the answer was yes, newest first, on top of `history`.
unfoldable pub allowed_times : List Time → List (Option Bool) → List Time → List Time
allowed_times [] answered history = history
allowed_times (t ∷ ts) [] history = history
allowed_times (t ∷ ts) (some true ∷ answered) history = allowed_times ts answered (t ∷ history)
allowed_times (t ∷ ts) (some false ∷ answered) history = allowed_times ts answered history
allowed_times (t ∷ ts) (none ∷ answered) history = allowed_times ts answered history

allowed_times-reference :
    (limit size : ℤ) (ts history : List ℤ)
    → allowed_times ts (map some (reference limit size ts history)) history
      ≡ grants limit size ts history
unfolding allowed_times reference grants
allowed_times-reference limit size [] history = refl
allowed_times-reference limit size (t ∷ ts) history =
    elim (Bool-cases (ltb_ℤ (pos (count_after (t -ℤ size) history)) limit)) [
      | inl e ↦ rw e (allowed_times-reference limit size ts (t ∷ history))
      | inr e ↦ rw e (allowed_times-reference limit size ts history)
    ]

-- For a new window whose limit is in range and below the largest int64 and whose duration is in
-- range and not negative, and requests at times from 1970 on, in range, that do not go back: of the
-- requests allowed, at most MaxRequests fall in the WindowDuration that ends with any of them.
pub allowed_times-IsPaced :
    (cfg : WindowConfig) (ts : List Time)
    → InRange cfg.max_requests
    → cfg.max_requests <ℤ max_int64
    → pos 0 ≤ℤ cfg.window_duration
    → InRange cfg.window_duration
    → Ordered (pos 0) ts
    → IsPaced cfg.max_requests cfg.window_duration (allowed_times ts (answers ts (new cfg)) [])
allowed_times-IsPaced cfg ts r h p q o =
    rw
      (
        answers_exact cfg ts r h p q o,
        allowed_times-reference cfg.max_requests cfg.window_duration ts [],
      )
      (grants-IsPaced cfg.max_requests cfg.window_duration ts [] tt)
