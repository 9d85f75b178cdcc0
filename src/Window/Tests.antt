-- ===== src/Window/Tests.antt =====
-- The window's theorems at concrete values.
use rateforge.Base.{◌≡◌, true, false, inr, some, List, [], ◌∷◌, arith}
use rateforge.Base.Int.{pos, ◌-ℤ◌}
use rateforge.Time.{Time}
use rateforge.Window.{WindowConfig, SlidingWindow, new}
use rateforge.Window.Log.{reference}
use rateforge.Window.Valid.{IsValid}
use rateforge.Window.Run.{answers, answers_exact, IsPaced}
use rateforge.Window.Paced.{allowed_times, allowed_times-IsPaced}

-- Two requests in ten nanoseconds.
abbrev two_in_ten : WindowConfig
two_in_ten = record {
  enabled = true;
  window_duration = pos 10;
  max_requests = pos 2;
  buffer_size = pos 0;
}

abbrev four_times : List Time
four_times = pos 5 ∷ pos 9 ∷ pos 14 ∷ pos 15 ∷ []

-- The ring once the two requests are in.
abbrev full_window : SlidingWindow
full_window = record {
  window_size = pos 10;
  max_requests = pos 2;
  timestamps = pos 5 ∷ pos 9 ∷ pos 0 ∷ [];
  head = 2;
  count = 2;
}

full_window-IsValid : IsValid full_window
full_window-IsValid = record {
  head_in = omega arith;
  roomy = omega arith;
  counted = inr (omega arith);
}

answers_exact_example :
    answers four_times (new two_in_ten) ≡ some true ∷ some true ∷ some false ∷ some true ∷ []
unfolding answers reference ◌-ℤ◌
answers_exact_example =
    answers_exact two_in_ten four_times (omega arith) (omega arith) (omega arith) (omega arith)
      (omega arith)

allowed_times-IsPaced_example :
    IsPaced (pos 2) (pos 10) (allowed_times four_times (answers four_times (new two_in_ten)) [])
allowed_times-IsPaced_example =
    allowed_times-IsPaced two_in_ten four_times (omega arith) (omega arith) (omega arith)
      (omega arith) (omega arith)
