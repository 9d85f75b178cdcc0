-- ===== src/Float/Sample.antt =====
-- Hundredths, rounded down, for the tests.
use rateforge.Base.{ℕ, ◌+◌, ◌*◌, ◌/◌, ◌^◌, ltb, leb}
use rateforge.Base.Int.{pos_part}
use rateforge.Float.{Float}

instance unfoldable pub hundredths : Float ℕ
hundredths = record {
  decimal = λ d n. d * 100 / 10 ^ n;
  of_int = λ z. pos_part z * 100;
  add_f = ◌+◌;
  div_f = λ a b. a * 100 / b;
  lt_f = ltb;
  le_f = leb;
}
