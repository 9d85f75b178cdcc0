-- ===== src/Base/Decimal.antt =====
-- The decimal text of an int64, `%d`.
use rateforge.Base.{
  ℕ, zero, suc, ◌+◌, ◌-◌, ◌*◌, ◌/◌, ◌%◌, ◌^◌, ◌<◌, ◌≡◌, refl, [], ◌∷◌, ◌++◌, arith, if◌then◌else◌,
  Str, ltb, Bool-cases, inl, inr,
}
use rateforge.Base.Int.{ℤ, pos, negsuc}

-- At most so many digits.
digits : ℕ → ℕ → Str
digits zero n = []
digits (suc k) n =
    let rest = digits k (n / 10) in
    if ltb n 10 then (b'0' + n) ∷ [] else rest ++ (b'0' + n % 10) ∷ []

-- An int64 has at most nineteen digits.
unfoldable pub decimal : ℤ → Str
unfolding digits
decimal (pos n) = digits 19 n
decimal (negsuc n) = b'-' ∷ digits 19 (suc n)

-- The number that digits stand for.
abbrev pub value_of : Str → ℕ → ℕ
value_of [] acc = acc
value_of (c ∷ s) acc = value_of s (acc * 10 + (c - b'0'))

value_of-append : (s t : Str) (acc : ℕ) → value_of (s ++ t) acc ≡ value_of t (value_of s acc)
value_of-append [] t acc = refl
value_of-append (c ∷ s) t acc = value_of-append s t (acc * 10 + (c - b'0'))

shorter : (k n : ℕ) → n < 10 ^ suc k → n / 10 < 10 ^ k
shorter k n h = omega arith

value_of-digits : (k n : ℕ) → n < 10 ^ k → value_of (digits k n) 0 ≡ n
unfolding digits
value_of-digits zero n h = omega arith
value_of-digits (suc k) n h = elim (Bool-cases (ltb n 10)) [
  | inl small ↦ rw small (omega arith)
  | inr large ↦
      rw
        (
          large,
          value_of-append (digits k (n / 10)) ((b'0' + n % 10) ∷ []) 0,
          value_of-digits k (n / 10) (shorter k n h),
        )
        (omega arith)
]

-- The number can be read from its text.
pub value_of-decimal : (n : ℕ) → n < 2 ^ 63 → value_of (decimal (pos n)) 0 ≡ n
unfolding decimal
value_of-decimal n h = value_of-digits 19 n (omega arith)
