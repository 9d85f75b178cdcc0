-- ===== src/Security/Sanitize.antt =====
-- SanitizeForLog of internal/security/sanitize.go. The argument is the sequence of runes that `range`
-- decodes from the string; WriteRune is the encoding of a rune as UTF-8.
use mathlib.Core.List.{append-nil, append_assoc}
use rateforge.Base.{
  sym, ℕ, zero, suc, ◌+◌, ◌/◌, ◌%◌, ◌≤◌, ◌<◌, ◌≡◌, ◌∙◌, ap, Bool, false, ◌||◌, List, [], ◌∷◌, ◌++◌,
  arith, if◌then◌else◌, Str, All, All-append, ltb, leb, ◌==◌, length, length-append, Bool-cases,
  inl, inr,
}

unfoldable pub encode_rune : ℕ → Str
encode_rune r =
    if ltb r 128
    then r ∷ []
    else if ltb r 2048
    then (192 + r / 64) ∷ (128 + r % 64) ∷ []
    else if ltb r 65536
    then (224 + r / 4096) ∷ (128 + r / 64 % 64) ∷ (128 + r % 64) ∷ []
    else (240 + r / 262_144) ∷ (128 + r / 4096 % 64) ∷ (128 + r / 64 % 64) ∷ (128 + r % 64) ∷ []

-- A slice `s[:n]` of a string that is long enough.
unfoldable pub slice_to : ℕ → Str → Str
slice_to zero s = []
slice_to (suc n) [] = []
slice_to (suc n) (c ∷ s) = c ∷ slice_to n s

unfoldable pub is_stripped : ℕ → Bool
is_stripped r = r == 10 || r == 13 || ltb r 32

-- The loop, with what is written so far.
unfoldable pub sanitize_loop : List ℕ → Str → Str
sanitize_loop [] out = out
sanitize_loop (r ∷ rs) out =
    let written = out ++ encode_rune r in
    let skipped = sanitize_loop rs out in
    let rest = sanitize_loop rs written in
    if is_stripped r then skipped else if leb 256 (length written) then written else rest

unfoldable pub sanitize_for_log : List ℕ → Str
sanitize_for_log runes =
    let out = sanitize_loop runes [] in if ltb 256 (length out) then slice_to 256 out else out

-- No control character of ASCII below 32.
abbrev pub Printable : ℕ → Type 0
Printable c = 32 ≤ c

encode_rune-Printable : (r : ℕ) → 32 ≤ r → All Printable (encode_rune r)
unfolding encode_rune
encode_rune-Printable r h = ground arith

slice_to-All : (P : ℕ → Type 0) (n : ℕ) (s : Str) → All P s → All P (slice_to n s)
unfolding slice_to
slice_to-All P zero s h = tt
slice_to-All P (suc n) [] h = tt
slice_to-All P (suc n) (c ∷ s) h = (h.0, slice_to-All P n s h.1)

length-slice_to : (n : ℕ) (s : Str) → length (slice_to n s) ≤ n
unfolding slice_to
length-slice_to zero s = omega arith
length-slice_to (suc n) [] = omega arith
length-slice_to (suc n) (c ∷ s) = omega (arith, length-slice_to n s)

sanitize_loop-Printable :
    (runes : List ℕ) (out : Str) → All Printable out → All Printable (sanitize_loop runes out)
unfolding sanitize_loop is_stripped
sanitize_loop-Printable [] out h = h
sanitize_loop-Printable (r ∷ rs) out h = elim (Bool-cases (is_stripped r)) [
  | inl e ↦ rw e (sanitize_loop-Printable rs out h)
  | inr e ↦
      let more =
        All-append Printable out (encode_rune r) h (encode_rune-Printable r (ground arith)) in
      elim (Bool-cases (leb 256 (length (out ++ encode_rune r)))) [
        | inl q ↦ rw (e, q) more
        | inr q ↦ rw (e, q) (sanitize_loop-Printable rs (out ++ encode_rune r) more)
      ]
]

-- What SanitizeForLog returns has at most 256 bytes, each of them 32 or more, so no line break.
pub sanitize_for_log-Printable :
    (runes : List ℕ)
    → All Printable (sanitize_for_log runes) × (length (sanitize_for_log runes) ≤ 256)
unfolding sanitize_for_log
sanitize_for_log-Printable runes =
    let out = sanitize_loop runes [] in
    let clean = sanitize_loop-Printable runes [] tt in
    elim (Bool-cases (ltb 256 (length out))) [
      | inl e ↦ rw e (slice_to-All Printable 256 out clean, length-slice_to 256 out)
      | inr e ↦ rw e (clean, ground arith)
    ]

-- The UTF-8 encoding of a sequence of runes.
unfoldable pub encode : List ℕ → Str
encode [] = []
encode (r ∷ rs) = encode_rune r ++ encode rs

sanitize_loop-clean :
    (runes : List ℕ) (out : Str)
    → All Printable runes
    → length (out ++ encode runes) < 256
    → sanitize_loop runes out ≡ out ++ encode runes
unfolding sanitize_loop is_stripped encode
sanitize_loop-clean [] out h l = sym (append-nil out)
sanitize_loop-clean (r ∷ rs) out h l =
    let shift = append_assoc out (encode_rune r) (encode rs) in
    let kept : is_stripped r ≡ false = ground (arith, h.0) in
    let fits : leb 256 (length (out ++ encode_rune r)) ≡ false = ground (
      arith,
      length-append out (encode_rune r ++ encode rs),
      length-append (encode_rune r) (encode rs),
      length-append out (encode_rune r),
    ) in
    rw (kept, fits)
      (sanitize_loop-clean rs (out ++ encode_rune r) h.1 (rw (ap length shift) l) ∙ shift)

-- SanitizeForLog returns a text of runes that are 32 or more as it is, if its encoding has fewer
-- than 256 bytes.
sanitize_for_log-clean :
    (runes : List ℕ)
    → All Printable runes
    → length (encode runes) < 256
    → sanitize_for_log runes ≡ encode runes
unfolding sanitize_for_log
sanitize_for_log-clean runes h l =
    let same = sanitize_loop-clean runes [] h l in
    let short : ltb 256 (length (encode runes)) ≡ false = ground arith in rw (same, short)
