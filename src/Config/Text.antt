-- ===== src/Config/Text.antt =====
-- The lines of the YAML subset of internal/config/config.go: leadingSpaces, stripComment, unquote.
use rateforge.Base.{
  ℕ, ◌+◌, ◌≡◌, refl, ap, Bool, false, ◌&&◌, ◌||◌, inl, inr, Option, none, some, [], ◌∷◌,
  if◌then◌else◌, Str, ◌==◌, leb, length, get_or, Bool-cases,
}

unfoldable pub leading_spaces : Str → ℕ
leading_spaces [] = 0
leading_spaces (c ∷ s) = let rest = leading_spaces s in if c == b' ' then rest + 1 else 0

abbrev pub is_quote : ℕ → Bool
is_quote c = c == b'"' || c == 39

-- The loop of stripComment, inside of a quotation by the given character or outside of one.
unfoldable pub strip_loop : Option ℕ → Str → Str
strip_loop q [] = []
strip_loop (some q) (c ∷ s) = c ∷ strip_loop (if c == q then none else some q) s
strip_loop none (c ∷ s) =
    let rest = strip_loop (if is_quote c then some c else none) s in
    if c == b'#' then [] else c ∷ rest

unfoldable pub strip_comment : Str → Str
strip_comment s = strip_loop none s

-- All but the last byte.
unfoldable pub without_last : Str → Str
without_last [] = []
without_last (c ∷ []) = []
without_last (c ∷ d ∷ s) = c ∷ without_last (d ∷ s)

unfoldable pub unquote : Str → Str
unquote [] = []
unquote (c ∷ s) =
    if leb 1 (length s) && (is_quote c && (get_or (c ∷ s) (length s) 0 == c))
    then without_last s
    else c ∷ s

strip_loop-strip_loop : (q : Option ℕ) (s : Str) → strip_loop q (strip_loop q s) ≡ strip_loop q s
unfolding strip_loop
strip_loop-strip_loop (some q) [] = refl
strip_loop-strip_loop none [] = refl
strip_loop-strip_loop (some q) (c ∷ s) =
    ap (λ x. c ∷ x) (strip_loop-strip_loop (if c == q then none else some q) s)
strip_loop-strip_loop none (c ∷ s) = elim (Bool-cases (c == b'#')) [
  | inl e ↦ rw e refl
  | inr e ↦
      rw (e, strip_loop, e)
        (ap (λ x. c ∷ x) (strip_loop-strip_loop (if is_quote c then some c else none) s))
]

-- A text without `#`.
abbrev Plain : Str → Type 0
Plain [] = Unit
Plain (c ∷ s) = ((c == b'#') ≡ false) × Plain s

strip_loop-Plain : (q : Option ℕ) (s : Str) → Plain s → strip_loop q s ≡ s
unfolding strip_loop
strip_loop-Plain (some q) [] h = refl
strip_loop-Plain none [] h = refl
strip_loop-Plain (some q) (c ∷ s) h =
    ap (λ x. c ∷ x) (strip_loop-Plain (if c == q then none else some q) s h.1)
strip_loop-Plain none (c ∷ s) h =
    rw h.0 (ap (λ x. c ∷ x) (strip_loop-Plain (if is_quote c then some c else none) s h.1))

-- A comment ends where a `#` stands outside of a quotation.
strip_comment_lem :
    (s : Str)
    → (strip_comment (strip_comment s) ≡ strip_comment s) × (Plain s → strip_comment s ≡ s)
unfolding strip_comment
strip_comment_lem s = (strip_loop-strip_loop none s, strip_loop-Plain none s)
