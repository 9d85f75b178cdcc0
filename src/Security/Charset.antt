-- ===== src/Security/Charset.antt =====
-- What a validated name cannot hold.
use rateforge.Base.{
  ℕ, ◌≤◌, ◌≡◌, ◌≢◌, true, false, none, some, [], ◌∷◌, ◌++◌, refl, ap, arith, All, Str, length,
}
use rateforge.Security.{
  is_key_byte, all_key_bytes, matches_key, validate_api_key, validate_tier, invalid_api_key,
}

-- The byte does not occur.
abbrev pub Lacks : ℕ → Str → Type 0
Lacks b s = All (λ c. c ≢ b) s

all_key_bytes-Lacks : (b : ℕ) (s : Str) → is_key_byte b ≡ false → all_key_bytes s ≡ true → Lacks b s
unfolding all_key_bytes
all_key_bytes-Lacks b [] e h = tt
all_key_bytes-Lacks b (c ∷ s) e h =
    ((λ same. cc (ap is_key_byte same)), all_key_bytes-Lacks b s e (ground arith))

all_key_bytes-append :
    (s t : Str) (b : ℕ) → is_key_byte b ≡ false → all_key_bytes (s ++ b ∷ t) ≡ false
unfolding all_key_bytes
all_key_bytes-append [] t b e = rw e
all_key_bytes-append (c ∷ s) t b e = ground (arith, all_key_bytes-append s t b e)

-- A key that passes ValidateAPIKey has 1 to 128 bytes, and holds no byte that is outside the class.
pub validate_api_key-safe :
    (key : Str) (b : ℕ)
    → validate_api_key key ≡ none
    → is_key_byte b ≡ false
    → Lacks b key × (1 ≤ length key) × (length key ≤ 128)
unfolding validate_api_key matches_key
validate_api_key-safe key b h e =
    let all : all_key_bytes key ≡ true = ground arith in
    (all_key_bytes-Lacks b key e all, ground arith, ground arith)

-- A tier that passes ValidateTier has at most 64 bytes, and holds no byte that is outside the
-- class.
validate_tier-safe :
    (tier : Str) (b : ℕ)
    → validate_tier tier ≡ none
    → is_key_byte b ≡ false
    → Lacks b tier × (length tier ≤ 64)
unfolding validate_tier matches_key
validate_tier-safe [] b h e = (tt, omega arith)
validate_tier-safe (c ∷ s) b h e =
    let all : all_key_bytes (c ∷ s) ≡ true = ground arith in
    (all_key_bytes-Lacks b (c ∷ s) e all, ground arith)

-- ValidateAPIKey refuses every key that holds a byte outside the class, wherever it stands.
pub validate_api_key-outside :
    (s t : Str) (b : ℕ)
    → is_key_byte b ≡ false
    → validate_api_key (s ++ b ∷ t) ≡ some invalid_api_key
unfolding validate_api_key matches_key
validate_api_key-outside s t b e = rw (all_key_bytes-append s t b e)

-- The separator of ids is outside the class, and so are `.` and `:`, one of which every IP address
-- has.
pub separators_outside :
    (is_key_byte b'|' ≡ false) × (is_key_byte b'.' ≡ false) × (is_key_byte b':' ≡ false)
unfolding is_key_byte
separators_outside = (refl, refl, refl)
