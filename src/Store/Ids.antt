-- ===== src/Store/Ids.antt =====
-- Scheduler ids.
use rateforge.Base.{
  ℕ, ◌≡◌, refl, false, none, some, [], ◌∷◌, ◌++◌, arith, Str, codes, cut, if◌then◌else◌, str_eq,
  strip_prefix, Bool-cases, inl, inr,
}
use rateforge.Time.{Time}
use rateforge.Security.{validate_api_key}
use rateforge.Security.Charset.{Lacks, validate_api_key-safe, separators_outside}
use rateforge.Store.{encode_id, decode_id, global_bucket_id, BucketStore}
use rateforge.Store.Serve.{on_due, on_due_ip, on_due_client}

cut-append : (b : ℕ) (s t : Str) → Lacks b s → cut b (s ++ b ∷ t) ≡ some (s, t)
unfolding cut
cut-append b [] t h = ground arith
cut-append b (c ∷ s) t h = ground (arith, cut-append b s t h.1)

-- The id of a client key that passes validation and of any tier decodes to that key and tier.
pub decode_id-encode_id :
    (key tier : Str)
    → validate_api_key key ≡ none
    → decode_id (encode_id key tier) ≡ some (key, tier)
unfolding decode_id encode_id
decode_id-encode_id key tier h =
    cut-append b'|' key tier (validate_api_key-safe key b'|' h separators_outside.0).0

-- A string with the byte is not one without it.
str_eq-append : (b : ℕ) (s t g : Str) → Lacks b g → str_eq (s ++ b ∷ t) g ≡ false
unfolding str_eq
str_eq-append b [] t [] h = refl
str_eq-append b [] t (c ∷ g) h = ground arith
str_eq-append b (a ∷ s) t [] h = refl
str_eq-append b (a ∷ s) t (c ∷ g) h = ground (arith, str_eq-append b s t g h.1)

-- A prefix that ends with the separator is the whole first part, or no prefix.
strip_prefix-part :
    (b : ℕ) (p s t : Str)
    → Lacks b p
    → Lacks b s
    → strip_prefix (p ++ b ∷ []) (s ++ b ∷ t) ≡ (if str_eq p s then some t else none)
unfolding strip_prefix str_eq
strip_prefix-part b [] [] t h k = ground arith
strip_prefix-part b [] (c ∷ s) t h k = ground arith
strip_prefix-part b (a ∷ p) [] t h k = ground arith
strip_prefix-part b (a ∷ p) (c ∷ s) t h k = ground (arith, strip_prefix-part b p s t h.1 k.1)

abbrev ip_name : Str
ip_name = codes "__ip__"

-- OnDue for the id of a client key that passes validation and of any tier acts on the bucket of
-- that client and tier, unless the key is `__ip__`: then it acts on the per-IP bucket named like
-- the tier.
pub on_due-encode_id :
    {S : Type 0} (key tier : Str) (now : Time) (s : BucketStore S)
    → validate_api_key key ≡ none
    → on_due (encode_id key tier) now s
      ≡ (if str_eq ip_name key then on_due_ip tier now s else on_due_client key tier now s)
unfolding on_due encode_id
on_due-encode_id key tier now s h =
    let bare = (validate_api_key-safe key b'|' h separators_outside.0).0 in
    let other = str_eq-append b'|' key tier global_bucket_id (omega arith) in
    let part = strip_prefix-part b'|' ip_name key tier (omega arith) bare in
    elim (Bool-cases (str_eq ip_name key)) [
      | inl e ↦ rw (other, part, e)
      | inr e ↦ rw (other, part, e, decode_id-encode_id key tier h)
    ]
