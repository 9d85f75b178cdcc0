-- ===== src/Server/Admit.antt =====
-- What the handler's checks let through.
use rateforge.Base.{
  ℕ, ◌≡◌, ◌≢◌, Bool, false, inl, inr, Option, none, [], ◌∷◌, ◌++◌, arith, Str, codes, str_eq,
  length, length-append, ◌==◌, Bool-cases, Option-cases,
}
use rateforge.Base.Int.{pos, ltb_ℤ, ◌≤ℤ◌}
use rateforge.Time.{Time}
use rateforge.Security.{validate_api_key, validate_tier, is_key_byte}
use rateforge.Security.Charset.{validate_api_key-outside}
use rateforge.Server.{
  HttpRequest, Admission, bad_request, admitted, invalid_identity, source_ip, client_identity,
  handle_request,
}

-- Of an admission: what reaches the store has passed both validations and has a key.
abbrev pub Vetted : Admission → Type 0
Vetted (bad_request why) = Unit {0}
Vetted (admitted req) =
    (validate_api_key req.client_key ≡ none)
    × (validate_tier req.tier ≡ none)
    × (req.client_key ≢ [])

module _ (split_host_port : Str → Option Str) (trim_space : Str → Str) where
  -- What handleRequest hands to the store has a key that is not empty and passes ValidateAPIKey,
  -- and a tier that passes ValidateTier.
  pub handle_request-Vetted :
      (r : HttpRequest) (trust_proxy : Bool) (mode : Str) (now : Time)
      → Vetted (handle_request split_host_port trim_space r trust_proxy mode now)
  unfolding handle_request
  handle_request-Vetted r trust_proxy mode now =
      let ip = source_ip split_host_port trim_space r trust_proxy in
      let key = (client_identity split_host_port trim_space r ip mode).0 in
      elim (Bool-cases (ltb_ℤ (pos 0) r.content_length)) [
        | inl e ↦ rw (e, handle_request) tt
        | inr e ↦ elim (Bool-cases (length key == 0)) [
          | inl z ↦ rw (e, z, handle_request) tt
          | inr z ↦ elim (Option-cases (validate_api_key key)) [
            | inr (why, k) ↦ rw (e, z, k, handle_request) tt
            | inl k ↦ elim (Option-cases (validate_tier r.x_resource_tier)) [
              | inr (why, t) ↦ rw (e, z, k, t, handle_request) tt
              | inl t ↦ rw (e, z, k, t, handle_request) (k, t, λ empty. ground (arith, empty))
            ]
          ]
        ]
      ]

  -- In the identity mode `ip`, handleRequest refuses as an invalid identity every request without a
  -- body whose source address holds a byte outside the key class, as `.` and `:` are.
  pub handle_request-address :
      (r : HttpRequest) (trust_proxy : Bool) (now : Time) (front rest : Str) (b : ℕ)
      → source_ip split_host_port trim_space r trust_proxy ≡ front ++ b ∷ rest
      → is_key_byte b ≡ false
      → r.content_length ≤ℤ pos 0
      → handle_request split_host_port trim_space r trust_proxy (codes "ip") now
        ≡ bad_request invalid_identity
  unfolding handle_request client_identity str_eq
  handle_request-address r trust_proxy now front rest b e out h =
      let bad = validate_api_key-outside front rest b out in
      let some_key : (length (front ++ b ∷ rest) == 0) ≡ false =
        ground (arith, length-append front (b ∷ rest)) in
      let bare : ltb_ℤ (pos 0) r.content_length ≡ false = ground arith in
      rw (bare, e, some_key, bad, handle_request)
