-- ===== src/Config/Checked.antt =====
-- What Validate accepts.
use mathlib.Core.Option.{some-ne-none}
use rateforge.Base.{
  ◌≡◌, ◌≢◌, ◌↔◌, true, false, none, arith, Option-cases, inl, inr, ◌⊎◌, codes, Str, str_eq_iff,
}
use rateforge.Base.Int.{ℤ, pos, ◌≤ℤ◌, ◌<ℤ◌}
use rateforge.Float.{Float}
use rateforge.Config.{Config, identity_mode_known, validate, validate_ports, validate_values}

-- A TCP port.
abbrev pub IsPort : ℤ → Type 0
IsPort p = (pos 1 ≤ℤ p) × (p ≤ℤ pos 65535)

known_iff :
    (mode : Str)
    → (identity_mode_known mode ≡ true)
      ↔ ((mode ≡ codes "ip") ⊎ (mode ≡ codes "api_key") ⊎ (mode ≡ codes "api_key_with_ip_fallback"))
known_iff mode = ground (
  arith,
  str_eq_iff mode (codes "ip"),
  str_eq_iff mode (codes "api_key"),
  str_eq_iff mode (codes "api_key_with_ip_fallback"),
)

module _ {F : Type 0} ⦃float : Float F⦄ where
  -- What the fields of a configuration are to be. A rate or a weight that is not a number is neither
  -- below nor above a bound.
  pub record IsInBounds (c : Config F) : Type 0 where
    pub client : IsPort c.server.client_port
    pub admin : IsPort c.server.admin_port
    pub apart : c.server.client_port ≢ c.server.admin_port
    pub metrics :
        c.metrics.enabled ≡ true
        → IsPort c.metrics.port
          × (c.metrics.port ≢ c.server.client_port)
          × (c.metrics.port ≢ c.server.admin_port)
    pub tokens : pos 0 <ℤ c.defaults.max_tokens
    pub rate : pos 0 ≤ℤ c.defaults.refill_rate
    pub capacity : pos 0 <ℤ c.limits.max_clients
    pub sampled :
        (float.lt_f c.logging.request_sample_rate (float.decimal 0 0) ≡ false)
        × (float.lt_f (float.decimal 1 0) c.logging.request_sample_rate ≡ false)
    pub identity :
        (c.security.identity_mode ≡ codes "ip")
        ⊎ (c.security.identity_mode ≡ codes "api_key")
        ⊎ (c.security.identity_mode ≡ codes "api_key_with_ip_fallback")
    pub weighted :
        c.fairness.enabled ≡ true → float.le_f c.fairness.default_weight (float.decimal 0 0) ≡ false
    pub global : c.global.enabled ≡ true → pos 0 <ℤ c.global.max_tokens

  IsInBounds-validate_ports : (c : Config F) → IsInBounds c → validate_ports c ≡ none
  unfolding validate_ports
  IsInBounds-validate_ports c v = ground (arith, v.client, v.admin, v.apart, v.metrics)

  IsInBounds-validate_values : (c : Config F) → IsInBounds c → validate_values c ≡ none
  unfolding validate_values
  IsInBounds-validate_values c v = ground (
    arith,
    v.tokens,
    v.rate,
    v.capacity,
    v.sampled,
    (known_iff c.security.identity_mode).1 v.identity,
    v.weighted,
    v.global,
  )

  accepted :
      (c : Config F)
      → validate_values c ≡ none
      → identity_mode_known c.security.identity_mode ≡ true
  unfolding validate_values
  accepted c q = ground arith

  validate-IsInBounds :
      (c : Config F) → validate_ports c ≡ none → validate_values c ≡ none → IsInBounds c
  unfolding validate_ports validate_values
  validate-IsInBounds c p q = record {
    client = ground arith;
    admin = ground arith;
    apart = ground arith;
    metrics = ground arith;
    tokens = ground arith;
    rate = ground arith;
    capacity = ground arith;
    sampled = ground arith;
    identity = (known_iff c.security.identity_mode).0 (accepted c q);
    weighted = ground arith;
    global = ground arith;
  }

  -- Validate accepts a configuration exactly if the client and the admin port are from 1 to 65535
  -- and differ; the metrics port, if metrics are on, is so too and differs from both; the defaults'
  -- MaxTokens is positive and RefillRate not negative; MaxClients is positive; the sample rate is
  -- neither below 0 nor above 1, as a NaN also is not; the identity mode is `ip`, `api_key` or
  -- `api_key_with_ip_fallback`; the default weight, if fairness is on, is not at most 0; and the
  -- global MaxTokens, if the global limit is on, is positive.
  pub validate_iff : (c : Config F) → (validate c ≡ none) ↔ IsInBounds c
  unfolding validate
  validate_iff c = (
    (λ h. elim (Option-cases (validate_ports c)) [
      | inl e ↦ validate-IsInBounds c e (rw (e, validate) at h)
      | inr (why, e) ↦ absurd (some-ne-none why (rw (e, validate) at h))
    ]),
    (λ v. rw (IsInBounds-validate_ports c v, validate) (IsInBounds-validate_values c v)),
  )
