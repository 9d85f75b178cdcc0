-- ===== src/Server/Admin/Apply.antt =====
-- What handleUpdateConfig does with a request that passes its checks.
use mathlib.Core.Option.{some-ne-none}
use rateforge.Base.{
  ◌≡◌, refl, ap, sym, ◌∙◌, ◌⊎◌, subst, true, false, ◌||◌, inl, inr, Option, none, some, Str, codes,
  Bool-cases, Option-cases, arith,
}
use rateforge.Base.Int.{ℤ, ltb_ℤ, ◌≤ℤ◌, div64}
use rateforge.Time.{Time, millisecond}
use rateforge.Agenda.{Agenda}
use rateforge.Config.{Config}
use rateforge.Security.{validate_api_key, validate_tier, validate_bucket_config}
use rateforge.Bucket.{BucketConfig}
use rateforge.Store.Admin.{tier_config, update_client_config}
use rateforge.Server.Service.{Service, Response, respond, config_snapshot}
use rateforge.Server.Admin.{
  AdminRequest, UpdateConfigRequest, snapshot, read_admin_body, merge, apply_update,
  handle_update_config,
}
use rateforge.Server.Admin.Merged.{Merged, merge-Merged, Merged-unique}
use rateforge.Server.Admin.Made.{stands_after}
use rateforge.Server.Admin.Noted.{noted}

inside : (x low high : ℤ) → (ltb_ℤ x low || ltb_ℤ high x) ≡ false → (low ≤ℤ x) × (x ≤ℤ high)
inside x low high h = ground arith

not_outside : (x low high : ℤ) → (ltb_ℤ x low || ltb_ℤ high x) ≡ true → ¬ ((low ≤ℤ x) × (x ≤ℤ high))
not_outside x low high h w = ground arith

-- Whether a configuration is within the limits of a bucket, and its interval within those of cfg.
abbrev pub Within : {F : Type 0} → Config F → BucketConfig → Type 0
Within cfg after =
    (validate_bucket_config after.max_tokens after.refill_rate after.refill_interval ≡ none)
    × (cfg.limits.min_refill_interval ≤ℤ after.refill_interval)
    × (after.refill_interval ≤ℤ cfg.limits.max_refill_interval)

module _ (split_host_port : Str → Option Str) (trim_space : Str → Str) {S F : Type 0}
    ⦃agenda : Agenda S⦄ (cfg : Config F) where
  -- The answer 200 with the configuration, which TierConfig then reports.
  abbrev pub Applied : AdminRequest → Str → BucketConfig → Response × Service S F → Type 0
  Applied r tier after out =
      (out.0
        ≡ respond 200 (
            config_snapshot (record {
              max_tokens = after.max_tokens;
              refill_rate = after.refill_rate;
              refill_interval_ms = div64 after.refill_interval millisecond;
            })))
      × (tier_config r.key tier out.1.store ≡ after)

  -- Exactly within the limits, or else with the answer 400 and no change.
  abbrev Outcome : AdminRequest → Str → BucketConfig → Service S F → Response × Service S F → Type 0
  Outcome r tier after svc out =
      (Within cfg after × Applied r tier after out)
      ⊎ (¬ Within cfg after × (out.0.status ≡ 400) × (out.1 ≡ svc))

  apply_update-Outcome :
      (r : AdminRequest) (req : UpdateConfigRequest) (now : Time) (svc : Service S F)
      → let before = tier_config r.key req.tier svc.store in
        let after = merge req before in
        Outcome r req.tier after svc
          (apply_update split_host_port trim_space cfg r req.tier before after now svc)
  unfolding apply_update snapshot
  apply_update-Outcome r req now svc =
      let before = tier_config r.key req.tier svc.store in
      let after = merge req before in
      let st = update_client_config r.key req.tier after now svc.store in
      let (same, _) =
        noted split_host_port trim_space cfg r r.key (codes "update_config")
          (some (snapshot before)) (some (snapshot after)) st svc in
      elim (Option-cases
        (validate_bucket_config after.max_tokens after.refill_rate after.refill_interval)) [
          | inr (why, e) ↦ inr (
            (λ w. some-ne-none why (sym e ∙ w.0)),
            rw (e, apply_update) refl,
            rw (e, apply_update) refl,
          )
          | inl e ↦
              elim (Bool-cases (
                ltb_ℤ after.refill_interval cfg.limits.min_refill_interval
                || ltb_ℤ cfg.limits.max_refill_interval after.refill_interval)) [
                  | inl out ↦ inr (
                    (λ w.
                        not_outside after.refill_interval cfg.limits.min_refill_interval
                          cfg.limits.max_refill_interval out (w.1, w.2)),
                    rw (e, out, apply_update) refl,
                    rw (e, out, apply_update) refl,
                  )
                  | inr within ↦
                      let bounds =
                        inside after.refill_interval cfg.limits.min_refill_interval
                          cfg.limits.max_refill_interval within in
                      inl (
                        (e, bounds.0, bounds.1),
                        (
                          rw (e, within, apply_update) refl,
                          rw (e, within, apply_update)
                              (ap (tier_config r.key req.tier) same
                                ∙ stands_after r req now svc.store),
                        ),
                      )
                ]
        ]

  -- A request to handleUpdateConfig with a valid key, a body that can be read and a valid tier asks
  -- for the configuration that has, field by field, the value of the body or else the standing one,
  -- the interval being given in milliseconds and multiplied in 64 bits, and a cost of 1 where the
  -- standing one is not positive. If that passes ValidateBucketConfig and its interval is within
  -- the configured bounds, the answer is 200 with it, and TierConfig reports exactly it afterwards;
  -- and if not, the answer is 400 and nothing changes.
  pub handle_update_config-applies :
      (decode : Str → Option UpdateConfigRequest) (r : AdminRequest) (req : UpdateConfigRequest)
      (after : BucketConfig) (now : Time) (svc : Service S F)
      → validate_api_key r.key ≡ none
      → read_admin_body decode r ≡ some req
      → validate_tier req.tier ≡ none
      → Merged req (tier_config r.key req.tier svc.store) after
      → let out = handle_update_config split_host_port trim_space cfg decode r now svc in
        (Within cfg after × Applied r req.tier after out)
        ⊎ (¬ Within cfg after × (out.0.status ≡ 400) × (out.1 ≡ svc))
  unfolding handle_update_config
  handle_update_config-applies decode r req after now svc key body tier merged =
      let before = tier_config r.key req.tier svc.store in
      let is = Merged-unique req before (merge req before) after (merge-Merged req before) merged in
      rw (key, body, tier, handle_update_config)
        (subst
          (λ (a : BucketConfig). Outcome r req.tier a svc (
            apply_update split_host_port trim_space cfg r req.tier before (merge req before) now
              svc))
          is (apply_update-Outcome r req now svc))
