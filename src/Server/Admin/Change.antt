-- ===== src/Server/Admin/Change.antt =====
-- What the handlers of the admin API change.
use rateforge.Base.{
  ◌≡◌, refl, ◌⊎◌, inl, inr, ◌||◌, Option, none, some, Str, codes, Bool-cases, Option-cases,
}
use rateforge.Base.Int.{ltb_ℤ}
use rateforge.Time.{Time}
use rateforge.Server.Admin.Merged.{merge-Merged}
use rateforge.Agenda.{Agenda}
use rateforge.Config.{Config}
use rateforge.Security.{validate_api_key, validate_tier, validate_bucket_config}
use rateforge.Store.{BucketStore}
use rateforge.Store.Admin.{
  tier_config, update_client_config, block, unblock, set_global_config, disable_global,
}
use rateforge.Store.Safe.{IsSound}
use rateforge.Audit.{Snapshot}
use rateforge.Server.Service.{Service, Response}
use rateforge.Server.Admin.{
  AdminRequest, UpdateConfigRequest, GlobalConfigRequest, snapshot, read_admin_body, merge,
  apply_update, global_config_of, handle_update_config, handle_block, handle_unblock,
  handle_global_config, Handler, to_update_config, to_block, to_unblock, to_global_config,
}
use rateforge.Server.Admin.Usable.{tier_config-IsUsable, merge-IsUsable, global_config_of-IsUsable}
use rateforge.Server.Admin.Made.{
  Reads, Change, config_updated, client_blocked, client_unblocked, global_set, global_disabled,
  asked_is, stands_after,
}
use rateforge.Server.Admin.Noted.{Noted, noted}

module _ (split_host_port : Str → Option Str) (trim_space : Str → Str) {S F : Type 0}
    ⦃agenda : Agenda S⦄ (cfg : Config F) where
  -- Nothing changed, by a handler that only reads or with the answer 400; or with the answer 200 the
  -- handler made its change of the store, and noted it.
  abbrev pub Handled :
      (Str → Option UpdateConfigRequest)
      → (Str → Option GlobalConfigRequest)
      → Handler
      → AdminRequest
      → Time
      → Service S F
      → Response × Service S F
      → Type 0
  Handled decode_update decode_global h r now svc (answer, svc') =
      ((svc' ≡ svc) × (Reads h ⊎ (answer.status ≡ 400)))
      ⊎ ((answer.status ≡ 200)
          × (st : BucketStore S) × (key action : Str) × (before after : Option Snapshot) × Change
              decode_update decode_global r now svc.store h st key action before after
          × Noted split_host_port trim_space cfg r key action before after st svc svc')

  apply_update-Handled :
      (decode_update : Str → Option UpdateConfigRequest)
      (decode_global : Str → Option GlobalConfigRequest) (r : AdminRequest)
      (req : UpdateConfigRequest) (now : Time) (svc : Service S F)
      → IsSound svc.store
      → read_admin_body decode_update r ≡ some req
      → let before = tier_config r.key req.tier svc.store in
        Handled decode_update decode_global to_update_config r now svc
          (apply_update split_host_port trim_space cfg r req.tier before (merge req before) now svc)
  unfolding apply_update
  apply_update-Handled decode_update decode_global r req now svc v read =
      let before = tier_config r.key req.tier svc.store in
      let after = merge req before in
      elim (Option-cases
        (validate_bucket_config after.max_tokens after.refill_rate after.refill_interval)) [
          | inr (why, e) ↦ inl (rw (e, apply_update) (refl, inr refl))
          | inl e ↦
              elim (Bool-cases (
                ltb_ℤ after.refill_interval cfg.limits.min_refill_interval
                || ltb_ℤ cfg.limits.max_refill_interval after.refill_interval)) [
                  | inl out ↦ inl (rw (e, out, apply_update) (refl, inr refl))
                  | inr within ↦
                      let usable =
                        merge-IsUsable req before (tier_config-IsUsable r.key req.tier svc.store v)
                          e in
                      let st = update_client_config r.key req.tier after now svc.store in
                      inr (
                        rw (e, within, apply_update)
                          (
                            refl,
                            st,
                            r.key,
                            codes "update_config",
                            some (snapshot before),
                            some (snapshot after),
                            config_updated req after read (merge-Merged req before) usable
                                (stands_after r req now svc.store),
                            noted split_host_port trim_space cfg r r.key (codes "update_config")
                                (some (snapshot before)) (some (snapshot after)) st svc,
                          ))
                ]
        ]

  pub handle_update_config-Handled :
      (decode_update : Str → Option UpdateConfigRequest)
      (decode_global : Str → Option GlobalConfigRequest) (r : AdminRequest) (now : Time)
      (svc : Service S F)
      → IsSound svc.store
      → Handled decode_update decode_global to_update_config r now svc
          (handle_update_config split_host_port trim_space cfg decode_update r now svc)
  unfolding handle_update_config
  handle_update_config-Handled decode_update decode_global r now svc v =
      elim (Option-cases (validate_api_key r.key)) [
        | inr (why, e) ↦ inl (rw (e, handle_update_config) (refl, inr refl))
        | inl e ↦ elim (Option-cases (read_admin_body decode_update r)) [
          | inl f ↦ inl (rw (e, f, handle_update_config) (refl, inr refl))
          | inr (req, f) ↦ elim (Option-cases (validate_tier req.tier)) [
            | inr (why, g) ↦ inl (rw (e, f, g, handle_update_config) (refl, inr refl))
            | inl g ↦
                rw (e, f, g, handle_update_config)
                  (apply_update-Handled decode_update decode_global r req now svc v f)
          ]
        ]
      ]

  pub handle_block-Handled :
      (decode_update : Str → Option UpdateConfigRequest)
      (decode_global : Str → Option GlobalConfigRequest) (r : AdminRequest) (now : Time)
      (svc : Service S F)
      → Handled decode_update decode_global to_block r now svc
          (handle_block split_host_port trim_space cfg r now svc)
  unfolding handle_block
  handle_block-Handled decode_update decode_global r now svc =
      elim (Option-cases (validate_api_key r.key)) [
        | inr (why, e) ↦ inl (rw (e, handle_block) (refl, inr refl))
        | inl e ↦
            let st = block r.key now svc.store in
            inr (
              rw (e, handle_block)
                (
                  refl,
                  st,
                  r.key,
                  codes "block",
                  none,
                  none,
                  client_blocked,
                  noted split_host_port trim_space cfg r r.key (codes "block") none none st svc,
                ))
      ]

  pub handle_unblock-Handled :
      (decode_update : Str → Option UpdateConfigRequest)
      (decode_global : Str → Option GlobalConfigRequest) (r : AdminRequest) (now : Time)
      (svc : Service S F)
      → Handled decode_update decode_global to_unblock r now svc
          (handle_unblock split_host_port trim_space cfg r svc)
  unfolding handle_unblock
  handle_unblock-Handled decode_update decode_global r now svc =
      elim (Option-cases (validate_api_key r.key)) [
        | inr (why, e) ↦ inl (rw (e, handle_unblock) (refl, inr refl))
        | inl e ↦
            let st = unblock r.key svc.store in
            inr (
              rw (e, handle_unblock)
                (
                  refl,
                  st,
                  r.key,
                  codes "unblock",
                  none,
                  none,
                  client_unblocked,
                  noted split_host_port trim_space cfg r r.key (codes "unblock") none none st svc,
                ))
      ]

  pub handle_global_config-Handled :
      (decode_update : Str → Option UpdateConfigRequest)
      (decode_global : Str → Option GlobalConfigRequest) (r : AdminRequest) (now : Time)
      (svc : Service S F)
      → Handled decode_update decode_global to_global_config r now svc
          (handle_global_config split_host_port trim_space cfg decode_global r now svc)
  unfolding handle_global_config
  handle_global_config-Handled decode_update decode_global r now svc =
      elim (Option-cases (read_admin_body decode_global r)) [
        | inl f ↦ inl (rw (f, handle_global_config) (refl, inr refl))
        | inr (req, f) ↦ elim (Bool-cases req.enabled) [
          | inr off ↦
              let st = disable_global svc.store in
              inr (
                rw (f, off, handle_global_config)
                  (
                    refl,
                    st,
                    codes "__global__",
                    codes "disable_global",
                    none,
                    none,
                    global_disabled req f off,
                    noted split_host_port trim_space cfg r (codes "__global__")
                        (codes "disable_global") none none st svc,
                  ))
          | inl on ↦
              let asked = global_config_of req in
              elim (Option-cases
                (validate_bucket_config asked.max_tokens asked.refill_rate asked.refill_interval)) [
                  | inr (why, e) ↦ inl (rw (f, on, e, handle_global_config) (refl, inr refl))
                  | inl e ↦
                      let st = set_global_config asked now svc.store in
                      inr (
                        rw (f, on, e, handle_global_config)
                          (
                            refl,
                            st,
                            codes "__global__",
                            codes "set_global_config",
                            none,
                            some (snapshot asked),
                            global_set req asked f on (asked_is req)
                                (global_config_of-IsUsable req e),
                            noted split_host_port trim_space cfg r (codes "__global__")
                                (codes "set_global_config") none (some (snapshot asked)) st svc,
                          ))
                ]
        ]
      ]
