-- ===== src/Server/Admin/Handle.antt =====
-- Every request to the admin API.
use rateforge.Base.{
  arith, ◌≡◌, ◌≢◌, refl, false, subst, sym, inl, inr, Option-cases, Bool-cases, ◌==◌, length,
  Option, [], Str,
}
use rateforge.Time.{Time}
use rateforge.Agenda.{Agenda}
use rateforge.Float.{Float}
use rateforge.Config.{Config}
use rateforge.Bucket.Valid.{IsClock}
use rateforge.Store.Admin.{status}
use rateforge.Store.Safe.{IsSound}
use rateforge.Store.Safe.Reach.{Step-IsSound}
use rateforge.Server.Service.{Service, Response}
use rateforge.Server.Admin.{
  AdminRequest, Handler, UpdateConfigRequest, GlobalConfigRequest, to_update_config, to_block,
  to_unblock, to_status, to_list_clients, to_global_config, to_fairness, handle_status,
  handle_list_clients,
}
use rateforge.Server.Admin.Change.{
  Handled, handle_update_config-Handled, handle_block-Handled, handle_unblock-Handled,
  handle_global_config-Handled,
}
use rateforge.Server.Admin.Made.{Change-Step}
use rateforge.Server.Admin.Guard.{handle, guard, guard_lem, handle_fairness}

nonempty : (s : Str) → (length s == 0) ≡ false → s ≢ []
nonempty s h e = ground (arith, e)

module _ (split_host_port : Str → Option Str) (trim_space sha256_hex : Str → Str)
    (decode_update : Str → Option UpdateConfigRequest)
    (decode_global : Str → Option GlobalConfigRequest) {S F : Type 0} ⦃agenda : Agenda S⦄
    ⦃float : Float F⦄ (cfg : Config F) where
  pub handle-Handled :
      (h : Handler) (r : AdminRequest) (now : Time) (svc : Service S F)
      → IsSound svc.store
      → Handled split_host_port trim_space cfg decode_update decode_global h r now svc
          (handle split_host_port trim_space sha256_hex decode_update decode_global cfg h r now svc)
  unfolding handle handle_status handle_list_clients handle_fairness
  handle-Handled to_update_config r now svc v =
      handle_update_config-Handled split_host_port trim_space cfg decode_update decode_global r now
        svc v
  handle-Handled to_block r now svc v =
      handle_block-Handled split_host_port trim_space cfg decode_update decode_global r now svc
  handle-Handled to_unblock r now svc v =
      handle_unblock-Handled split_host_port trim_space cfg decode_update decode_global r now svc
  handle-Handled to_status r now svc v = elim (Option-cases (status r.key svc.store)) [
    | inl e ↦ inl (rw (e, handle_status) (refl, inl tt))
    | inr (st, e) ↦ inl (rw (e, handle_status) (refl, inl tt))
  ]
  handle-Handled to_list_clients r now svc v = inl (refl, inl tt)
  handle-Handled to_global_config r now svc v =
      handle_global_config-Handled split_host_port trim_space cfg decode_update decode_global r now
        svc
  handle-Handled to_fairness r now svc v = inl (refl, inl tt)

  Handled-IsSound :
      (h : Handler) (r : AdminRequest) (now : Time) (svc : Service S F)
      (out : Response × Service S F)
      → IsSound svc.store
      → IsClock now
      → Handled split_host_port trim_space cfg decode_update decode_global h r now svc out
      → IsSound out.1.store
  Handled-IsSound h r now svc out v c (inl (same, _)) =
      subst (λ (w : Service S F). IsSound w.store) (sym same) v
  Handled-IsSound h r now svc out v c (inr (_, st, _, _, _, _, change, (is, _))) =
      subst IsSound (sym is) (Step-IsSound (Change-Step c change) v)

  -- Every admin request at a clock reading, with a valid token or not and whatever its body, keeps
  -- a sound store sound.
  pub guard-IsSound :
      (h : Handler) (r : AdminRequest) (now : Time) (svc : Service S F)
      → IsSound svc.store
      → IsClock now
      → IsSound
          (guard split_host_port trim_space sha256_hex decode_update decode_global cfg h r now
            svc).1.store
  unfolding guard
  guard-IsSound h r now svc v c =
      let run =
        guard split_host_port trim_space sha256_hex decode_update decode_global cfg h r now svc in
      let sound =
        Handled-IsSound h r now svc
          (handle split_host_port trim_space sha256_hex decode_update decode_global cfg h r now svc)
          v c (handle-Handled h r now svc v) in
      elim (Bool-cases (length cfg.security.admin_token_hash == 0)) [
        | inl none_set ↦ rw (none_set, guard) sound
        | inr closed ↦
            elim (guard_lem split_host_port trim_space sha256_hex decode_update decode_global cfg h
              r now svc (nonempty cfg.security.admin_token_hash closed)) [
                | inl (bears, same) ↦
                    subst (λ (o : Response × Service S F). IsSound o.1.store) (sym same) sound
                | inr (bears, (code, same, tracked, counted)) ↦ subst IsSound (sym same) v
              ]
      ]
