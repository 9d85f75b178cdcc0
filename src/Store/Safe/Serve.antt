-- ===== src/Store/Safe/Serve.antt =====
-- Soundness of the store under Allow, gate by gate.
use rateforge.Base.{
  either, ◌&&◌, not, inl, inr, if◌then◌else◌, Str, length, ◌==◌, Bool-cases, Option-cases,
}
use rateforge.Time.{Time, is_zero}
use rateforge.Dict
use rateforge.Dict.{Dict, AllValues}
use rateforge.Agenda.{Agenda}
use rateforge.Bucket.Valid.{IsClock}
use rateforge.Bucket.Refine.{IsValid}
use rateforge.Bucket.Allow
use rateforge.Multibucket
use rateforge.Multibucket.{ClientBuckets, default_tier}
use rateforge.Multibucket.Laws.{AllValid, allow-AllValid}
use rateforge.Store.{BucketStore, AllowRequest, AllowResult, get_or_create_client, ensure_tier}
use rateforge.Store.Serve.{global_gate, ip_gate, client_gate, allow}
use rateforge.Store.Safe.{IsSound}
use rateforge.Store.Safe.Create.{
  get_or_create_client-IsSound, ensure_tier-IsSound, get_or_create_ip_bucket-IsSound,
}

module _ {S : Type 0} ⦃agenda : Agenda S⦄ where
  global_gate-IsSound :
      (now : Time) (s : BucketStore S) → IsSound s → IsClock now → IsSound (global_gate now s).1
  unfolding global_gate
  global_gate-IsSound now s v c = elim (Option-cases s.global_bucket) [
    | inl e ↦ rw (e, global_gate) v
    | inr (gb, e) ↦
        let valid : IsValid gb = rw e at v.global in
        rw (e, global_gate)
          (record {
            defaults = v.defaults;
            clients = v.clients;
            global = (Allow.allow_refines now gb valid c).1;
            ips = v.ips;
            ip_config = v.ip_config;
          })
  ]

  ip_gate-IsSound :
      (ip : Str) (now : Time) (s : BucketStore S)
      → IsSound s
      → IsClock now
      → IsSound (ip_gate ip now s).1
  unfolding ip_gate
  ip_gate-IsSound ip now s v c =
      let (b, w) = get_or_create_ip_bucket-IsSound ip now s v c in
      let served : IsSound _ = record {
        defaults = w.defaults;
        clients = w.clients;
        global = w.global;
        ips = Dict.AllValues-insert IsValid ip _ _ (Allow.allow_refines now _ b c).1 w.ips;
        ip_config = w.ip_config;
      } in
      elim (Bool-cases (s.ip_limit_enabled && not (length ip == 0))) [
        | inl e ↦ rw (e, ip_gate) served
        | inr e ↦ rw (e, ip_gate) v
      ]

  client_gate-IsSound :
      (req : AllowRequest) (now : Time) (s : BucketStore S)
      → IsSound s
      → IsClock now
      → IsSound (client_gate req now s).1
  unfolding client_gate
  client_gate-IsSound req now s v c =
      let ((cb, created), s1) = get_or_create_client req.client_key now s in
      let (h, w) = get_or_create_client-IsSound req.client_key now s v c in
      let (h', w') = ensure_tier-IsSound req.tier now cb s1 h w c in
      let tiered = (ensure_tier req.tier now cb s1).0 in
      let answered : IsSound _ = record {
        defaults = w'.defaults;
        clients =
            Dict.AllValues-insert AllValid req.client_key _ _
              (allow-AllValid req.tier now tiered c h') w'.clients;
        global = w'.global;
        ips = w'.ips;
        ip_config = w'.ip_config;
      } in
      let sound : AllowResult × BucketStore S → Type 0 = λ r. IsSound r.1 in
      either sound (Multibucket.is_blocked cb) w
        (either sound (Multibucket.allow req.tier now tiered).0.0 answered answered)

  -- Allow at a clock reading keeps a sound store sound, whichever gate decides: every bucket of the
  -- clients, of the addresses and the global one stays valid, and every configuration usable.
  pub allow-IsSound :
      (clock : Time) (req : AllowRequest) (s : BucketStore S)
      → IsSound s
      → IsClock (if is_zero req.now then clock else req.now)
      → IsSound (allow clock req s).1
  unfolding allow
  allow-IsSound clock req s v c =
      let now = if is_zero req.now then clock else req.now in
      let s1 = (global_gate now s).1 in
      let v1 = global_gate-IsSound now s v c in
      let s2 = (ip_gate req.source_ip now s1).1 in
      let v2 = ip_gate-IsSound req.source_ip now s1 v1 c in
      elim (Bool-cases (global_gate now s).0.0) [
        | inr no_global ↦ rw (no_global, allow) v1
        | inl global ↦ elim (Bool-cases (ip_gate req.source_ip now s1).0.0) [
          | inr no_ip ↦ rw (global, no_ip, allow) v2
          | inl by_ip ↦ rw (global, by_ip, allow) (client_gate-IsSound req now s2 v2 c)
        ]
      ]
