-- ===== src/Store/Gates.antt =====
-- The gates of Allow: what each leaves alone, and what they do to a blocked client.
use rateforge.Base.{
  ◌≡◌, ◌≢◌, ap, ◌∙◌, true, false, inl, inr, none, some, arith, if◌then◌else◌, Str, str_eq,
  str_eq_refl, Bool-cases, Option-cases,
}
use rateforge.Time.{Time, is_zero, second}
use rateforge.Dict
use rateforge.Dict.{Dict, AllValues}
use rateforge.Agenda.{Agenda}
use rateforge.Bucket.{BucketConfig}
use rateforge.Multibucket
use rateforge.Multibucket.{ClientBuckets, default_tier}
use rateforge.Multibucket.Laws.{block_all-is_blocked}
use rateforge.Store.{
  BucketStore, AllowRequest, blocked, get_or_create_client, get_or_create_ip_bucket,
  evict_oldest_ip_locked, fresh_client, tier_default,
}
use rateforge.Store.Serve.{global_gate, ip_gate, client_gate, allow, refused}
use rateforge.Store.Admin.{ensure_client, block}

fresh_client-stocked :
    (key : Str) (now : Time) (cfg : BucketConfig)
    → Dict.lookup default_tier (fresh_client key cfg now).buckets ≢ none
unfolding fresh_client Multibucket.configure Multibucket.new Multibucket.tier_or_default Dict.insert
    Dict.lookup str_eq
fresh_client-stocked key now cfg = cc

module _ {S : Type 0} ⦃agenda : Agenda S⦄ where
  pub clients-global_gate :
      (now : Time) (s : BucketStore S) → (global_gate now s).1.clients ≡ s.clients
  unfolding global_gate
  clients-global_gate now s = ground arith

  clients-evict_oldest_ip : (s : BucketStore S) → (evict_oldest_ip_locked s).clients ≡ s.clients
  unfolding evict_oldest_ip_locked
  clients-evict_oldest_ip s = ground arith

  clients-get_or_create_ip_bucket :
      (ip : Str) (now : Time) (s : BucketStore S)
      → (get_or_create_ip_bucket ip now s).1.clients ≡ s.clients
  unfolding get_or_create_ip_bucket
  clients-get_or_create_ip_bucket ip now s = ground (arith, clients-evict_oldest_ip s)

  pub clients-ip_gate :
      (ip : Str) (now : Time) (s : BucketStore S) → (ip_gate ip now s).1.clients ≡ s.clients
  unfolding ip_gate
  clients-ip_gate ip now s = ground (arith, clients-get_or_create_ip_bucket ip now s)

  -- A known client is found as it is.
  known :
      (key : Str) (now : Time) (s : BucketStore S) (cb : ClientBuckets)
      → Dict.lookup key s.clients ≡ some cb
      → get_or_create_client key now s ≡ ((cb, false), s)
  unfolding get_or_create_client
  known key now s cb e = rw (e, get_or_create_client)

  -- Every client found has a bucket of the default tier, if those in the map have one.
  found_stocked :
      (key : Str) (now : Time) (s : BucketStore S)
      → ((cb : ClientBuckets)
          → Dict.lookup key s.clients ≡ some cb
          → Dict.lookup default_tier cb.buckets ≢ none)
      → Dict.lookup default_tier (get_or_create_client key now s).0.0.buckets ≢ none
  unfolding get_or_create_client
  found_stocked key now s stocked = elim (Option-cases (Dict.lookup key s.clients)) [
    | inl e ↦
        rw (e, get_or_create_client)
          (fresh_client-stocked key now (tier_default default_tier s.tier_defaults))
    | inr (cb, e) ↦ rw (e, get_or_create_client) (stocked cb e)
  ]

  -- A known client that is blocked is refused at the third gate, and nothing changes there.
  client_gate-blocked :
      (req : AllowRequest) (now : Time) (s : BucketStore S) (cb : ClientBuckets)
      → Dict.lookup req.client_key s.clients ≡ some cb
      → Multibucket.is_blocked cb ≡ true
      → client_gate req now s ≡ (refused second blocked, s)
  unfolding client_gate
  client_gate-blocked req now s cb e b = rw (known req.client_key now s cb e, client_gate, b)

  -- A request of a client that is known and blocked is never allowed, whatever the other gates say.
  allow-blocked :
      (clock : Time) (req : AllowRequest) (s : BucketStore S) (cb : ClientBuckets)
      → Dict.lookup req.client_key s.clients ≡ some cb
      → Multibucket.is_blocked cb ≡ true
      → (allow clock req s).0.allowed ≡ false
  unfolding allow
  allow-blocked clock req s cb e b =
      let now = if is_zero req.now then clock else req.now in
      let s1 = (global_gate now s).1 in
      let s2 = (ip_gate req.source_ip now s1).1 in
      let same : s2.clients ≡ s.clients =
        clients-ip_gate req.source_ip now s1 ∙ clients-global_gate now s in
      let shut = client_gate-blocked req now s2 cb (ap (Dict.lookup req.client_key) same ∙ e) b in
      elim (Bool-cases (global_gate now s).0.0) [
        | inr no_global ↦ rw (no_global, allow)
        | inl global ↦ elim (Bool-cases (ip_gate req.source_ip now s1).0.0) [
          | inr no_ip ↦ rw (global, no_ip, allow)
          | inl by_ip ↦ rw (global, by_ip, allow, shut)
        ]
      ]

  -- A request of a client that comes right after Block of that client is refused, whether the
  -- client was known or not and whatever the other gates answer, if the client, where it was known,
  -- has a bucket of the default tier.
  pub allow-block :
      (clock at : Time) (req : AllowRequest) (s : BucketStore S)
      → ((cb : ClientBuckets)
          → Dict.lookup req.client_key s.clients ≡ some cb
          → Dict.lookup default_tier cb.buckets ≢ none)
      → (allow clock req (block req.client_key at s)).0.allowed ≡ false
  unfolding block ensure_client
  allow-block clock at req s stocked =
      let key = req.client_key in
      let ((cb, created), s') = get_or_create_client key at s in
      let stocked' : Dict.lookup default_tier cb.buckets ≢ none = found_stocked key at s stocked in
      let there = Dict.lookup-insert key key (Multibucket.block_all cb) s'.clients in
      elim (Option-cases (Dict.lookup default_tier cb.buckets)) [
        | inl bare ↦ absurd (stocked' bare)
        | inr (b, e) ↦
            allow-blocked clock req _ (Multibucket.block_all cb) (rw (there, str_eq_refl key))
              (block_all-is_blocked cb default_tier b e)
      ]
