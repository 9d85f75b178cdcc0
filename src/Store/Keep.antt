-- ===== src/Store/Keep.antt =====
-- The order and the bound of the map of clients under Allow.
use rateforge.Base.{
  ◌≡◌, ◌≢◌, ◌∙◌, false, inl, inr, some, [], arith, if◌then◌else◌, Str, str_eq, str_eq_iff, length,
  either,
}
use rateforge.Time.{Time, is_zero}
use rateforge.Dict
use rateforge.Dict.{Dict, IsUnique}
use rateforge.Agenda.{Agenda}
use rateforge.Multibucket.{ClientBuckets}
use rateforge.Store.{
  BucketStore, AllowRequest, AllowResult, get_or_create_client, evict_oldest_ip_locked,
  get_or_create_ip_bucket,
}
use rateforge.Store.Serve.{global_gate, ip_gate, client_gate, allow}
use rateforge.Store.Clients.{IsKeyed}
use rateforge.Store.Capacity.{IsBounded, get_or_create_client_lem}
use rateforge.Store.Gates.{clients-global_gate, clients-ip_gate}
use rateforge.Store.Isolate.{client_gate-Touched}

module _ {S : Type 0} where
  -- Distinct keys that are not empty, and no more clients than a positive MaxClients.
  abbrev pub IsOrderly : BucketStore S → Type 0
  IsOrderly s = IsKeyed s × IsBounded s

  IsOrderly-same :
      (s t : BucketStore S)
      → t.clients ≡ s.clients
      → t.max_clients ≡ s.max_clients
      → IsOrderly s
      → IsOrderly t
  IsOrderly-same s t c m o =
      (record { unique = rw c o.0.unique; named = rw c o.0.named }, rw (c, m) o.1)

  IsOrderly-replaced :
      (key : Str) (old cb : ClientBuckets) (s t : BucketStore S)
      → t.clients ≡ Dict.insert key cb s.clients
      → t.max_clients ≡ s.max_clients
      → Dict.lookup key s.clients ≡ some old
      → key ≢ []
      → IsOrderly s
      → IsOrderly t
  IsOrderly-replaced key old cb s t c m e h o =
      let same : length (Dict.insert key cb s.clients) ≡ length s.clients =
        Dict.length-insert key cb s.clients ∙ rw e in
      let other : str_eq key [] ≡ false = ground (arith, str_eq_iff key []) in
      (
        record {
          unique = rw c (Dict.IsUnique-insert key cb s.clients o.0.unique);
          named = rw (c, Dict.lookup-insert key [] cb s.clients, other) o.0.named;
        },
        rw (c, m, same) o.1,
      )

module _ {S : Type 0} ⦃agenda : Agenda S⦄ where
  bound-global_gate :
      (now : Time) (s : BucketStore S) → (global_gate now s).1.max_clients ≡ s.max_clients
  unfolding global_gate
  bound-global_gate now s = ground arith

  bound-evict_oldest_ip :
      (s : BucketStore S) → (evict_oldest_ip_locked s).max_clients ≡ s.max_clients
  unfolding evict_oldest_ip_locked
  bound-evict_oldest_ip s = ground arith

  bound-ip_gate :
      (ip : Str) (now : Time) (s : BucketStore S) → (ip_gate ip now s).1.max_clients ≡ s.max_clients
  unfolding ip_gate get_or_create_ip_bucket
  bound-ip_gate ip now s = ground (arith, bound-evict_oldest_ip s)

  client_gate-IsOrderly :
      (req : AllowRequest) (now : Time) (s : BucketStore S)
      → req.client_key ≢ []
      → IsOrderly s
      → IsOrderly (client_gate req now s).1
  client_gate-IsOrderly req now s h o =
      let key = req.client_key in
      let s1 = (get_or_create_client key now s).1 in
      let (keyed, bounded, there, same) = get_or_create_client_lem key now s o.0 o.1 h in
      let touched = client_gate-Touched req now s in
      elim touched.1 [
        | inl e ↦ IsOrderly-same s1 (client_gate req now s).1 e touched.0 (keyed, bounded)
        | inr (cb, e) ↦
            IsOrderly-replaced key _ cb s1 (client_gate req now s).1 e touched.0 there h
              (keyed, bounded)
      ]

  -- In a store whose clients stand under distinct keys that are not empty, and are no more than a
  -- positive MaxClients, Allow for a client key that is not empty keeps both so.
  pub allow-IsOrderly :
      (clock : Time) (req : AllowRequest) (s : BucketStore S)
      → req.client_key ≢ []
      → IsOrderly s
      → IsOrderly (allow clock req s).1
  unfolding allow
  allow-IsOrderly clock req s h o =
      let now = if is_zero req.now then clock else req.now in
      let s1 = (global_gate now s).1 in
      let s2 = (ip_gate req.source_ip now s1).1 in
      let o1 = IsOrderly-same s s1 (clients-global_gate now s) (bound-global_gate now s) o in
      let o2 =
        IsOrderly-same s1 s2 (clients-ip_gate req.source_ip now s1)
          (bound-ip_gate req.source_ip now s1) o1 in
      let orderly : AllowResult × BucketStore S → Type 0 = λ r. IsOrderly r.1 in
      either orderly (global_gate now s).0.0
        (either orderly (ip_gate req.source_ip now s1).0.0 (client_gate-IsOrderly req now s2 h o2)
          o2)
        o1
