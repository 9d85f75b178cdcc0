-- ===== src/Store/Serve.antt =====
-- The decision function and the scheduler's callback.
use rateforge.Base.{
  Bool, true, false, ◌&&◌, not, Option, none, some, ◌==◌, if◌then◌else◌, Str, str_eq, strip_prefix,
  length,
}
use rateforge.Base.Int.{ℤ, pos}
use rateforge.Time.{Time, Duration, is_zero, second}
use rateforge.Dict
use rateforge.Agenda.{Agenda}
use rateforge.Bucket
use rateforge.Bucket.{Bucket}
use rateforge.Multibucket
use rateforge.Multibucket.{ClientBuckets, default_tier}
use rateforge.Store.{
  BucketStore, AllowRequest, AllowResult, Reason, ok, blocked, client_limit, ip_limit, global_limit,
  global_bucket_id, ip_id_prefix, decode_id, get_or_create_client, ensure_tier,
  get_or_create_ip_bucket,
}

abbrev pub refused : Duration → Reason → AllowResult
refused wait why = record {
  allowed = false;
  remaining_tokens = pos 0;
  retry_after = wait;
  reason = why;
}

-- The balance that a granted request reports.
unfoldable pub remaining : Str → ClientBuckets → ℤ
remaining tier cb = elim (Multibucket.bucket tier cb) [
  | some b ↦ Bucket.tokens_remaining b
  | none ↦ elim (Multibucket.bucket default_tier cb) [
    | some b ↦ Bucket.tokens_remaining b
    | none ↦ pos 0
  ]
]

module _ {S : Type 0} ⦃agenda : Agenda S⦄ where
  -- The first gate of Allow: whether the global bucket lets the request pass, and its wait if not.
  unfoldable pub global_gate : Time → BucketStore S → (Bool × Duration) × BucketStore S
  global_gate now s = elim s.global_bucket [
    | none ↦ ((true, pos 0), s)
    | some gb ↦
        let (answer, gb') = Bucket.allow now gb in (answer, record s { global_bucket = some gb' })
  ]

  -- The second gate: the bucket of the source address, if the limit is on and the address known.
  unfoldable pub ip_gate : Str → Time → BucketStore S → (Bool × Duration) × BucketStore S
  ip_gate ip now s =
      let (b, s') = get_or_create_ip_bucket ip now s in
      let (answer, b') = Bucket.allow now b in
      if s.ip_limit_enabled && not (length ip == 0)
      then (answer, record s' { ip_buckets = Dict.insert ip b' s'.ip_buckets })
      else ((true, pos 0), s)

  -- The third gate: the client's own buckets.
  unfoldable pub client_gate : AllowRequest → Time → BucketStore S → AllowResult × BucketStore S
  client_gate req now s =
      let (found, s1) = get_or_create_client req.client_key now s in
      let cb = found.0 in
      let (tiered, s2) = ensure_tier req.tier now cb s1 in
      let (answer, cb') = Multibucket.allow req.tier now tiered in
      let s3 = record s2 { clients = Dict.insert req.client_key cb' s2.clients } in
      if Multibucket.is_blocked cb
      then (refused second blocked, s1)
      else if answer.0
      then (
        record {
          allowed = true;
          remaining_tokens = remaining req.tier cb';
          retry_after = pos 0;
          reason = ok;
        },
        s3,
      )
      else (refused answer.1 client_limit, s3)

  -- `Allow`, at the time `clock` where the request names none.
  unfoldable pub allow : Time → AllowRequest → BucketStore S → AllowResult × BucketStore S
  allow clock req s =
      let now = if is_zero req.now then clock else req.now in
      let (global, s1) = global_gate now s in
      let (by_ip, s2) = ip_gate req.source_ip now s1 in
      if global.0
      then if by_ip.0 then client_gate req now s2 else (refused by_ip.1 ip_limit, s2)
      else (refused global.1 global_limit, s1)

-- The common end of the cases of OnDue.
unfoldable pub refill_bucket : Time → Bucket → Time × Bucket
refill_bucket now b = let b' = Bucket.scheduled_refill now b in (Bucket.next_refill_time b', b')

module _ {S : Type 0} where
  unfoldable pub on_due_global : Time → BucketStore S → Option Time × BucketStore S
  on_due_global now s = elim s.global_bucket [
    | none ↦ (none, s)
    | some gb ↦
        let (next, gb') = refill_bucket now gb in (some next, record s { global_bucket = some gb' })
  ]

  unfoldable pub on_due_ip : Str → Time → BucketStore S → Option Time × BucketStore S
  on_due_ip ip now s = elim (Dict.lookup ip s.ip_buckets) [
    | none ↦ (none, s)
    | some b ↦
        let (next, b') = refill_bucket now b in
        (some next, record s { ip_buckets = Dict.insert ip b' s.ip_buckets })
  ]

  unfoldable pub on_due_client : Str → Str → Time → BucketStore S → Option Time × BucketStore S
  on_due_client key tier now s = elim (Dict.lookup key s.clients) [
    | none ↦ (none, s)
    | some cb ↦ elim (Multibucket.bucket tier cb) [
      | none ↦ (none, s)
      | some b ↦
          let (next, b') = refill_bucket now b in
          let served = Multibucket.tier_or_default tier in
          let cb' = record cb { buckets = Dict.insert served b' cb.buckets } in
          (some next, record s { clients = Dict.insert key cb' s.clients })
    ]
  ]

  -- `OnDue`: what the scheduler's callback answers for the id (the time of the next refill, or `none`
  -- where the entry is to be dropped), and the store after it.
  unfoldable pub on_due : Str → Time → BucketStore S → Option Time × BucketStore S
  on_due id now s =
      if str_eq id global_bucket_id
      then on_due_global now s
      else elim (strip_prefix ip_id_prefix id) [
        | some ip ↦ on_due_ip ip now s
        | none ↦ elim (decode_id id) [
          | none ↦ (none, s)
          | some (key, tier) ↦ on_due_client key tier now s
        ]
      ]
