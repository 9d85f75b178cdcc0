-- ===== src/Server/Tests.antt =====
-- The theorems of both servers at concrete requests.
use rateforge.Base.{◌+◌, ◌≡◌, ◌≢◌, refl, false, ◌⊎◌, none, some, [], ◌∷◌, arith, codes}
use rateforge.Base.Int.{pos, ◌≤ℤ◌, mul64, wrap64, ◌*ℤ◌}
use rateforge.Float.Sample.{hundredths}
use rateforge.Config.{default}
use rateforge.Bucket
use rateforge.Bucket.{Bucket, refreshed, request_cost}
use rateforge.Store.Serve.{allow, global_gate}
use rateforge.Store.Safe.{IsSound}
use rateforge.Scheduler.Attach.{agenda}
use rateforge.Audit.{request_rejected}
use rateforge.Server.Limit.{
  Limiter, limit_listener, acquire, accepted, close, Reachable, starts, steps, begins, accepts,
  open_count, Reachable-close,
}
use rateforge.Dict
use rateforge.Store.{tier_default}
use rateforge.Store.Admin.{tier_config, default_config}
use rateforge.Security.{matches_key, all_key_bytes, validate_api_key, validate_tier}
use rateforge.Bucket.{BucketConfig}
use rateforge.Server.Admin.{read_admin_body, handle_update_config}
use rateforge.Server.Admin.Apply.{Within, Applied, handle_update_config-applies}
use rateforge.Server.Client.{decide}
use rateforge.Server.Decide.{decide-refused}
use rateforge.Server.Admin.{UpdateConfigRequest, to_block, to_update_config, merge}
use rateforge.Server.Admin.Guard.{Bears, Refused, handle, guard, guard_lem}
use rateforge.Server.Admin.Merged.{Merged}
use rateforge.Server.Admin.Handle.{guard-IsSound}
use rateforge.Security.{is_key_byte}
use rateforge.Server.{bad_request, invalid_identity, peer_host, source_ip, handle_request}
use rateforge.Server.Admit.{handle_request-address}
use rateforge.Server.Sample.{
  from_peer, guarded, drained, service, service-IsSound, asked, to_admin, asks_five, turns_off,
}

peer_address : source_ip some (λ s. s) from_peer false ≡ codes "10.0.0.7"
unfolding source_ip peer_host
peer_address = refl

dot_not_key : is_key_byte b'.' ≡ false
unfolding is_key_byte
dot_not_key = refl

handle_request-address_example :
    handle_request some (λ s. s) from_peer false (codes "ip") (pos 9) ≡ bad_request invalid_identity
handle_request-address_example =
    handle_request-address some (λ s. s) from_peer false (pos 9) (codes "10") (codes "0.0.7") b'.'
      peer_address dot_not_key (omega arith)

is_refused : (allow (pos 9) asked service.store).0.allowed ≡ false
unfolding allow global_gate Bucket.allow refreshed request_cost
is_refused = refl

-- A count of milliseconds that wraps to 10 ms.
huge_interval :
    (merge
      (record {
        tier = [];
        max_tokens = none;
        refill_rate = none;
        refill_interval_ms = some (pos 288_230_376_151_711_754);
      })
      drained.config).refill_interval
    ≡ pos 10_000_000
unfolding merge mul64 wrap64 ◌*ℤ◌
huge_interval = refl

has_hash : guarded.security.admin_token_hash ≢ []
has_hash e = ground (arith, e)

guard_lem_example :
    (Bears (λ s. s) (codes "secret") [] to_admin
      × (guard some (λ s. s) (λ s. s) asks_five turns_off guarded to_block to_admin (pos 9) service
          ≡ handle some
              (λ s. s)
              (λ s. s)
              asks_five
              turns_off
              guarded
              to_block
              to_admin
              (pos 9)
              service))
    ⊎ (¬ Bears (λ s. s) (codes "secret") [] to_admin
        × Refused service (
            guard some
              (λ s. s)
              (λ s. s)
              asks_five
              turns_off
              guarded
              to_block
              to_admin
              (pos 9)
              service))
unfolding default
guard_lem_example =
    guard_lem some (λ s. s) (λ s. s) asks_five turns_off guarded to_block to_admin (pos 9) service
      has_hash

guard-IsSound_example :
    IsSound
      (guard some
        (λ s. s)
        (λ s. s)
        asks_five
        turns_off
        guarded
        to_update_config
        to_admin
        (pos 9)
        service).1.store
guard-IsSound_example =
    guard-IsSound some (λ s. s) (λ s. s) asks_five turns_off guarded to_update_config to_admin
      (pos 9) service service-IsSound (omega arith)

decide-refused_example :
    let (result, st) = allow (pos 9) asked service.store in
    let (reply, svc') = decide 3 7 (pos 9) asked service in
    (reply.status ≡ 429)
    × (reply.retry_after ≡ some result.retry_after)
    × (svc'.store ≡ st)
    × (svc'.fairness ≡ service.fairness)
    × (svc'.log ≡ request_rejected (codes "team-1") (codes "10.0.0.7") result.remaining_tokens ∷ [])
decide-refused_example = decide-refused 3 7 (pos 9) asked service is_refused

-- A listener for two connections that has accepted one.
abbrev one_open : Limiter
one_open = record { max = 2; taken = 1; waiting = 0; conns = false ∷ [] }

one_open_there : Reachable (pos 2) one_open
unfolding limit_listener acquire accepted
one_open_there = steps (steps (starts refl) (begins refl)) (accepts (omega arith) refl)

Reachable-close_example :
    (pos (0 + open_count (false ∷ [])) ≤ℤ pos 2)
    × ((m : Limiter) × (close 0 one_open ≡ some m) × (close 0 m ≡ some m))
Reachable-close_example = Reachable-close (pos 2) one_open 0 one_open_there (omega arith)

abbrev five_req : UpdateConfigRequest
five_req = record {
  tier = [];
  max_tokens = some (pos 5);
  refill_rate = none;
  refill_interval_ms = some (pos 50);
}

-- What is then to stand in place of the configuration that the store falls back on.
abbrev five : BucketConfig
five = record {
  max_tokens = pos 5;
  refill_rate = pos 0;
  refill_interval = pos 50_000_000;
  tokens_per_request = pos 1;
  sliding_window = none;
}

five_asked : Merged five_req (tier_config (codes "team-1") [] service.store) five
unfolding tier_config Dict.lookup default_config tier_default mul64 wrap64 ◌*ℤ◌
five_asked = record {
  capacity = refl;
  rate = refl;
  interval = refl;
  cost = λ high. absurd (omega (arith, high));
  least = λ low. refl;
  window = refl;
}

key_passes : validate_api_key to_admin.key ≡ none
unfolding validate_api_key matches_key all_key_bytes is_key_byte
key_passes = refl

tier_passes : validate_tier five_req.tier ≡ none
unfolding validate_tier
tier_passes = refl

body_read : read_admin_body asks_five to_admin ≡ some five_req
unfolding read_admin_body
body_read = refl

handle_update_config-applies_example :
    let out = handle_update_config some (λ s. s) guarded asks_five to_admin (pos 9) service in
    (Within guarded five × Applied some (λ s. s) guarded to_admin [] five out)
    ⊎ (¬ Within guarded five × (out.0.status ≡ 400) × (out.1 ≡ service))
handle_update_config-applies_example =
    handle_update_config-applies some (λ s. s) guarded asks_five to_admin five_req five (pos 9)
      service key_passes body_read tier_passes five_asked
