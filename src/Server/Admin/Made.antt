-- ===== src/Server/Admin/Made.antt =====
-- What each handler of the admin API makes of the store, and what is to be noted of it.
use rateforge.Base.{◌≡◌, refl, ◌∙◌, Option, none, some, Str, codes, true, false}
use rateforge.Base.Int.{pos, mul64}
use rateforge.Time.{Time, millisecond}
use rateforge.Bucket.{BucketConfig}
use rateforge.Bucket.Life.{IsUsable}
use rateforge.Store.Pending.{update_client_config_lem}
use rateforge.Server.Admin.Merged.{Merged, normalize-merge}
use rateforge.Agenda.{Agenda}
use rateforge.Bucket.Valid.{IsClock}
use rateforge.Store.{BucketStore}
use rateforge.Store.Admin.{
  tier_config, update_client_config, block, unblock, set_global_config, disable_global,
}
use rateforge.Store.Safe.Reach.{Step, configures, blocks, unblocks, limits_all, frees_all}
use rateforge.Audit.{Snapshot}
use rateforge.Server.Admin.{
  AdminRequest, UpdateConfigRequest, GlobalConfigRequest, snapshot, read_admin_body, merge,
  global_config_of, Handler, to_update_config, to_block, to_unblock, to_status, to_list_clients,
  to_global_config, to_fairness,
}

-- The handlers that only read.
abbrev pub Reads : Handler → Type 0
Reads to_status = Unit
Reads to_list_clients = Unit
Reads to_fairness = Unit
Reads to_update_config = ⊥
Reads to_block = ⊥
Reads to_unblock = ⊥
Reads to_global_config = ⊥

-- What a handler makes of a store at a time: the store after it, and the key, the action and the
-- configurations before and after that are to be noted.
pub data Change {S : Type 0} ⦃agenda : Agenda S⦄ (decode_update : Str → Option UpdateConfigRequest)
    (decode_global : Str → Option GlobalConfigRequest) (r : AdminRequest) (now : Time)
    (store : BucketStore S)
    : Handler → BucketStore S → Str → Str → Option Snapshot → Option Snapshot → Type 0 where
  config_updated :
      (req : UpdateConfigRequest) (after : BucketConfig)
      → read_admin_body decode_update r ≡ some req
      → Merged req (tier_config r.key req.tier store) after
      → IsUsable after
      → tier_config r.key req.tier (update_client_config r.key req.tier after now store) ≡ after
      → Change decode_update decode_global r now store to_update_config
          (update_client_config r.key req.tier after now store)
          r.key
          (codes "update_config")
          (some (snapshot (tier_config r.key req.tier store)))
          (some (snapshot after))
  client_blocked :
      Change decode_update decode_global r now store to_block
        (block r.key now store)
        r.key
        (codes "block")
        none
        none
  client_unblocked :
      Change decode_update decode_global r now store to_unblock
        (unblock r.key store)
        r.key
        (codes "unblock")
        none
        none
  global_set :
      (req : GlobalConfigRequest) (limit : BucketConfig)
      → read_admin_body decode_global r ≡ some req
      → req.enabled ≡ true
      → limit ≡ record {
        max_tokens = req.max_tokens;
        refill_rate = req.refill_rate;
        refill_interval = mul64 req.refill_interval_ms millisecond;
        tokens_per_request = pos 1;
        sliding_window = none;
      }
      → IsUsable limit
      → Change decode_update decode_global r now store to_global_config
          (set_global_config limit now store)
          (codes "__global__")
          (codes "set_global_config")
          none
          (some (snapshot limit))
  global_disabled :
      (req : GlobalConfigRequest)
      → read_admin_body decode_global r ≡ some req
      → req.enabled ≡ false
      → Change decode_update decode_global r now store to_global_config
          (disable_global store)
          (codes "__global__")
          (codes "disable_global")
          none
          none

pub asked_is :
    (req : GlobalConfigRequest)
    → global_config_of req ≡ record {
      max_tokens = req.max_tokens;
      refill_rate = req.refill_rate;
      refill_interval = mul64 req.refill_interval_ms millisecond;
      tokens_per_request = pos 1;
      sliding_window = none;
    }
unfolding global_config_of
asked_is req = refl

-- What TierConfig reports after a merged configuration is set.
pub stands_after :
    {S : Type 0} ⦃agenda : Agenda S⦄ (r : AdminRequest) (req : UpdateConfigRequest) (now : Time)
    (store : BucketStore S)
    → let after = merge req (tier_config r.key req.tier store) in
      tier_config r.key req.tier (update_client_config r.key req.tier after now store) ≡ after
stands_after r req now store =
    let before = tier_config r.key req.tier store in
    let (_, _, _, reported, _) =
      update_client_config_lem r.key req.tier (merge req before) now store in
    reported ∙ normalize-merge req before

-- At a clock reading the change is a step of the store.
pub Change-Step :
    {S : Type 0} ⦃agenda : Agenda S⦄ {decode_update : Str → Option UpdateConfigRequest}
    {decode_global : Str → Option GlobalConfigRequest} {r : AdminRequest} {now : Time}
    {store : BucketStore S} {h : Handler} {st : BucketStore S} {key action : Str}
    {before after : Option Snapshot}
    → IsClock now
    → Change decode_update decode_global r now store h st key action before after
    → Step store st
Change-Step {r = r} {now = now} {store = store} c
      (config_updated req after read merged usable told) =
    configures r.key req.tier after now store usable c
Change-Step {r = r} {now = now} {store = store} c client_blocked = blocks r.key now store c
Change-Step {r = r} {store = store} c client_unblocked = unblocks r.key store
Change-Step {now = now} {store = store} c (global_set req limit read on is usable) =
    limits_all limit now store usable c
Change-Step {store = store} c (global_disabled req read off) = frees_all store
