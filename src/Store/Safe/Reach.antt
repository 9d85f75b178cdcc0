-- ===== src/Store/Safe/Reach.antt =====
-- The stores that the program can reach: the operations as steps.
use rateforge.Base.{Bool, [], ◌∷◌, if◌then◌else◌, Str, either, Option-cases, inl, inr}
use rateforge.Time.{Time, is_zero}
use rateforge.Dict
use rateforge.Dict.{Dict, AllValues}
use rateforge.Agenda.{Agenda}
use rateforge.Bucket
use rateforge.Bucket.{Bucket, BucketConfig}
use rateforge.Bucket.Valid.{IsClock}
use rateforge.Bucket.Refine.{IsValid}
use rateforge.Bucket.Life.{IsUsable, new-IsValid}
use rateforge.Multibucket
use rateforge.Multibucket.{ClientBuckets, tier_or_default}
use rateforge.Multibucket.Laws.{AllValid, configure-AllValid}
use rateforge.Store.{BucketStore, AllowRequest, Options, new, attach_scheduler}
use rateforge.Store.Serve.{allow, on_due}
use rateforge.Store.Admin.{
  unblock, ensure_client, update_client_config, block, set_global_config, disable_global,
  set_ip_limit,
}
use rateforge.Store.Safe.{IsSound, new-IsSound, on_due-IsSound}
use rateforge.Store.Safe.Create.{get_or_create_client-IsSound}
use rateforge.Store.Safe.Serve.{allow-IsSound}

-- One operation of the store. Configurations come validated, and times from the clock.
pub data Step {S : Type 0} ⦃agenda : Agenda S⦄ : BucketStore S → BucketStore S → Type 0 where
  attaches : (sched : S) (s : BucketStore S) → Step s (attach_scheduler sched s)
  serves :
      (clock : Time) (req : AllowRequest) (s : BucketStore S)
      → IsClock (if is_zero req.now then clock else req.now)
      → Step s (allow clock req s).1
  falls_due : (id : Str) (t : Time) (s : BucketStore S) → IsClock t → Step s (on_due id t s).1
  configures :
      (key tier : Str) (cfg : BucketConfig) (now : Time) (s : BucketStore S)
      → IsUsable cfg
      → IsClock now
      → Step s (update_client_config key tier cfg now s)
  blocks : (key : Str) (now : Time) (s : BucketStore S) → IsClock now → Step s (block key now s)
  unblocks : (key : Str) (s : BucketStore S) → Step s (unblock key s)
  limits_all :
      (cfg : BucketConfig) (now : Time) (s : BucketStore S)
      → IsUsable cfg
      → IsClock now
      → Step s (set_global_config cfg now s)
  frees_all : (s : BucketStore S) → Step s (disable_global s)
  limits_ips :
      (enabled : Bool) (cfg : BucketConfig) (s : BucketStore S)
      → IsUsable cfg
      → Step s (set_ip_limit enabled cfg s)

pub data Reachable {S : Type 0} ⦃agenda : Agenda S⦄ (opts : Options) : BucketStore S → Type 0 where
  starts : Reachable opts (new opts)
  steps : {s t : BucketStore S} → Reachable opts s → Step s t → Reachable opts t

block-IsValid : (b : Bucket) → IsValid b → IsValid (Bucket.block b)
unfolding Bucket.block
block-IsValid b v = record {
  tame = v.tame;
  cost = v.cost;
  level = v.level;
  clock = v.clock;
  gate = v.gate;
  fine = v.fine;
}

unblock-IsValid : (b : Bucket) → IsValid b → IsValid (Bucket.unblock b)
unfolding Bucket.unblock
unblock-IsValid b v = record {
  tame = v.tame;
  cost = v.cost;
  level = v.level;
  clock = v.clock;
  gate = v.gate;
  fine = v.fine;
}

map_values-AllValues :
    (f : Bucket → Bucket) (m : Dict Bucket)
    → ((b : Bucket) → IsValid b → IsValid (f b))
    → AllValues IsValid m
    → AllValues IsValid (Multibucket.map_values f m)
unfolding Multibucket.map_values
map_values-AllValues f [] h v = tt
map_values-AllValues f ((t, b) ∷ m) h v = (h b v.0, map_values-AllValues f m h v.1)

module _ {S : Type 0} where
  -- New buckets for one client.
  put_client-IsSound :
      (key : Str) (cb : ClientBuckets) (s : BucketStore S)
      → AllValid cb
      → IsSound s
      → IsSound (record s { clients = Dict.insert key cb s.clients })
  put_client-IsSound key cb s h v = record {
    defaults = v.defaults;
    clients = Dict.AllValues-insert AllValid key cb s.clients h v.clients;
    global = v.global;
    ips = v.ips;
    ip_config = v.ip_config;
  }

  unblock-IsSound : (key : Str) (s : BucketStore S) → IsSound s → IsSound (unblock key s)
  unfolding unblock Multibucket.unblock_all
  unblock-IsSound key s v = elim (Option-cases (Dict.lookup key s.clients)) [
    | inl e ↦ rw (e, unblock) v
    | inr (cb, e) ↦
        let valid = Dict.AllValues-lookup AllValid key cb s.clients e v.clients in
        rw (e, unblock)
          (put_client-IsSound key (Multibucket.unblock_all cb) s
            (map_values-AllValues Bucket.unblock cb.buckets unblock-IsValid valid) v)
  ]

  set_ip_limit-IsSound :
      ⦃agenda : Agenda S⦄
      → (enabled : Bool) (cfg : BucketConfig) (s : BucketStore S) → IsUsable cfg
      → IsSound s
      → IsSound (set_ip_limit enabled cfg s)
  unfolding set_ip_limit
  set_ip_limit-IsSound enabled cfg s u v =
      either IsSound enabled
        (record {
          defaults = v.defaults;
          clients = v.clients;
          global = v.global;
          ips = v.ips;
          ip_config = u;
        })
        (record {
          defaults = v.defaults;
          clients = v.clients;
          global = v.global;
          ips = tt;
          ip_config = u;
        })

module _ {S : Type 0} ⦃agenda : Agenda S⦄ where
  block-IsSound :
      (key : Str) (now : Time) (s : BucketStore S)
      → IsSound s
      → IsClock now
      → IsSound (block key now s)
  unfolding block ensure_client Multibucket.block_all
  block-IsSound key now s v c =
      let (h, w) = get_or_create_client-IsSound key now s v c in
      put_client-IsSound key _ _ (map_values-AllValues Bucket.block _ block-IsValid h) w

  update_client_config-IsSound :
      (key tier : Str) (cfg : BucketConfig) (now : Time) (s : BucketStore S)
      → IsSound s
      → IsUsable cfg
      → IsClock now
      → IsSound (update_client_config key tier cfg now s)
  unfolding update_client_config ensure_client
  update_client_config-IsSound key tier cfg now s v u c =
      let (h, w) = get_or_create_client-IsSound key now s v c in
      let valid = configure-AllValid (tier_or_default tier) cfg now _ u c h in
      record {
        defaults = w.defaults;
        clients = Dict.AllValues-insert AllValid key _ _ valid w.clients;
        global = w.global;
        ips = w.ips;
        ip_config = w.ip_config;
      }

  set_global_config-IsSound :
      (cfg : BucketConfig) (now : Time) (s : BucketStore S)
      → IsSound s
      → IsUsable cfg
      → IsClock now
      → IsSound (set_global_config cfg now s)
  unfolding set_global_config
  set_global_config-IsSound cfg now s v u c = record {
    defaults = v.defaults;
    clients = v.clients;
    global = (new-IsValid cfg now u c).0;
    ips = v.ips;
    ip_config = v.ip_config;
  }

  disable_global-IsSound : (s : BucketStore S) → IsSound s → IsSound (disable_global s)
  unfolding disable_global
  disable_global-IsSound s v = record {
    defaults = v.defaults;
    clients = v.clients;
    global = tt;
    ips = v.ips;
    ip_config = v.ip_config;
  }

  attach_scheduler-IsSound :
      (x : S) (s : BucketStore S) → IsSound s → IsSound (attach_scheduler x s)
  unfolding attach_scheduler
  attach_scheduler-IsSound x s v = record {
    defaults = v.defaults;
    clients = v.clients;
    global = v.global;
    ips = v.ips;
    ip_config = v.ip_config;
  }

  pub Step-IsSound : {s t : BucketStore S} → Step s t → IsSound s → IsSound t
  Step-IsSound (attaches x s) v = attach_scheduler-IsSound x s v
  Step-IsSound (serves clock req s c) v = allow-IsSound clock req s v c
  Step-IsSound (falls_due id t s c) v = on_due-IsSound t s v c id
  Step-IsSound (configures key tier cfg now s u c) v =
      update_client_config-IsSound key tier cfg now s v u c
  Step-IsSound (blocks key now s c) v = block-IsSound key now s v c
  Step-IsSound (unblocks key s) v = unblock-IsSound key s v
  Step-IsSound (limits_all cfg now s u c) v = set_global_config-IsSound cfg now s v u c
  Step-IsSound (frees_all s) v = disable_global-IsSound s v
  Step-IsSound (limits_ips enabled cfg s u) v = set_ip_limit-IsSound enabled cfg s u v

  -- Every store that is reached from a new one with usable tier defaults, by any sequence of
  -- AttachScheduler, Allow, OnDue, UpdateClientConfig, Block, Unblock, SetGlobalConfig,
  -- DisableGlobal and SetIPLimit at clock readings and with usable configurations, is sound: all
  -- its buckets are valid and all its configurations usable.
  pub Reachable-IsSound :
      {opts : Options} {s : BucketStore S}
      → AllValues IsUsable opts.tier_defaults
      → Reachable opts s
      → IsSound s
  Reachable-IsSound {opts} u starts = new-IsSound opts u
  Reachable-IsSound u (steps r step) = Step-IsSound step (Reachable-IsSound u r)
