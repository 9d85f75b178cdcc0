-- ===== src/Bucket/Life.antt =====
-- Validity under New and UpdateConfig, and the effect of Block and Unblock.
use rateforge.Base.{
  ◌≡◌, refl, false, arith, if◌then◌else◌, Option, none, some, Bool-cases, inl, inr,
}
use rateforge.Base.Int.{pos, ◌≤ℤ◌, ltb_ℤ, leb_ℤ, InRange, wrap64_id}
use rateforge.Time.{Time, unix_nano}
use rateforge.Window
use rateforge.Window.{WindowConfig}
use rateforge.Window.Valid
use rateforge.Bucket.{
  BucketConfig, Bucket, normalize, build_window, new, update_config, block, unblock, allow,
  is_blocked,
}
use rateforge.Bucket.Valid.{IsClock, IsTame}
use rateforge.Bucket.Refine.{IsValid, WindowIsValid, WindowIsFine}

-- A configuration that the arithmetic of a bucket can bear. TokensPerRequest may be anything.
pub record IsUsable (cfg : BucketConfig) : Type 0 where
  pub tame : IsTame cfg
  pub cost : InRange cfg.tokens_per_request
  pub window : WindowIsFine cfg.sliding_window

build_window-IsValid : (o : Option WindowConfig) → WindowIsFine o → WindowIsValid (build_window o)
unfolding build_window Window.new
build_window-IsValid none h = tt
build_window-IsValid (some w) h = elim (Bool-cases w.enabled) [
  | inl on ↦ rw on (Valid.new-IsValid w h.0 h.1)
  | inr off ↦ rw off tt
]

record Normalized (cfg : BucketConfig) (n : BucketConfig) : Type 0 where
  tame : IsTame n
  cost : (pos 1 ≤ℤ n.tokens_per_request) × InRange n.tokens_per_request
  window : WindowIsFine n.sliding_window
  cap : n.max_tokens ≡ cfg.max_tokens

normalize-Normalized : (cfg : BucketConfig) → IsUsable cfg → Normalized cfg (normalize cfg)
unfolding normalize
normalize-Normalized cfg u = elim (Bool-cases (leb_ℤ cfg.tokens_per_request (pos 0))) [
  | inl low ↦ rw low (record {
    tame = record {
      cap = u.tame.cap;
      rate = u.tame.rate;
      pace = u.tame.pace;
      interval = u.tame.interval;
    };
    cost = omega arith;
    window = u.window;
    cap = refl;
  })
  | inr fine ↦
      rw fine
        (record { tame = u.tame; cost = (ground arith, u.cost); window = u.window; cap = refl })
]

-- New with a usable configuration at a clock reading makes a valid bucket, full, refilled last at
-- that time, and not blocked.
pub new-IsValid :
    (cfg : BucketConfig) (now : Time)
    → IsUsable cfg
    → IsClock now
    → IsValid (new cfg now)
      × ((new cfg now).tokens ≡ cfg.max_tokens)
      × ((new cfg now).last_refill_time ≡ now)
      × ((new cfg now).blocked ≡ false)
unfolding new
new-IsValid cfg now u c =
    let n = normalize-Normalized cfg u in
    let clock : unix_nano now ≡ now = wrap64_id now (ground arith) in
    (
      record {
        tame = n.tame;
        cost = n.cost;
        level = ground (arith, n.tame.cap);
        clock = rw clock c;
        gate = build_window-IsValid _ n.window;
        fine = n.window;
      },
      n.cap,
      clock,
      refl,
    )

-- UpdateConfig with a usable configuration keeps a bucket valid, keeps its balance, cut to the new
-- capacity, and leaves the block and the time of the last refill.
pub update_config-IsValid :
    (cfg : BucketConfig) (b : Bucket)
    → IsUsable cfg
    → IsValid b
    → let b' = update_config cfg b in
      IsValid b'
      × (b'.tokens ≡ (if ltb_ℤ cfg.max_tokens b.tokens then cfg.max_tokens else b.tokens))
      × (b'.blocked ≡ b.blocked)
      × (b'.last_refill_time ≡ b.last_refill_time)
unfolding update_config
update_config-IsValid cfg b u v =
    let n = normalize-Normalized cfg u in
    (
      record {
        tame = n.tame;
        cost = n.cost;
        level = ground (arith, n.tame.cap, v.level);
        clock = v.clock;
        gate = build_window-IsValid _ n.window;
        fine = n.window;
      },
      rw n.cap,
      refl,
      refl,
    )

-- A blocked bucket refuses every request at once and unchanged, whatever its balance; unblocking
-- gives back the bucket that was blocked.
pub block_lem :
    (now : Time) (b : Bucket)
    → (allow now (block b) ≡ ((false, pos 0), block b))
      × (unblock (block b) ≡ unblock b)
      × (is_blocked (unblock b) ≡ false)
unfolding allow block unblock is_blocked
block_lem now b = (refl, refl, refl)
