-- ===== src/Bucket/Tests.antt =====
-- The bucket's theorems at concrete values.
use rateforge.Base.{
  ◌+◌, ◌-◌, ◌*◌, ◌/◌, ◌≤◌, ◌≡◌, refl, Bool, true, false, inl, none, some, List, [], ◌∷◌, arith,
}
use rateforge.Base.Int.{pos, ◌+ℤ◌, ◌-ℤ◌, ◌*ℤ◌, wrap64, add64, sub64, mul64, div64, quot}
use rateforge.Time.{sub_time}
use rateforge.Bucket.{
  BucketConfig, Bucket, allow, request_cost, refreshed, lazy_refill, retry_after, scheduled_refill,
}
use rateforge.Bucket.Meter.{Meter, serve, refill}
use rateforge.Bucket.Valid.{IsClock, IsTame}
use rateforge.Bucket.Refine.{view, IsValid}
use rateforge.Bucket.Allow.{allow_refines, allow-scheduled_refill}
use rateforge.Bucket.Bound.{Event, request, refill_due, run, run_bounded}
use rateforge.Bucket.Life.{IsUsable}
use rateforge.Bucket.Retry.{retry_granted}

-- Ten tokens, five more every hundred nanoseconds, four for a request.
abbrev plain_config : BucketConfig
plain_config = record {
  max_tokens = pos 10;
  refill_rate = pos 5;
  refill_interval = pos 100;
  tokens_per_request = pos 4;
  sliding_window = none;
}

abbrev part_used : Bucket
part_used = record {
  config = plain_config;
  tokens = pos 1;
  last_refill_time = pos 1000;
  blocked = false;
  last_access_time = pos 1000;
  created_at = pos 0;
  window = none;
}

plain_config-IsTame : IsTame plain_config
plain_config-IsTame = record {
  cap = omega arith;
  rate = omega arith;
  pace = inl (omega arith);
  interval = omega arith;
}

part_used-IsValid : IsValid part_used
part_used-IsValid = record {
  tame = plain_config-IsTame;
  cost = omega arith;
  level = omega arith;
  clock = omega arith;
  gate = tt;
  fine = tt;
}

-- The same with a second gate and no request cost given.
abbrev windowed_config : BucketConfig
windowed_config = record plain_config {
  max_tokens = pos 0;
  tokens_per_request = pos 0;
  sliding_window = some (record {
    enabled = true;
    window_duration = pos 50;
    max_requests = pos 2;
    buffer_size = pos 8;
  });
}

windowed_config-IsUsable : IsUsable windowed_config
windowed_config-IsUsable = record {
  tame = record {
    cap = omega arith;
    rate = omega arith;
    pace = inl (omega arith);
    interval = omega arith;
  };
  cost = omega arith;
  window = omega arith;
}

abbrev four_events : List Event
four_events =
    request (pos 1010) ∷ refill_due (pos 1100) ∷ request (pos 1150) ∷ request (pos 1250) ∷ []

run_bounded_example :
    ((run four_events part_used).0 * 4 ≤ 1 + (1300 - 1000) / 100 * 5)
    × IsValid (run four_events part_used).1
run_bounded_example = run_bounded (pos 1300) four_events part_used part_used-IsValid (omega arith)

allow_refines_example :
    (◌≡◌ {A = Bool × Meter}
      ((allow (pos 1150) part_used).0.0, view (allow (pos 1150) part_used).1)
      (true, record (view part_used) { level = 2; since = 1100 }))
    × IsValid (allow (pos 1150) part_used).1
unfolding serve refill
allow_refines_example = allow_refines (pos 1150) part_used part_used-IsValid (omega arith)

allow-scheduled_refill_example :
    ((allow (pos 1250) (scheduled_refill (pos 1150) part_used)).0 ≡ (allow (pos 1250) part_used).0)
    × (false ≡ false
        → allow (pos 1250) (scheduled_refill (pos 1150) part_used) ≡ allow (pos 1250) part_used)
allow-scheduled_refill_example =
    allow-scheduled_refill (pos 1150) (pos 1250) part_used part_used-IsValid (omega arith)
      (omega arith) (omega arith)

-- A request that is three tokens short.
short_refused :
    ((allow (pos 1010) part_used).0.0 ≡ false) × ((allow (pos 1010) part_used).0.1 ≡ pos 100)
unfolding allow request_cost refreshed lazy_refill retry_after sub_time add64 sub64 mul64 div64 quot
    wrap64 ◌+ℤ◌ ◌-ℤ◌ ◌*ℤ◌
short_refused = (refl, refl)

short_later : IsClock (pos 1010 +ℤ (allow (pos 1010) part_used).0.1)
unfolding ◌+ℤ◌
short_later = rw (short_refused.1) (omega arith)

retry_granted_example :
    (allow (pos 1010 +ℤ (allow (pos 1010) part_used).0.1) (allow (pos 1010) part_used).1).0.0 ≡ true
retry_granted_example =
    retry_granted (pos 1010) part_used part_used-IsValid (omega arith) (omega arith) refl refl
      (omega arith) (omega arith) (omega arith) (omega arith) short_refused.0 short_later
