-- ===== src/Bucket/Race/Tests.antt =====
-- Interleaved calls at concrete values.
use rateforge.Base.{
  ℕ, ◌+◌, ◌-◌, ◌*◌, ◌/◌, ◌≤◌, ◌≡◌, refl, false, inl, Option, none, some, List, [], ◌∷◌, arith,
  get_elem?, set,
}
use rateforge.Base.Int.{pos, pos_part, ◌+ℤ◌, ◌-ℤ◌, ◌*ℤ◌, wrap64, add64, sub64, mul64, div64, quot}
use rateforge.Time.{Time, sub_time}
use rateforge.Window
use rateforge.Window.{SlidingWindow}
use rateforge.Bucket.{BucketConfig, Bucket, request_cost, retry_after}
use rateforge.Bucket.Refine.{IsValid}
use rateforge.Bucket.Race.{
  Call, System, Reach, advance, refilled, entering, due, granted, request, access, start, later,
}
use rateforge.Bucket.{allow, scheduled_refill}
use rateforge.Bucket.Race.{returned, finished}
use rateforge.Bucket.Race.Alone.{Runs, iterate-allow}
use rateforge.Bucket.Race.Bound.{Reach-bounded}

-- The next access of the call at `i`, if there is one.
move : ℕ → Option Call → System → System
move i none s = s
move i (some c) s = record {
  bucket = (advance c s.bucket).1;
  calls = set s.calls i (advance c s.bucket).0;
}

turn : ℕ → System → System
unfolding move
turn i s = move i (get_elem? s.calls i) s

move-Reach :
    {end : Time} {b : Bucket} (i : ℕ) (o : Option Call) (s : System)
    → get_elem? s.calls i ≡ o
    → Reach end b s
    → Reach end b (move i o s)
unfolding move
move-Reach i none s e r = r
move-Reach i (some c) s e r = later r (access i c e)

turns : List ℕ → System → System
turns [] s = s
turns (i ∷ is) s = turns is (turn i s)

turns-Reach :
    {end : Time} {b : Bucket} (is : List ℕ) (s : System) → Reach end b s → Reach end b (turns is s)
unfolding turns turn
turns-Reach [] s r = r
turns-Reach (i ∷ is) s r = turns-Reach is (turn i s) (move-Reach i (get_elem? s.calls i) s refl r)

-- Ten tokens, five more every hundred nanoseconds, four for a request.
abbrev plain_config : BucketConfig
plain_config = record {
  max_tokens = pos 10;
  refill_rate = pos 5;
  refill_interval = pos 100;
  tokens_per_request = pos 4;
  sliding_window = none;
}

abbrev part_used : Bucket
part_used = record {
  config = plain_config;
  tokens = pos 1;
  last_refill_time = pos 1000;
  blocked = false;
  last_access_time = pos 1000;
  created_at = pos 0;
  window = none;
}

part_used-IsValid : IsValid part_used
part_used-IsValid = record {
  tame = record {
    cap = omega arith;
    rate = omega arith;
    pace = inl (omega arith);
    interval = omega arith;
  };
  cost = omega arith;
  level = omega arith;
  clock = omega arith;
  gate = tt;
  fine = tt;
}

-- Two requests of the same time that race for the refill and for the balance: the tokens suffice for
-- one of them.
abbrev two_requests : System
two_requests = record { bucket = part_used; calls = entering (pos 1150) ∷ entering (pos 1150) ∷ [] }

two_requests-Reach : Reach (pos 1150) part_used two_requests
two_requests-Reach =
    later (later start (request (pos 1150) (omega arith))) (request (pos 1150) (omega arith))

abbrev alternating : List ℕ
alternating =
    0 ∷ 1 ∷ 0 ∷ 1 ∷ 0 ∷ 1 ∷ 0 ∷ 1 ∷ 0 ∷ 1 ∷ 0 ∷ 1 ∷ 0 ∷ 1 ∷ 0 ∷ 1 ∷ 0 ∷ 1 ∷ 0 ∷ 1 ∷ 0 ∷ 1 ∷ 0 ∷ 1
    ∷ []

abbrev contended : System
contended = turns alternating two_requests

contended-granted : granted contended.calls ≡ 1
unfolding turns turn advance refilled sub_time div64 mul64 add64 sub64 wrap64 quot ◌+ℤ◌ ◌-ℤ◌ ◌*ℤ◌
    request_cost retry_after
contended-granted = refl

Reach-bounded_example :
    granted contended.calls * 4 + pos_part contended.bucket.tokens ≤ 1 + (1150 - 1000) / 100 * 5
Reach-bounded_example =
    Reach-bounded (pos 1150) part_used contended part_used-IsValid (omega arith)
      (turns-Reach alternating two_requests two_requests-Reach)

-- A full bucket with a window that lets no further request pass. A refill comes between the payment of a
-- request and its refund, and the balance ends above the capacity.
abbrev gated : Bucket
gated = record part_used {
  tokens = pos 10;
  window = some (record {
    timestamps = pos 1049 ∷ [];
    window_size = pos 1000;
    max_requests = pos 1;
    head = 0;
    count = 1;
  });
}

abbrev refund_and_refill : System
refund_and_refill = record { bucket = gated; calls = entering (pos 1050) ∷ due (pos 1150) ∷ [] }

refund_above_cap :
    (turns (0 ∷ 0 ∷ 0 ∷ 0 ∷ 0 ∷ 0 ∷ 1 ∷ 1 ∷ 1 ∷ 1 ∷ 1 ∷ 0 ∷ 0 ∷ []) refund_and_refill).bucket.tokens
    ≡ pos 14
unfolding turns turn advance refilled sub_time div64 mul64 add64 sub64 wrap64 quot ◌+ℤ◌ ◌-ℤ◌ ◌*ℤ◌
    request_cost retry_after Window.allow Window.compact_locked Window.compact_loop
refund_above_cap = refl

iterate-allow_example :
    Runs 11
      (entering (pos 1150))
      part_used
      (let (answer, b') = allow (pos 1150) part_used in (returned answer, b'))
    × Runs 5 (due (pos 1150)) part_used (finished, scheduled_refill (pos 1150) part_used)
iterate-allow_example = iterate-allow (pos 1150) part_used
