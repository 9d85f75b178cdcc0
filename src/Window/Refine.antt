-- ===== src/Window/Refine.antt =====
-- A valid window seen as the log of the timestamps that its ring holds.
use native.Mathlib.Decide.{dec_lt}
use native.Mathlib.Nat.{mod-add-mod, mod-eq_of_lt, mod-eq-sub-mod, add-zero, mod-lt}
use rateforge.Base.{
  ℕ, zero, suc, ◌+◌, ◌-◌, ◌%◌, ◌<◌, ◌≡◌, ◌≢◌, refl, ap, ap₂, ◌∙◌, some, arith, List, [], ◌∷◌, ◌++◌,
  length, length-set, get_or, set, get_elem?-eq-get_or, get_or-set_self, get_or-set_ne, sym,
}
use rateforge.Base.Int.{ℤ, pos, sub64}
use rateforge.Time.{Time, unix_nano}
use rateforge.Window.{SlidingWindow, compact_loop, compact_locked, push_locked, allow}
use rateforge.Window.Log.{drop_expired, admit}
use rateforge.Window.Valid.{
  IsValid, push_locked-IsValid, compact_locked-fine, Compacted-IsValid, count-lt-length,
}

-- The `c` entries of a ring of `n` places from index `s` on.
abbrev pub entries : ℕ → List ℤ → ℕ → ℕ → List ℤ
entries n ts s zero = []
entries n ts s (suc c) = get_or ts s (pos 0) ∷ entries n ts ((s + 1) % n) c

-- Where the oldest of the last `c` entries before `head` stands.
abbrev pub oldest : ℕ → ℕ → ℕ → ℕ
oldest n head c = (head + n - c) % n

abbrev pub contents : SlidingWindow → List ℤ
contents w = let n = length w.timestamps in entries n w.timestamps (oldest n w.head w.count) w.count

length-entries : (n : ℕ) (ts : List ℤ) (s c : ℕ) → length (entries n ts s c) ≡ c
length-entries n ts s zero = refl
length-entries n ts s (suc c) = ap suc (length-entries n ts ((s + 1) % n) c)

pub length-contents : (w : SlidingWindow) → length (contents w) ≡ w.count
length-contents w = length-entries (length w.timestamps) w.timestamps _ w.count

-- One step round the ring.
step-oldest : (n head c : ℕ) → c < n → head < n → (oldest n head (suc c) + 1) % n ≡ oldest n head c
step-oldest n head c h k = rw mod-add-mod (ap (λ (t : ℕ). t % n) (omega arith))

compact_loop-drops :
    (cutoff : ℤ) (k : ℕ) (w : SlidingWindow)
    → k < length w.timestamps
    → w.head < length w.timestamps
    → contents (compact_loop cutoff k (oldest (length w.timestamps) w.head k) w).1
      ≡ drop_expired cutoff
          (entries (length w.timestamps) w.timestamps (oldest (length w.timestamps) w.head k) k)
unfolding compact_loop
compact_loop-drops cutoff zero w h l = refl
compact_loop-drops cutoff (suc k) w h l = ground (
  arith,
  get_elem?-eq-get_or w.timestamps (oldest (length w.timestamps) w.head (suc k)) (pos 0)
      (mod-lt (w.head + length w.timestamps - suc k) (omega arith)),
  step-oldest (length w.timestamps) w.head k (omega arith) l,
  compact_loop-drops cutoff k w (omega arith) l,
)

-- Compacting is forgetting what has expired.
pub compact_locked-drops :
    (cutoff : ℤ) {w : SlidingWindow}
    → IsValid w
    → contents (compact_locked cutoff w).1 ≡ drop_expired cutoff (contents w)
unfolding compact_locked
compact_locked-drops cutoff {w} v =
    ground (arith, compact_loop-drops cutoff w.count w (count-lt-length v) v.head_in)

-- An index is not reached again within one round.
around-ne : (n s k : ℕ) → s < n → suc k < n → s ≢ (s + suc k) % n
around-ne n s k h l e = elim (dec_lt (s + suc k) n) [
  | yes p ↦ omega (arith, mod-eq_of_lt p)
  | no p ↦ omega (
    arith,
    mod-eq-sub-mod {n = s + suc k} {m = n} (omega arith),
    mod-eq_of_lt {n = s + suc k - n} {m = n} (omega arith),
  )
]

entries-set :
    (n : ℕ) (ts : List ℤ) (x : ℤ) (c s i : ℕ)
    → n ≡ length ts
    → s < n
    → c < n
    → i ≡ (s + c) % n
    → entries n (set ts i x) s (suc c) ≡ entries n ts s c ++ x ∷ []
entries-set n ts x zero s i m h l e =
    let at : i ≡ s = e ∙ ap (λ (t : ℕ). t % n) (add-zero s) ∙ mod-eq_of_lt h in
    rw (at, get_or-set_self ts s x (pos 0) (omega arith))
entries-set n ts x (suc c) s i m h l e =
    ap₂ ◌∷◌ (get_or-set_ne ts i s x (pos 0) (λ same. around-ne n s c h l (sym same ∙ e))) (
      entries-set n ts x c ((s + 1) % n) i m (mod-lt (s + 1) (omega arith)) (omega arith)
        (e ∙ rw mod-add-mod (ap (λ (t : ℕ). t % n) (omega arith))))

-- The slot that a push fills comes just after the entries.
head-after-oldest : (n h c : ℕ) → h < n → c < n → h ≡ (oldest n h c + c) % n
head-after-oldest n h c p q = rw mod-add-mod (
    omega (
      arith,
      mod-eq-sub-mod {n = h + n - c + c} {m = n} (omega arith),
      mod-eq_of_lt {n = h + n - c + c - n} {m = n} (omega arith),
    ))

-- A push moves the head and not the oldest entry.
oldest-suc : (n h c : ℕ) → h < n → c < n → oldest n ((h + 1) % n) (c + 1) ≡ oldest n h c
oldest-suc n h c p q = elim (dec_lt (h + 1) n) [
  | yes r ↦ rw (mod-eq_of_lt r) (ap (λ (t : ℕ). t % n) (omega arith))
  | no r ↦
      let back : (h + 1) % n ≡ 0 = omega (
        arith,
        mod-eq-sub-mod {n = h + 1} {m = n} (omega arith),
        mod-eq_of_lt {n = h + 1 - n} {m = n} (omega arith),
      ) in
      rw back (
        ap (λ (t : ℕ). t % n) (omega arith)
        ∙ sym (mod-eq-sub-mod {n = h + n - c} {m = n} (omega arith)))
]

-- Pushing is appending.
pub push_locked-appends :
    (ts : ℤ) {w : SlidingWindow} → IsValid w → contents (push_locked ts w).1 ≡ contents w ++ ts ∷ []
unfolding push_locked
push_locked-appends ts {w} v =
    let n = length w.timestamps in
    let full = count-lt-length v in
    ground (
      arith,
      length-set w.timestamps w.head ts,
      oldest-suc n w.head w.count v.head_in full,
      entries-set n w.timestamps ts w.count (oldest n w.head w.count) w.head refl
          (mod-lt (w.head + n - w.count) (omega arith)) full
          (head-after-oldest n w.head w.count v.head_in full),
    )

-- Allow on a valid window answers as the log of its contents does, and leaves the window holding
-- the log that results.
pub allow_refines_log :
    (now : Time) {w : SlidingWindow}
    → IsValid w
    → let (answer, w') = allow now w in
      let nano = unix_nano now in
      let (granted, log) = admit w.max_requests (sub64 nano w.window_size) nano (contents w) in
      (answer ≡ some granted) × (contents w' ≡ log)
unfolding allow admit
allow_refines_log now {w} v =
    let nano = unix_nano now in
    let cutoff = sub64 nano w.window_size in
    let c = (compact_locked cutoff w).1 in
    let done = compact_locked-fine cutoff w v in
    let kept = Compacted-IsValid done.1 v in
    let size = length-contents c in
    ground (
      arith,
      done,
      compact_locked-drops cutoff v,
      size,
      push_locked-IsValid nano c kept,
      push_locked-appends nano kept,
    )
