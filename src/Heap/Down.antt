-- ===== src/Heap/Down.antt =====
-- Sifting down, and settling an element that may go either way.
use rateforge.Base.{
  ℕ, zero, suc, ◌+◌, ◌-◌, ◌*◌, ◌<◌, ◌≡◌, ◌≢◌, refl, Bool, false, ◌⊎◌, inl, inr, some, arith, ◌==◌,
  ltb, leb, if◌then◌else◌, Bool-cases, lt→ltb,
}
use rateforge.Base.Int.{ℤ, ◌≤ℤ◌, ◌<ℤ◌, ltb_ℤ}
use rateforge.Heap.{SortInterface, parent, smaller_child, down_loop, down, settle}
use rateforge.Heap.Order.{Sifts, IsHeap, IsBridged, UpInv}
use rateforge.Heap.Up.{up_lem}

-- Only the edges above and below `i` may be out of order.
pub record MidInv (n : ℕ) (key : ℕ → ℤ) (i : ℕ) : Type 0 where
  pub edges : (c : ℕ) → 0 < c → c < n → c ≢ i → parent c ≢ i → key (parent c) ≤ℤ key c
  pub bridged : IsBridged n key i

-- A heap whose key at `i` changed.
pub changed-MidInv :
    (n : ℕ) (key key' : ℕ → ℤ) (i : ℕ)
    → IsHeap n key
    → ((c : ℕ) → c < n → c ≢ i → key' c ≡ key c)
    → MidInv n key' i
changed-MidInv n key key' i h same = record {
  edges = λ c p q r t. ground (arith, h c p q, same c q r, same (parent c));
  bridged = λ c p q r t. ground (arith, h c p q, h i t (omega arith), same c, same (parent i));
}

-- The edges below `i` are in order.
abbrev pub IsSettled : ℕ → (ℕ → ℤ) → ℕ → Type 0
IsSettled n key i = (c : ℕ) → 0 < c → c < n → parent c ≡ i → key i ≤ℤ key c

-- `m` is the child of `i` with the smaller key.
record IsSmallerChild (n : ℕ) (key : ℕ → ℤ) (i m : ℕ) : Type 0 where
  inside : m < n
  child : (m ≡ 2 * i + 1) ⊎ (m ≡ 2 * i + 2)
  least : (c : ℕ) → 0 < c → c < n → parent c ≡ i → key m ≤ℤ key c

module _ (n : ℕ) (key key' : ℕ → ℤ) (i m : ℕ)
    (at : (c : ℕ) → key' c ≡ (if m == c then key i else if i == c then key m else key c))
    (s : IsSmallerChild n key i m) (v : MidInv n key i) (below : key m <ℤ key i) where
  swapped-MidInv : MidInv n key' m
  swapped-MidInv = record {
    edges = λ c p q r t.
        ground (arith, at c, at (parent c), v.edges c, v.bridged m, s.least c, s.child, s.inside);
    bridged = λ c p q r t. ground (arith, at c, at (parent m), v.edges c, s.child);
  }

  swapped-above : key' (parent m) ≤ℤ key' m
  swapped-above = ground (arith, at m, at (parent m), s.child)

settled-IsHeap :
    (n : ℕ) (key : ℕ → ℤ) (m : ℕ)
    → MidInv n key m
    → key (parent m) ≤ℤ key m
    → IsSettled n key m
    → IsHeap n key
settled-IsHeap n key m v above low c p q = ground (arith, v.edges c, low c)

module _ {H : Type 0} ⦃slice : SortInterface H⦄ (n : ℕ) (key : H → ℕ → ℤ) (P : H → Type 0)
    (s : Sifts n key P) where
  smaller_child_lem :
      (i : ℕ) (h : H)
      → P h
      → 2 * i + 1 < n
      → (m : ℕ) × (smaller_child i n h ≡ some m) × IsSmallerChild n (key h) i m
  unfolding smaller_child
  smaller_child_lem i h p l = elim (Bool-cases (ltb (2 * i + 1 + 1) n)) [
    | inr single ↦ (
      2 * i + 1,
      rw (single, smaller_child) refl,
      record { inside = l; child = inl refl; least = λ c a b e. ground arith },
    )
    | inl two ↦
        let read = s.less_lem h (2 * i + 1 + 1) (2 * i + 1) p (ground arith) l in
        elim (Bool-cases (ltb_ℤ (key h (2 * i + 1 + 1)) (key h (2 * i + 1)))) [
          | inl right ↦ (
            2 * i + 1 + 1,
            rw (two, read, right, smaller_child) refl,
            record {
              inside = ground arith;
              child = inr (omega arith);
              least = λ c a b e. ground arith;
            },
          )
          | inr left ↦ (
            2 * i + 1,
            rw (two, read, left, smaller_child) refl,
            record { inside = l; child = inl refl; least = λ c a b e. ground arith },
          )
        ]
  ]

  -- The element stays and is settled, or it sinks and the whole is a heap.
  abbrev Sunk : ℕ → H → ℕ × H → Type 0
  Sunk i h r =
      P r.1 × (((r.0 ≡ i) × (r.1 ≡ h) × IsSettled n (key h) i) ⊎ ((i < r.0) × IsHeap n (key r.1)))

  down_loop_lem :
      (k i : ℕ) (h : H)
      → n - i < k
      → P h
      → MidInv n (key h) i
      → (r : ℕ × H) × (down_loop k i n h ≡ some r) × Sunk i h r
  unfolding down_loop
  down_loop_lem zero i h f p v = absurd (omega arith)
  down_loop_lem (suc k) i h f p v = elim (Bool-cases (leb n (2 * i + 1))) [
    | inl leaf ↦
        ((i, h), rw (leaf, down_loop) refl, (p, inl (refl, refl, λ c a b e. absurd (ground arith))))
    | inr inner ↦
        let (m, chosen, child) = smaller_child_lem i h p (ground arith) in
        let hi : i < n = ground arith in
        let read = s.less_lem h m i p child.inside hi in
        elim (Bool-cases (ltb_ℤ (key h m) (key h i))) [
          | inr settled ↦ (
            (i, h),
            rw (inner, chosen, read, settled, down_loop) refl,
            (p, inl (refl, refl, λ c a b e. ground (arith, child.least c))),
          )
          | inl below ↦
              let (h1, swapped, p1, at) = s.swap_lem h i m p hi child.inside in
              let lower : key h m <ℤ key h i = ground arith in
              let v1 = swapped-MidInv n (key h) (key h1) i m at child v lower in
              let above = swapped-above n (key h) (key h1) i m at child v lower in
              let deeper : i < m = ground (arith, child.child) in
              let (r, run, (p', sunk)) = down_loop_lem k m h1 (omega arith) p1 v1 in
              (
                r,
                rw (inner, chosen, read, below, swapped, down_loop) run,
                (
                  p',
                  elim sunk [
                    | inl (e, same, low) ↦
                        inr (ground arith, rw same (settled-IsHeap n (key h1) m v1 above low))
                    | inr (far, heap) ↦ inr (omega arith, heap)
                  ],
                ),
              )
        ]
  ]

  -- Sifting down from the only place that may be out of order, on either side, and up from it if that
  -- moves nothing, restores the heap.
  pub settle_lem :
      (i : ℕ) (h : H)
      → i < n
      → P h
      → MidInv n (key h) i
      → (h' : H) × (settle i n h ≡ some h') × P h' × IsHeap n (key h')
  unfolding settle down
  settle_lem i h l p v =
      let ((j, h1), run, (p1, sunk)) = down_loop_lem (n + 1) i h (omega arith) p v in
      elim sunk [
        | inr (moved, heap) ↦ (h1, rw (run, down, settle, lt→ltb i j moved) refl, p1, heap)
        | inl (still, same, low) ↦
            let flat : ltb i j ≡ false = ground arith in
            let rising : UpInv n (key h1) i = record {
              edges = λ c a b e. rw same (ground (arith, v.edges c, low c));
              bridged = rw same v.bridged;
            } in
            let (h', up_run, p', heap) = up_lem n key P s i h1 l p1 rising in
            (h', rw (run, down, settle, flat) up_run, p', heap)
      ]

  -- Sifting down from the root, where only the edges below it may be out of order.
  pub down_root_lem :
      (h : H)
      → P h
      → MidInv n (key h) 0
      → (r : Bool × H) × (down 0 n h ≡ some r) × P r.1 × IsHeap n (key r.1)
  unfolding down
  down_root_lem h p v =
      let ((j, h1), run, (p1, sunk)) = down_loop_lem (n + 1) 0 h (omega arith) p v in
      (
        (ltb 0 j, h1),
        rw (run, down) refl,
        p1,
        elim sunk [
          | inr (moved, heap) ↦ heap
          | inl (still, same, low) ↦ rw same (λ c a b. ground (arith, v.edges c, low c))
        ],
      )
