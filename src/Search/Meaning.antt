-- ===== src/Search/Meaning.antt =====
-- What the binary search answers on a vector in order.
use bl_nova_lsm.Common.{
  ℕ, zero, suc, ◌+◌, ◌-◌, ◌/◌, ◌≤◌, ◌<◌, ◌≡◌, ◌≢◌, ◌>>=◌, inl, inr, Option, none, some, ltb, arith,
  Bool-cases,
}
use bl_nova_lsm.Search.{turn, Side, below, above, inside, search_loop, search}

-- Every element of the vector has a side; what lies right of one that is below, and left of one
-- that is above, does not hold the key.
pub record Monotone (probe : ℕ → Option Side) (size : ℕ) : Type 0 where
  pub side : (i : ℕ) → i < size → (s : Side) × (probe i ≡ some s)
  pub right_of_below : (i j : ℕ) → i ≤ j → j < size → probe i ≡ some below → probe j ≢ some inside
  pub left_of_above : (i j : ℕ) → j ≤ i → i < size → probe i ≡ some above → probe j ≢ some inside

-- The outcome tells whether an element holds the key, and names one that does.
abbrev pub Answers : (ℕ → Option Side) → ℕ → Option (Option ℕ) → Type 0
Answers probe size none = ⊥
Answers probe size (some none) = (i : ℕ) → i < size → probe i ≢ some inside
Answers probe size (some (some m)) = (m < size) × (probe m ≡ some inside)

module _ (probe : ℕ → Option Side) (size : ℕ) where
  turn-Answers :
      (m : ℕ) (left right : Option (Option ℕ))
      → (s : Side) × (probe m ≡ some s)
      → (probe m ≡ some below → Answers probe size left)
      → (probe m ≡ some above → Answers probe size right)
      → (probe m ≡ some inside → (m < size) × (probe m ≡ some inside))
      → Answers probe size (probe m >>= λ side. turn side left right m)
  turn-Answers m left right (below, e) hl hr hm = rw e (hl e)
  turn-Answers m left right (above, e) hl hr hm = rw e (hr e)
  turn-Answers m left right (inside, e) hl hr hm = rw e (hm e)

module _ (probe : ℕ → Option Side) (size : ℕ) (mono : Monotone probe size) where
  search_loop-Answers :
      (fuel l hi : ℕ)
      → hi - l < fuel
      → hi ≤ size
      → ((i : ℕ) → i < l → probe i ≢ some inside)
      → ((i : ℕ) → hi ≤ i → i < size → probe i ≢ some inside)
      → Answers probe size (search_loop probe fuel l hi)
  unfolding search_loop
  search_loop-Answers zero l hi hf hs lo up = absurd (omega arith)
  search_loop-Answers (suc fuel) l hi hf hs lo up = elim (Bool-cases (ltb l hi)) [
    | inl go ↦
        let m : ℕ = l + (hi - 1 - l) / 2 in
        let in_left : l ≤ m = omega arith in
        let in_right : m < hi = ground arith in
        rw go (
          turn-Answers probe size m _ _ (mono.side m (omega arith))
            (λ e.
              search_loop-Answers fuel l m (omega arith) (omega arith) lo
                (λ i hi' hs'. mono.right_of_below m i hi' hs' e))
            (λ e.
              search_loop-Answers fuel (m + 1) hi (ground arith) hs
                (λ i h. mono.left_of_above m i (omega arith) (omega arith) e) up)
            (λ e. (omega arith, e)))
    | inr stop ↦ rw stop (λ i h. elim (Bool-cases (ltb i l)) [
      | inl left ↦ lo i (ground arith)
      | inr right ↦ up i (ground arith) h
    ])
  ]

  -- The search gives an answer, and the answer is right.
  pub search-Answers : Answers probe size (search probe size)
  unfolding search
  search-Answers =
      search_loop-Answers (size + 1) 0 size (omega arith) (omega arith)
        (λ i h. absurd (omega arith)) (λ i h k. absurd (omega arith))
