-- ===== src/Archiver/Mask/Search.antt =====
-- sort.Search, which archiver/api.go calls, for a property of a tail and for one of a head.
use durandal.Prelude.{
  ℕ, zero, suc, ◌+◌, ◌/◌, ◌≤◌, ◌<◌, ◌≡◌, refl, ◌⊎◌, inl, inr, Bool, true, false, arith, ltb,
  Bool-cases, lt→ltb,
}
use durandal.Archiver.Mask.{search_loop, sort_search}

-- The index splits [0, n) into the indices without the property and those with it.
abbrev pub IsBoundary : ℕ → (ℕ → Bool) → ℕ → Type 0
IsBoundary n f r =
    (r ≤ n) × ((k : ℕ) → k < r → f k ≡ false) × ((k : ℕ) → r ≤ k → k < n → f k ≡ true)

abbrev pub IsTail : ℕ → (ℕ → Bool) → Type 0
IsTail n f = (i k : ℕ) → i ≤ k → k < n → f i ≡ true → f k ≡ true

abbrev pub IsHead : (ℕ → Bool) → Type 0
IsHead f = (i k : ℕ) → i ≤ k → f k ≡ true → f i ≡ true

module _ (n : ℕ) (f : ℕ → Bool) where
  search_loop-IsBoundary :
      IsTail n f
      → (fuel i j : ℕ) → i ≤ j
      → j ≤ n
      → j ≤ i + fuel
      → ((k : ℕ) → k < i → f k ≡ false)
      → ((k : ℕ) → j ≤ k → k < n → f k ≡ true)
      → IsBoundary n f (search_loop fuel f i j)
  unfolding search_loop
  search_loop-IsBoundary tail zero i j ij jn enough low high =
      (omega arith, low, λ k ik kn. high k (omega arith) kn)
  search_loop-IsBoundary tail (suc fuel) i j ij jn enough low high = elim (Bool-cases (ltb i j)) [
    | inr stop ↦ rw stop (omega arith, low, λ k ik kn. high k (ground arith) kn)
    | inl go ↦ elim (Bool-cases (f ((i + j) / 2))) [
      | inl met ↦
          rw (go, met)
            (search_loop-IsBoundary tail fuel i ((i + j) / 2) (ground arith) (ground arith)
              (ground arith) low (λ k hk kn. tail ((i + j) / 2) k hk kn met))
      | inr unmet ↦
          rw (go, unmet)
            (search_loop-IsBoundary tail fuel (suc ((i + j) / 2)) j (ground arith) jn (ground arith)
              (λ k hk. below k hk unmet (ground arith)) high)
    ]
  ]
    where
      below :
          (k : ℕ) → k < suc ((i + j) / 2) → f ((i + j) / 2) ≡ false → (i + j) / 2 < n → f k ≡ false
      below k hk unmet mn = elim (Bool-cases (f k)) [
        | inr e ↦ e
        | inl e ↦ cc (tail k ((i + j) / 2) (omega arith) mn e)
      ]

  -- For a property of a tail the search gives the first index that has it, or the length.
  pub sort_search-IsBoundary : IsTail n f → IsBoundary n f (sort_search n f)
  unfolding sort_search
  sort_search-IsBoundary tail =
      search_loop-IsBoundary tail n 0 n (omega arith) (omega arith) (omega arith)
        (λ k h. absurd (omega arith)) (λ k h h2. absurd (omega arith))

module _ (f : ℕ → Bool) where
  search_loop-all :
      (fuel i j : ℕ)
      → i ≤ j
      → j ≤ i + fuel
      → ((k : ℕ) → i ≤ k → k < j → f k ≡ true)
      → search_loop fuel f i j ≡ i
  unfolding search_loop
  search_loop-all zero i j ij enough h = refl
  search_loop-all (suc fuel) i j ij enough h = elim (Bool-cases (ltb i j)) [
    | inr stop ↦ rw stop refl
    | inl go ↦
        rw (go, h ((i + j) / 2) (ground arith) (ground arith))
          (search_loop-all fuel i ((i + j) / 2) (ground arith) (ground arith)
            (λ k ik kh. h k ik (ground arith)))
  ]

  search_loop-none :
      (fuel i j : ℕ)
      → i ≤ j
      → j ≤ i + fuel
      → ((k : ℕ) → i ≤ k → k < j → f k ≡ false)
      → search_loop fuel f i j ≡ j
  unfolding search_loop
  search_loop-none zero i j ij enough h = omega arith
  search_loop-none (suc fuel) i j ij enough h = elim (Bool-cases (ltb i j)) [
    | inr stop ↦ rw stop (ground arith)
    | inl go ↦
        rw (go, h ((i + j) / 2) (ground arith) (ground arith))
          (search_loop-none fuel (suc ((i + j) / 2)) j (ground arith) (ground arith)
            (λ k ik kj. h k (ground arith) kj))
  ]

  -- For a property of a head the search gives one end or the other: it never finds where the
  -- property ends.
  pub sort_search-head : (n : ℕ) → IsHead f → (sort_search n f ≡ 0) ⊎ (sort_search n f ≡ n)
  unfolding sort_search search_loop
  sort_search-head zero head = inl refl
  sort_search-head (suc n) head = elim (Bool-cases (f ((0 + suc n) / 2))) [
    | inl met ↦ inl (
        rw (lt→ltb 0 (suc n) (omega arith), met)
          (search_loop-all n 0 ((0 + suc n) / 2) (omega arith) (omega arith)
            λ k ik kh. head k ((0 + suc n) / 2) (omega arith) met))
    | inr unmet ↦ inr (
        rw (lt→ltb 0 (suc n) (omega arith), unmet)
          (search_loop-none n (suc ((0 + suc n) / 2)) (suc n) (omega arith) (omega arith)
            (λ k hk kn. after_end k hk unmet)))
  ]
    where
      after_end : (k : ℕ) → suc ((0 + suc n) / 2) ≤ k → f ((0 + suc n) / 2) ≡ false → f k ≡ false
      after_end k hk unmet = elim (Bool-cases (f k)) [
        | inr e ↦ e
        | inl e ↦ cc (head ((0 + suc n) / 2) k (omega arith) e)
      ]
