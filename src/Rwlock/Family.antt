-- ===== src/Rwlock/Family.antt =====
-- Numbered threads: changing one, and sums over the first of them.
use go_playit.Base.{
  ℕ, zero, suc, ◌+◌, ◌<◌, ◌≤◌, ◌≡◌, ◌≢◌, ◌⊎◌, inl, inr, refl, Bool, true, false, Bool-cases, ◌==◌,
  arith, if◌then◌else◌, ==_refl,
}

module _ {A : Type 0} where
  unfoldable pub update : (ℕ → A) → ℕ → A → ℕ → A
  update g i x j = if j == i then x else g j

  pub update_same : (g : ℕ → A) (i : ℕ) (x : A) → update g i x i ≡ x
  unfolding update
  update_same g i x = rw (==_refl i) refl

  pub update_other : (g : ℕ → A) (i : ℕ) (x : A) (j : ℕ) → j ≢ i → update g i x j ≡ g j
  unfolding update
  update_other g i x j h = ground (arith, h)

  -- The sum of a measure over the threads below a number.
  pub total : (A → ℕ) → ℕ → (ℕ → A) → ℕ
  total f zero g = 0
  total f (suc n) g = f (g n) + total f n g

  pub total-update_other :
      (f : A → ℕ) (n i : ℕ) (g : ℕ → A) (x : A) → n ≤ i → total f n (update g i x) ≡ total f n g
  unfolding total
  total-update_other f zero i g x h = refl
  total-update_other f (suc n) i g x h =
      rw (update_other g i x n (omega arith), total-update_other f n i g x (omega arith)) refl

  -- A change of one thread changes the sum by what it changes of this thread.
  pub total-update :
      (f : A → ℕ) (n i : ℕ) (g : ℕ → A) (x : A)
      → i < n
      → total f n (update g i x) + f (g i) ≡ total f n g + f x
  unfolding total
  total-update f zero i g x h = absurd (omega arith)
  total-update f (suc n) i g x h = elim (Bool-cases (n == i)) [
    | inl e ↦
        let n_i : n ≡ i = ground (arith, e) in
        rw (n_i, update_same g i x, total-update_other f i i g x (omega arith)) (omega arith)
    | inr e ↦
        let other : n ≢ i = ground (arith, e) in
        let step = total-update f n i g x (ground (arith, other, h)) in
        rw (update_other g i x n other) (omega (arith, step))
  ]

  pub total-member : (f : A → ℕ) (n i : ℕ) (g : ℕ → A) → i < n → f (g i) ≤ total f n g
  unfolding total
  total-member f zero i g h = absurd (omega arith)
  total-member f (suc n) i g h = elim (Bool-cases (n == i)) [
    | inl e ↦ let n_i : n ≡ i = ground (arith, e) in rw n_i (omega arith)
    | inr e ↦ let rest = total-member f n i g (ground (arith, e, h)) in omega (arith, rest)
  ]

  pub total-pair :
      (f : A → ℕ) (n i j : ℕ) (g : ℕ → A) → i < n → j < n → i ≢ j → f (g i) + f (g j) ≤ total f n g
  unfolding total
  total-pair f zero i j g h k d = absurd (omega arith)
  total-pair f (suc n) i j g h k d = elim (Bool-cases (n == i)) [
    | inl e ↦
        let n_i : n ≡ i = ground (arith, e) in
        let rest = total-member f n j g (ground (arith, n_i, d, k)) in
        let same : f (g n) ≡ f (g i) = cc n_i in omega (arith, rest, same)
    | inr e ↦ elim (Bool-cases (n == j)) [
      | inl e' ↦
          let n_j : n ≡ j = ground (arith, e') in
          let rest = total-member f n i g (ground (arith, e, h)) in
          let same : f (g n) ≡ f (g j) = cc n_j in omega (arith, rest, same)
      | inr e' ↦
          let rest = total-pair f n i j g (ground (arith, e, h)) (ground (arith, e', k)) d in
          omega (arith, rest)
    ]
  ]

  pub total-eq_zero :
      (f : A → ℕ) (n : ℕ) (g : ℕ → A) → ((i : ℕ) → i < n → f (g i) ≡ 0) → total f n g ≡ 0
  unfolding total
  total-eq_zero f zero g h = refl
  total-eq_zero f (suc n) g h =
      let rest = total-eq_zero f n g (λ i l. h i (omega arith)) in
      omega (arith, rest, h n (omega arith))

  -- The first threads either have one that passes a test, or none.
  pub search :
      (p : A → Bool) (n : ℕ) (g : ℕ → A)
      → ((i : ℕ) × (i < n) × (p (g i) ≡ true)) ⊎ ((i : ℕ) → i < n → p (g i) ≡ false)
  search p zero g = inr (λ i h. absurd (omega arith))
  search p (suc n) g = elim (Bool-cases (p (g n))) [
    | inl e ↦ inl (n, omega arith, e)
    | inr e ↦ elim (search p n g) [
      | inl (i, l, f) ↦ inl (i, omega arith, f)
      | inr none_below ↦ inr (λ i l. elim (Bool-cases (n == i)) [
        | inl same ↦ let n_i : n ≡ i = ground (arith, same) in rw n_i at e
        | inr other ↦ none_below i (ground (arith, other, l))
      ])
    ]
  ]
