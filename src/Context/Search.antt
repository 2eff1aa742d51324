-- ===== src/Context/Search.antt =====
-- The binary search of `truncate_to_context_window`, beside trying every length.
use openbotflow.Prelude.{
  ℕ, zero, suc, ◌+◌, ◌-◌, ◌/◌, ◌≤◌, ◌<◌, ◌≡◌, Bool, true, false, arith, ltb, ◌==◌, nat_key,
  same_nat_iff, if◌then◌else◌, Bool-cases, inl, inr,
}
use openbotflow.Context.{search}

-- The longest history of at most `n` messages that fits, by trying each length from above.
unfoldable pub last_fit : (ℕ → Bool) → ℕ → ℕ
last_fit fits zero = zero
last_fit fits (suc n) = let fewer = last_fit fits n in if fits (suc n) then suc n else fewer

-- What fits still fits when it gets shorter.
abbrev pub IsMonotone : (ℕ → Bool) → Type 0
IsMonotone fits = (m n : ℕ) → m ≤ n → fits n ≡ true → fits m ≡ true

-- The answer of a search: every length up to it fits (0 is answered anyway), none above it does.
abbrev pub IsLongest : (ℕ → Bool) → ℕ → ℕ → Type 0
IsLongest fits n best =
    (best ≤ n) × (0 < best → fits best ≡ true) × ((m : ℕ) → best < m → m ≤ n → fits m ≡ false)

pub last_fit-IsLongest : (fits : ℕ → Bool) (n : ℕ) → IsLongest fits n (last_fit fits n)
unfolding last_fit
last_fit-IsLongest fits zero =
    (omega arith, (λ h. absurd (omega arith)), (λ m h k. absurd (omega arith)))
last_fit-IsLongest fits (suc n) = elim (Bool-cases (fits (suc n))) [
  | inl fit ↦ rw fit (omega arith, (λ h. fit), (λ m h k. absurd (omega arith)))
  | inr unfit ↦
      let (b, f, u) = last_fit-IsLongest fits n in
      rw unfit (
        omega arith,
        f,
        (λ m h k. elim (Bool-cases (m == suc n)) [
          | inl same ↦ rw ((same_nat_iff m (suc n)).0 same) unfit
          | inr less ↦ u m h (ground arith)
        ]),
      )
]

pub IsLongest-unique :
    (fits : ℕ → Bool) (n a b : ℕ) → IsLongest fits n a → IsLongest fits n b → a ≡ b
IsLongest-unique fits n a b (a_n, fa, ua) (b_n, fb, ub) = elim (Bool-cases (ltb a b)) [
  | inl less ↦ cc (ua b (ground arith) b_n, fb (ground arith))
  | inr more ↦ elim (Bool-cases (ltb b a)) [
    | inl less ↦ cc (ub a (ground arith) a_n, fa (ground arith))
    | inr more' ↦ ground arith
  ]
]

module _ (fits : ℕ → Bool) (monotone : IsMonotone fits) (n : ℕ) where
  unfit_above : (mid m : ℕ) → fits mid ≡ false → mid ≤ m → fits m ≡ false
  unfit_above mid m h k = elim (Bool-cases (fits m)) [
    | inl fit ↦ cc (monotone mid m k fit)
    | inr unfit ↦ unfit
  ]

  -- The search is over: `best` is just below `low`, and all from there on are too long.
  search_end :
      (low end best : ℕ)
      → end ≤ n + 1
      → low ≡ end
      → best ≤ low - 1
      → low ≤ best + 1
      → (0 < best → fits best ≡ true)
      → ((m : ℕ) → end ≤ m → m ≤ n → fits m ≡ false)
      → IsLongest fits n best
  search_end low end best bound over below above fit unfit =
      (omega arith, fit, (λ m h k. unfit m (omega arith) k))

  search-IsLongest :
      (fuel low end best : ℕ)
      → end ≤ n + 1
      → low ≤ end
      → end ≤ low + fuel
      → best ≤ low - 1
      → low ≤ best + 1
      → (0 < best → fits best ≡ true)
      → ((m : ℕ) → end ≤ m → m ≤ n → fits m ≡ false)
      → IsLongest fits n (search fits fuel low end best)
  unfolding search
  search-IsLongest zero low end best bound order enough below above fit unfit =
      search_end low end best bound (omega arith) below above fit unfit
  search-IsLongest (suc fuel) low end best bound order enough below above fit unfit =
      let mid = (low + end - 1) / 2 in
      elim (Bool-cases (ltb low end)) [
        | inr over ↦ rw over (search_end low end best bound (ground arith) below above fit unfit)
        | inl more ↦ elim (Bool-cases (fits mid)) [
          | inl yes_fit ↦
              rw (more, yes_fit)
                (search-IsLongest fuel (mid + 1) end mid bound (ground (arith, more))
                  (ground (arith, more)) (omega arith) (omega arith) (λ h. yes_fit) unfit)
          | inr no_fit ↦
              rw (more, no_fit)
                (search-IsLongest fuel low mid best (ground (arith, more)) (ground (arith, more))
                  (ground (arith, more)) below above fit (λ m h k. unfit_above mid m no_fit h))
        ]
      ]

  -- The binary search over a history of n messages answers the same as trying every length from
  -- above, when what fits still fits when it gets shorter; its n + 1 rounds are enough.
  pub search-last_fit : search fits (n + 1) 0 (n + 1) 0 ≡ last_fit fits n
  search-last_fit =
      IsLongest-unique fits n _ _
        (search-IsLongest (n + 1) 0 (n + 1) 0 (omega arith) (omega arith) (omega arith)
          (omega arith) (omega arith) (λ h. absurd (omega arith)) (λ m h k. absurd (omega arith)))
        (last_fit-IsLongest fits n)
