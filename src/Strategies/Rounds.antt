-- ===== src/Strategies/Rounds.antt =====
-- The counters of RoundRobinStrategy.
use native.Mathlib.Nat.{
  mod-add-mod, add-mod_right, mod-add-div, mul_assoc, add-mul-mod_self_left, mod-lt, mod-eq_of_lt,
}
use openbotflow.Prelude.{
  ℕ, zero, suc, ◌+◌, ◌-◌, ◌*◌, ◌/◌, ◌%◌, ◌<◌, ◌≡◌, refl, sym, ap, ◌∙◌, String, Option, none, some,
  map, length, List, [], ◌∷◌, arith, or_else, nat_key, get_elem?, leb, Bool-cases, inl, inr,
}
use openbotflow.Prelude.Assoc.{get, put, get-put_self}
use openbotflow.Errors.{Result, ok, err}
use openbotflow.Models.{ModelEndpoint, RouteResult}
use openbotflow.Runtime.{Shared, Env}
use openbotflow.Strategies.{sort, candidates}
use openbotflow.Strategies.Laws.{length-sort}
use openbotflow.Strategies.Select.{
  Request, next_index, round_robin, in_turn, with_selected, selected_first, route_result,
}

-- The indexes that successive requests of a group select, with n endpoints each time.
unfoldable pub rounds : (k group_id n : ℕ) → List (ℕ × ℕ) → List ℕ
unfolding next_index
rounds zero group_id n counters = []
rounds (suc k) group_id n counters =
    let (i, counters') = next_index group_id n counters in i ∷ rounds k group_id n counters'

-- The same with a counter that is never wrapped.
unfoldable pub turns : (k start n : ℕ) → List ℕ
turns zero start n = []
turns (suc k) start n = start % n ∷ turns k (start + 1) n

-- The counter of a group.
abbrev pub counter : ℕ → List (ℕ × ℕ) → ℕ
counter group_id counters = or_else (get group_id counters) 0

turns-congruent : (k a b n : ℕ) → a % n ≡ b % n → turns k a n ≡ turns k b n
unfolding turns
turns-congruent zero a b n h = refl
turns-congruent (suc k) a b n h =
    let e : (a + 1) % n ≡ (b + 1) % n =
      sym (mod-add-mod a n 1) ∙ ap (λ x. (x + 1) % n) h ∙ mod-add-mod b n 1 in
    rw (h, turns-congruent k (a + 1) (b + 1) n e) refl

wrapped : (a n : ℕ) → a % (n * 1000) % n ≡ a % n
wrapped a n =
    let e : a ≡ a % (n * 1000) + n * (1000 * (a / (n * 1000))) =
      sym (rw (sym (mul_assoc n 1000 (a / (n * 1000)))) (mod-add-div a (n * 1000))) in
    sym (ap (λ x. x % n) e ∙ add-mul-mod_self_left (a % (n * 1000)) n (1000 * (a / (n * 1000))))

-- Wrapping the counter at a multiple of the number of endpoints does not change which endpoints are
-- selected, while that number stays the same.
pub rounds-turns :
    (k group_id n : ℕ) (counters : List (ℕ × ℕ))
    → rounds k group_id n counters ≡ turns k (counter group_id counters) n
unfolding rounds turns next_index
rounds-turns zero group_id n counters = refl
rounds-turns (suc k) group_id n counters =
    let start = counter group_id counters in
    let counters' = put group_id ((start + 1) % (n * 1000)) counters in
    ap (λ xs. start % n ∷ xs)
      (rounds-turns k group_id n counters'
        ∙ turns-congruent k (counter group_id counters') (start + 1) n (
            rw (get-put_self group_id ((start + 1) % (n * 1000)) counters) (wrapped (start + 1) n)))

turns_at : (k start n j : ℕ) → j < k → get_elem? (turns k start n) j ≡ some ((start + j) % n)
unfolding turns
turns_at zero start n j h = absurd (omega arith)
turns_at (suc k) start n zero h = ap (λ x. some (x % n)) (omega arith)
turns_at (suc k) start n (suc j) h =
    turns_at k (start + 1) n j (omega arith) ∙ ap (λ x. some (x % n)) (omega arith)

-- From a start, the turn that reaches index i.
reaches : (start n i : ℕ) → i < n → (j : ℕ) × (j < n) × ((start + j) % n ≡ i)
reaches start n i h =
    let q = start / n in
    let r = start % n in
    let e : r + n * q ≡ start = mod-add-div start n in
    let small : r < n = mod-lt start (omega arith) in
    elim (Bool-cases (leb r i)) [
      | inl up ↦
          let sum : start + (i - r) ≡ i + n * q = ground (arith, up, e) in
          (i - r, omega arith, ap (λ x. x % n) sum ∙ add-mul-mod_self_left i n q ∙ mod-eq_of_lt h)
      | inr over ↦
          let sum : start + (i + n - r) ≡ i + n * q + n = ground (arith, over, e) in
          (
            i + n - r,
            ground (arith, over),
            ap (λ x. x % n) sum
                ∙ add-mod_right (i + n * q) n
                ∙ add-mul-mod_self_left i n q
                ∙ mod-eq_of_lt h,
          )
    ]

-- Of n successive counters, one at least selects index i.
rounds_reach :
    (group_id n : ℕ) (counters : List (ℕ × ℕ)) (i : ℕ)
    → i < n
    → (j : ℕ) × (j < n) × (get_elem? (rounds n group_id n counters) j ≡ some i)
rounds_reach group_id n counters i h =
    let (j, less, e) = reaches (counter group_id counters) n i h in
    (
      j,
      less,
      rw (rounds-turns n group_id n counters)
          (turns_at n (counter group_id counters) n j less ∙ ap some e),
    )

-- The endpoint that is tried first.
abbrev pub first_of : Result RouteResult → Option ModelEndpoint
first_of (ok r) = get_elem? r.endpoints 0
first_of (err e) = none

get_elem?-map :
    {A B : Type 0} (f : A → B) (xs : List A) (j : ℕ) (x : A)
    → get_elem? xs j ≡ some x
    → get_elem? (map f xs) j ≡ some (f x)
get_elem?-map f [] j x e = cc
get_elem?-map f (y ∷ xs) zero x e =
    let same : y ≡ x = ground (arith, e) in ap (λ z. some (f z)) same
get_elem?-map f (y ∷ xs) (suc j) x e = get_elem?-map f xs j x e

get_elem?-lt : {A : Type 0} (xs : List A) (i : ℕ) (x : A) → get_elem? xs i ≡ some x → i < length xs
get_elem?-lt [] i x e = cc
get_elem?-lt (y ∷ xs) zero x e = omega arith
get_elem?-lt (y ∷ xs) (suc i) x e = omega (arith, get_elem?-lt xs i x e)

first_of-with_selected :
    (encode : String → ℕ) (q : Request) (i : ℕ) (xs : List ModelEndpoint)
    → first_of (with_selected encode q xs (selected_first i xs)) ≡ get_elem? xs i
unfolding with_selected selected_first route_result
first_of-with_selected encode q i xs = ground arith

module _ {W : Type 0} (env : Env W) (encode : String → ℕ)
    (load_endpoints : ℕ → Shared W → Result (List ModelEndpoint) × Shared W) (group_id : ℕ)
    (q : Request) where
  -- The endpoints that so many successive requests try first.
  unfoldable pub firsts : (k : ℕ) → List (ℕ × ℕ) → Shared W → List (Option ModelEndpoint)
  unfolding round_robin
  firsts zero counters s = []
  firsts (suc k) counters s =
      let (r, counters', s') = round_robin env encode load_endpoints group_id q counters s in
      first_of r ∷ firsts k counters' s'

  module _ (s : Shared W) (available : List ModelEndpoint)
      (found : candidates env group_id (load_endpoints group_id s) ≡ (ok available, s)) where
    firsts-rounds :
        (k : ℕ) (counters : List (ℕ × ℕ))
        → firsts k counters s
          ≡ map (get_elem? (sort available)) (rounds k group_id (length available) counters)
    unfolding firsts rounds round_robin in_turn
    firsts-rounds zero counters = refl
    firsts-rounds (suc k) counters =
        let (i, counters') = next_index group_id (length available) counters in
        rw (found, first_of-with_selected encode q i (sort available), firsts-rounds k counters')
          refl

    -- While the same endpoints of a group are available and finding them changes nothing else, in
    -- any n successive requests for n endpoints, from any counters, the round robin offers each of
    -- them first once at least.
    pub round_robin-fair :
        (counters : List (ℕ × ℕ)) (i : ℕ) (ep : ModelEndpoint)
        → get_elem? (sort available) i ≡ some ep
        → (j : ℕ) × (j < length available)
          × (get_elem? (firsts (length available) counters s) j ≡ some (some ep))
    round_robin-fair counters i ep e =
        let less = get_elem?-lt (sort available) i ep e in
        let (j, few, reached) =
          rounds_reach group_id (length available) counters i
            (omega (arith, less, length-sort available)) in
        (
          j,
          few,
          ap (λ xs. get_elem? xs j) (firsts-rounds (length available) counters)
              ∙ get_elem?-map (get_elem? (sort available))
                  (rounds (length available) group_id (length available) counters) j i reached
              ∙ ap some e,
        )
