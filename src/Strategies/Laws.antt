-- ===== src/Strategies/Laws.antt =====
-- What RoundRobinStrategy and SequentialStrategy offer.
use mathlib.Core.List.Perm
use mathlib.Core.List.{Perm}
use native.Mathlib.Nat.{mod-lt}
use openbotflow.Prelude.{
  ℕ, zero, suc, ◌%◌, ◌<◌, ◌≡◌, refl, sym, ap, ◌∙◌, String, true, false, some, List, [], ◌∷◌, arith,
  nat_key, length, get_elem?, Bool-cases, inl, inr, or_else,
}
use openbotflow.Prelude.Assoc.{get}
use openbotflow.Prelude.Int.{ltb_ℤ}
use openbotflow.Errors.{Result, ok, err}
use openbotflow.Models.{ModelEndpoint, RouteResult}
use openbotflow.Runtime.{Shared, Env}
use openbotflow.Strategies.{insert, sort, some_available, filter_available, candidates}
use openbotflow.Strategies.Select.{
  Request, sequential, round_robin, next_index, selected_first, all_but, in_sequence, in_turn,
  with_selected, route_result,
}

insert-Perm : (ep : ModelEndpoint) (xs : List ModelEndpoint) → Perm (insert ep xs) (ep ∷ xs)
unfolding insert
insert-Perm ep [] = Perm.refl _
insert-Perm ep (x ∷ xs) = elim (Bool-cases (ltb_ℤ ep.detail.weight x.detail.weight)) [
  | inl lighter ↦ rw lighter (Perm.trans (Perm.cons x (insert-Perm ep xs)) (Perm.swap ep x xs))
  | inr first ↦ rw first (Perm.refl _)
]

sort-Perm : (xs : List ModelEndpoint) → Perm (sort xs) xs
unfolding sort
sort-Perm [] = Perm.refl _
sort-Perm (x ∷ xs) = Perm.trans (insert-Perm x (sort xs)) (Perm.cons x (sort-Perm xs))

-- No endpoint is lighter than the one behind it.
abbrev pub IsDescending : List ModelEndpoint → Type 0
IsDescending [] = Unit
IsDescending (x ∷ []) = Unit
IsDescending (x ∷ y ∷ xs) = (ltb_ℤ x.detail.weight y.detail.weight ≡ false) × IsDescending (y ∷ xs)

insert-IsDescending :
    (ep x : ModelEndpoint) (xs : List ModelEndpoint)
    → IsDescending (x ∷ xs)
    → ltb_ℤ ep.detail.weight x.detail.weight ≡ true
    → IsDescending (x ∷ insert ep xs)
unfolding insert
insert-IsDescending ep x [] h lighter = (ground (arith, lighter), tt)
insert-IsDescending ep x (y ∷ xs) (d, h) lighter =
    elim (Bool-cases (ltb_ℤ ep.detail.weight y.detail.weight)) [
      | inl lighter' ↦ rw lighter' (d, insert-IsDescending ep y xs h lighter')
      | inr first ↦ rw first (ground (arith, lighter), (first, h))
    ]

sort-IsDescending : (xs : List ModelEndpoint) → IsDescending (sort xs)
unfolding sort insert
sort-IsDescending [] = tt
sort-IsDescending (x ∷ xs) = place (sort xs) (sort-IsDescending xs)
  where
    place : (ys : List ModelEndpoint) → IsDescending ys → IsDescending (insert x ys)
    place [] h = tt
    place (y ∷ ys) h = elim (Bool-cases (ltb_ℤ x.detail.weight y.detail.weight)) [
      | inl lighter ↦ rw lighter (insert-IsDescending x y ys h lighter)
      | inr first ↦ rw first (first, h)
    ]

all_but-Perm :
    {A : Type 0} (i : ℕ) (x : A) (xs : List A)
    → get_elem? xs i ≡ some x
    → Perm (x ∷ all_but i xs) xs
unfolding all_but
all_but-Perm i x [] e = cc
all_but-Perm zero x (y ∷ xs) e = let same : x ≡ y = ground (arith, e) in rw same (Perm.refl _)
all_but-Perm (suc i) x (y ∷ xs) e =
    Perm.trans (Perm.swap y x (all_but i xs)) (Perm.cons y (all_but-Perm i x xs e))

get_elem?-some :
    {A : Type 0} (i : ℕ) (xs : List A) → i < length xs → (x : A) × (get_elem? xs i ≡ some x)
get_elem?-some i [] h = absurd (omega arith)
get_elem?-some zero (x ∷ xs) h = (x, refl)
get_elem?-some (suc i) (x ∷ xs) h = get_elem?-some i xs (omega arith)

pub selected_first-some :
    {A : Type 0} (i : ℕ) (xs : List A) (x : A)
    → get_elem? xs i ≡ some x
    → selected_first i xs ≡ some (x ∷ all_but i xs)
unfolding selected_first
selected_first-some i xs x e = ground (arith, e)

length-insert :
    (ep : ModelEndpoint) (xs : List ModelEndpoint) → length (insert ep xs) ≡ suc (length xs)
unfolding insert
length-insert ep [] = refl
length-insert ep (x ∷ xs) = ground (arith, length-insert ep xs)

pub length-sort : (xs : List ModelEndpoint) → length (sort xs) ≡ length xs
unfolding sort
length-sort [] = refl
length-sort (x ∷ xs) = length-insert x (sort xs) ∙ ap suc (length-sort xs)

some_available-pos :
    {S : Type 0} (found : List ModelEndpoint × S) (available : List ModelEndpoint) (s' : S)
    → some_available found ≡ (ok available, s')
    → 0 < length available
unfolding some_available
some_available-pos ([], s) available s' h = cc
some_available-pos (ep ∷ eps, s) [] s' h = cc
some_available-pos (ep ∷ eps, s) (x ∷ xs) s' h = omega arith

module _ {W : Type 0} (env : Env W) where
  -- Nothing is answered without an endpoint.
  candidates-pos :
      (group_id : ℕ) (loaded : Result (List ModelEndpoint) × Shared W)
      (available : List ModelEndpoint) (s' : Shared W)
      → candidates env group_id loaded ≡ (ok available, s')
      → 0 < length available
  unfolding candidates
  candidates-pos group_id (err e, s) available s' h = cc
  candidates-pos group_id (ok [], s) available s' h = cc
  candidates-pos group_id (ok (ep ∷ eps), s) available s' h =
      some_available-pos (filter_available env group_id (ep ∷ eps) s) available s' h

module _ {W : Type 0} (env : Env W) (encode : String → ℕ)
    (load_endpoints : ℕ → Shared W → Result (List ModelEndpoint) × Shared W) (group_id : ℕ)
    (q : Request) (s s' : Shared W) (available : List ModelEndpoint)
    (found : candidates env group_id (load_endpoints group_id s) ≡ (ok available, s')) where
  -- Whenever endpoints are available, the sequential strategy answers all of them, each once, none
  -- lighter than the one behind it.
  pub sequential-IsDescending :
      (r : RouteResult) × (sequential env encode load_endpoints group_id q s ≡ (ok r, s'))
      × Perm r.endpoints available
      × IsDescending r.endpoints
  unfolding sequential route_result in_sequence
  sequential-IsDescending = (
    route_result encode q (sort available) (sort available),
    ap (in_sequence encode q) found,
    sort-Perm available,
    sort-IsDescending available,
  )

  -- Whenever endpoints are available, the round robin answers all of them, each once, and first the
  -- one at its counter's place in the order of the weights.
  pub round_robin-Perm :
      (counters : List (ℕ × ℕ))
      → (r : RouteResult) × ((round_robin env encode load_endpoints group_id q counters s).0 ≡ ok r)
        × Perm r.endpoints available
        × (get_elem? r.endpoints 0
            ≡ get_elem? (sort available) (or_else (get group_id counters) 0 % length available))
  unfolding round_robin in_turn route_result selected_first with_selected next_index
  round_robin-Perm counters =
      let i = or_else (get group_id counters) 0 % length available in
      let less : i < length available =
        mod-lt _ (candidates-pos env group_id (load_endpoints group_id s) available s' found) in
      let (x, e) = get_elem?-some i (sort available) (omega (arith, length-sort available)) in
      (
        route_result encode q (sort available) (x ∷ all_but i (sort available)),
        ap (λ p. (in_turn encode q group_id counters p).0) found
            ∙ ap (with_selected encode q (sort available))
                (selected_first-some i (sort available) x e),
        Perm.trans (all_but-Perm i x (sort available) e) (sort-Perm available),
        sym e,
      )
