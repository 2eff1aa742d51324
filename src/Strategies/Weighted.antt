-- ===== src/Strategies/Weighted.antt =====
-- The weighted order without replacement.
use mathlib.Core.List.Perm
use mathlib.Core.List.{Perm}
use openbotflow.Prelude.{
  ℕ, zero, suc, ◌+◌, ◌≤◌, ◌<◌, ◌≡◌, refl, sym, ap, ◌∙◌, Bool, true, false, ◌&&◌, Option, none, some,
  List, [], ◌∷◌, ◌++◌, map, arith, ltb, nat_key, ◌==◌, or_else, length, keep, Bool-cases, inl, inr,
  ◌⊎◌, All, append-nil, append_assoc,
}
use openbotflow.Prelude.Int.{pos_part}
use openbotflow.Errors.{ok}
use openbotflow.Models.{GroupModelWithDetails}
use openbotflow.Runtime.{Env}
use openbotflow.Strategies.{
  total_weight, pick, last, weighted_random_select, remove_model, after_draw, draw_all,
  order_remaining, weighted_random_order,
}

abbrev IsPositive : GroupModelWithDetails → Type 0
IsPositive m = 0 < pos_part m.weight

total-pos :
    (m : GroupModelWithDetails) (models : List GroupModelWithDetails)
    → IsPositive m
    → (total_weight (m ∷ models) == 0) ≡ false
unfolding total_weight
total-pos m models h = ground arith

-- A draw answers a model of the list.
module _ (P : GroupModelWithDetails → Type 0) where
  pick-All :
      (r c : ℕ) (models : List GroupModelWithDetails)
      → All P models
      → (pick r c models ≡ none) ⊎ ((m : GroupModelWithDetails) × (pick r c models ≡ some m) × P m)
  unfolding pick
  pick-All r c [] h = inl refl
  pick-All r c (m ∷ models) h =
      elim (Bool-cases (ltb 0 (pos_part m.weight) && ltb r (c + pos_part m.weight))) [
        | inl here ↦ rw here (inr (m, refl, h.0))
        | inr later ↦ rw later (pick-All r (c + pos_part m.weight) models h.1)
      ]

  last-All :
      (m : GroupModelWithDetails) (models : List GroupModelWithDetails)
      → P m
      → All P models
      → P (last m models)
  last-All m [] h hs = h
  last-All m (n ∷ models) h hs = last-All n models hs.0 hs.1

  or_last-All :
      (o : Option GroupModelWithDetails) (d : GroupModelWithDetails)
      → (o ≡ none) ⊎ ((m : GroupModelWithDetails) × (o ≡ some m) × P m)
      → P d
      → P (or_else o d)
  or_last-All o d (inl e) h = rw e h
  or_last-All o d (inr (m, e, p)) h = rw e p

  select-All :
      {W : Type 0} (env : Env W) (m : GroupModelWithDetails) (models : List GroupModelWithDetails)
      (w : W)
      → IsPositive m
      → All P (m ∷ models)
      → (d : GroupModelWithDetails) × (v : W) × (weighted_random_select env (m ∷ models) w
          ≡ (ok d, v))
        × P d
  unfolding weighted_random_select
  select-All env m models w pos h =
      let total = total_weight (m ∷ models) in
      let r = env.uniform total w in
      let some_weight : (total == 0) ≡ false = total-pos m models pos in
      (
        or_else (pick r.0 0 (m ∷ models)) (last m models),
        r.1,
        rw some_weight refl,
        or_last-All (pick r.0 0 (m ∷ models)) (last m models) (pick-All r.0 0 (m ∷ models) h)
            (last-All m models h.0 h.1),
      )

-- The models of a list.
abbrev In : GroupModelWithDetails → List GroupModelWithDetails → Type 0
In d [] = ⊥
In d (m ∷ models) = (d ≡ m) ⊎ In d models

In-All :
    (xs ys : List GroupModelWithDetails)
    → ((d : GroupModelWithDetails) → In d xs → In d ys)
    → All (λ d. In d ys) xs
In-All [] ys h = tt
In-All (x ∷ xs) ys h = (h x (inl refl), In-All xs ys (λ d i. h d (inr i)))

-- The equality of two rows tells their models apart, and holds of a row and itself.
-- X
pub record IsEquality (same : GroupModelWithDetails → GroupModelWithDetails → Bool) : Type 0 where
  pub same_self : (m : GroupModelWithDetails) → same m m ≡ true
  pub same_model : (m n : GroupModelWithDetails) → same m n ≡ true → m.model_id ≡ n.model_id

abbrev pub ids : List GroupModelWithDetails → List ℕ
ids models = map (λ m. m.model_id) models

ids-append : (xs ys : List GroupModelWithDetails) → ids (xs ++ ys) ≡ ids xs ++ ids ys
ids-append [] ys = refl
ids-append (x ∷ xs) ys = ap (λ l. x.model_id ∷ l) (ids-append xs ys)

module _ (same : GroupModelWithDetails → GroupModelWithDetails → Bool) (eq : IsEquality same) where
  remove_model-Perm :
      (d : GroupModelWithDetails) (models : List GroupModelWithDetails)
      → In d models
      → Perm (ids models) (d.model_id ∷ ids (remove_model same d models))
  unfolding remove_model
  remove_model-Perm d [] i = elim i [ ]
  remove_model-Perm d (m ∷ models) i = elim (Bool-cases (same m d)) [
    | inl here ↦ rw (here, eq.same_model m d here) (Perm.refl _)
    | inr other ↦ elim i [
      | inl e ↦ cc (rw (sym e) at other, eq.same_self d)
      | inr later ↦ rw other (
          Perm.trans (Perm.cons m.model_id (remove_model-Perm d models later))
            (Perm.swap d.model_id m.model_id (ids (remove_model same d models))))
    ]
  ]

  length-remove_model :
      (d : GroupModelWithDetails) (models : List GroupModelWithDetails)
      → In d models
      → suc (length (remove_model same d models)) ≡ length models
  unfolding remove_model
  length-remove_model d [] i = elim i [ ]
  length-remove_model d (m ∷ models) i = elim (Bool-cases (same m d)) [
    | inl here ↦ rw here refl
    | inr other ↦ elim i [
      | inl e ↦ cc (rw (sym e) at other, eq.same_self d)
      | inr later ↦ rw other (ap suc (length-remove_model d models later))
    ]
  ]

  remove_model-All :
      (P : GroupModelWithDetails → Type 0) (d : GroupModelWithDetails)
      (models : List GroupModelWithDetails)
      → All P models
      → All P (remove_model same d models)
  unfolding remove_model
  remove_model-All P d [] h = tt
  remove_model-All P d (m ∷ models) (h, hs) = elim (Bool-cases (same m d)) [
    | inl here ↦ rw here hs
    | inr other ↦ rw other (h, remove_model-All P d models hs)
  ]

  draw_all-Perm :
      {W : Type 0} (env : Env W) (fuel : ℕ) (remaining ordered : List GroupModelWithDetails) (w : W)
      → length remaining ≤ fuel
      → All IsPositive remaining
      → (ds : List GroupModelWithDetails) × ((draw_all env same fuel remaining ordered w).0 ≡ ok ds)
        × Perm (ids ds) (ids ordered ++ ids remaining)
  unfolding draw_all after_draw
  draw_all-Perm env fuel [] ordered w enough pos =
      (ordered, refl, rw (append-nil (ids ordered)) (Perm.refl _))
  draw_all-Perm env zero (m ∷ remaining) ordered w enough pos = absurd (omega arith)
  draw_all-Perm {W = W} env (suc fuel) (m ∷ remaining) ordered w enough (pos, poss) =
      let models = m ∷ remaining in
      let (d, v, e, i) =
        select-All (λ d. In d models) env m remaining w pos (In-All models models (λ d i. i)) in
      let rest = remove_model same d models in
      let (ds, f, p) =
        draw_all-Perm env fuel rest (ordered ++ d ∷ []) v
          (omega (arith, length-remove_model d models i))
          (remove_model-All IsPositive d models (pos, poss)) in
      let next = λ (a : GroupModelWithDetails) (u : W).
        draw_all env same fuel (remove_model same a models) (ordered ++ a ∷ []) u in
      (
        ds,
        ap (λ r. (after_draw r next).0) e ∙ f,
        Perm.trans
            (rw
              (ids-append ordered (d ∷ []), append_assoc (ids ordered) (d.model_id ∷ []) (ids rest))
              at p)
            (Perm.append_left (ids ordered) (Perm.symm (remove_model-Perm d models i))),
      )

keep-IsPositive :
    (models : List GroupModelWithDetails)
    → All IsPositive (keep (λ m. ltb 0 (pos_part m.weight)) models)
keep-IsPositive [] = tt
keep-IsPositive (m ∷ models) = elim (Bool-cases (ltb 0 (pos_part m.weight))) [
  | inl yes_p ↦ rw yes_p (ground (arith, yes_p), keep-IsPositive models)
  | inr no_p ↦ rw no_p (keep-IsPositive models)
]

order_remaining-Perm :
    {W : Type 0} (env : Env W) (same : GroupModelWithDetails → GroupModelWithDetails → Bool)
    (remaining : List GroupModelWithDetails) (w : W)
    → IsEquality same
    → All IsPositive remaining
    → 0 < length remaining
    → (ds : List GroupModelWithDetails) × ((order_remaining env same remaining w).0 ≡ ok ds)
      × Perm (ids ds) (ids remaining)
unfolding order_remaining
order_remaining-Perm env same [] w eq pos h = absurd (omega arith)
order_remaining-Perm env same (m ∷ remaining) w eq pos h =
    draw_all-Perm same eq env (length (m ∷ remaining)) (m ∷ remaining) [] w (omega arith) pos

-- Whatever the random draws, the weighted order ends, and answers the models of positive weight,
-- each once, if there is one.
pub weighted_random_order-Perm :
    {W : Type 0} (env : Env W) (same : GroupModelWithDetails → GroupModelWithDetails → Bool)
    (models : List GroupModelWithDetails) (w : W)
    → IsEquality same
    → 0 < length (keep (λ m. ltb 0 (pos_part m.weight)) models)
    → (ds : List GroupModelWithDetails) × ((weighted_random_order env same models w).0 ≡ ok ds)
      × Perm (ids ds) (ids (keep (λ m. ltb 0 (pos_part m.weight)) models))
unfolding weighted_random_order
weighted_random_order-Perm env same models w eq h =
    order_remaining-Perm env same (keep (λ m. ltb 0 (pos_part m.weight)) models) w eq
      (keep-IsPositive models) h
