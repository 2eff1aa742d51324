-- ===== src/Context/Keeps.antt =====
-- Which messages truncation keeps.
use openbotflow.Prelude.{
  ℕ, zero, suc, ◌-◌, ◌≡◌, refl, sym, ap, subst, String, Bool, true, not, Option, List, [], ◌∷◌,
  ◌++◌, arith, leb, ◌==◌, nat_key, length, drop, keep, Bool-cases, inl, inr, All, append-nil,
}
use openbotflow.Models.{Message}
use openbotflow.Context.{
  token_upper_bound, is_system, kept, last_n, token_limit, truncate_to_context_window,
}
use openbotflow.Context.Laws.{history_of}

module _ {A : Type 0} (p : A → Bool) where
  keep-All : (xs : List A) → All (λ x. p x ≡ true) (keep p xs)
  keep-All [] = tt
  keep-All (x ∷ xs) = elim (Bool-cases (p x)) [
    | inl yes_p ↦ rw yes_p (yes_p, keep-All xs)
    | inr no_p ↦ rw no_p (keep-All xs)
  ]

  keep_same : (xs : List A) → All (λ x. p x ≡ true) xs → keep p xs ≡ xs
  keep_same [] h = refl
  keep_same (x ∷ xs) h = rw (h.0, keep_same xs h.1) refl

  keep_none : (xs : List A) → All (λ x. not (p x) ≡ true) xs → keep p xs ≡ []
  keep_none [] h = refl
  keep_none (x ∷ xs) h = ground (arith, keep_none xs h.1, h.0)

  keep_empty : (xs : List A) → keep p xs ≡ [] → All (λ x. not (p x) ≡ true) xs
  keep_empty [] h = tt
  keep_empty (x ∷ xs) h = elim (Bool-cases (p x)) [
    | inl yes_p ↦ cc (rw yes_p at h)
    | inr no_p ↦ (ap not no_p, keep_empty xs (rw no_p at h))
  ]

  keep-append : (xs ys : List A) → keep p (xs ++ ys) ≡ keep p xs ++ keep p ys
  keep-append [] ys = refl
  keep-append (x ∷ xs) ys = ground (arith, keep-append xs ys)

  All-not : (xs : List A) → All (λ x. p x ≡ true) xs → All (λ x. not (not (p x)) ≡ true) xs
  All-not [] h = tt
  All-not (x ∷ xs) h = (ap (λ b. not (not b)) h.0, All-not xs h.1)

module _ {A : Type 0} (P : A → Type 0) where
  All-drop : (n : ℕ) (xs : List A) → All P xs → All P (drop n xs)
  All-drop zero xs h = h
  All-drop (suc n) [] h = tt
  All-drop (suc n) (x ∷ xs) h = All-drop n xs h.1

drop_all : {A : Type 0} (xs : List A) → drop (length xs) xs ≡ []
drop_all [] = refl
drop_all (x ∷ xs) = drop_all xs

-- The system messages are all there, and of the others a last part.
abbrev pub Keeps : List Message → List Message → Type 0
Keeps messages result =
    (keep is_system result ≡ keep is_system messages)
    × ((k : ℕ) × (history_of result ≡ drop k (history_of messages)))

split_up :
    (messages system rest : List Message)
    → system ≡ keep is_system messages
    → All (λ m. not (is_system m) ≡ true) rest
    → ((k : ℕ) × (rest ≡ drop k (history_of messages)))
    → Keeps messages (system ++ rest)
split_up messages system rest e other (k, last) = (
  rw
      (
        e,
        keep-append is_system (keep is_system messages) rest,
        keep_same is_system (keep is_system messages) (keep-All is_system messages),
        keep_none is_system rest other,
      )
      (append-nil (keep is_system messages)),
  (
    k,
    rw
        (
          e,
          keep-append (λ m. not (is_system m)) (keep is_system messages) rest,
          keep_none (λ m. not (is_system m)) (keep is_system messages)
              (All-not is_system (keep is_system messages) (keep-All is_system messages)),
          keep_same (λ m. not (is_system m)) rest other,
        )
        last,
  ),
)

rest_other :
    (messages : List Message) (k : ℕ)
    → All (λ m. not (is_system m) ≡ true) (drop k (history_of messages))
rest_other messages k =
    All-drop (λ m. not (is_system m) ≡ true) k (history_of messages)
      (keep-All (λ m. not (is_system m)) messages)

kept-Keeps :
    (encode : String → ℕ) (messages system : List Message) (n : ℕ)
    → system ≡ keep is_system messages
    → Keeps messages (kept encode messages system (history_of messages) n)
kept-Keeps encode messages (m ∷ system) zero e = subst (Keeps messages) (append-nil (m ∷ system)) (
    split_up messages (m ∷ system) [] e tt
      (length (history_of messages), sym (drop_all (history_of messages))))
kept-Keeps encode messages [] zero e =
    let other = keep_empty is_system messages (sym e) in
    let k = length messages - 1 in
    split_up messages [] (last_n 1 messages) e
      (All-drop (λ m. not (is_system m) ≡ true) k messages other)
      (k, ap (drop k) (sym (keep_same (λ m. not (is_system m)) messages other)))
kept-Keeps encode messages (m ∷ system) (suc n) e =
    split_up messages (m ∷ system) (last_n (suc n) (history_of messages)) e
      (rest_other messages (length (history_of messages) - suc n))
      (length (history_of messages) - suc n, refl)
kept-Keeps encode messages [] (suc n) e =
    split_up messages [] (last_n (suc n) (history_of messages)) e
      (rest_other messages (length (history_of messages) - suc n))
      (length (history_of messages) - suc n, refl)

-- Truncation, on every branch, keeps all the system messages in their order, and of the other
-- messages a last part, in its order.
pub truncate_to_context_window-Keeps :
    (encode : String → ℕ) (messages : List Message) (context_window : ℕ) (max_tokens : Option ℕ)
    → Keeps messages (truncate_to_context_window encode messages context_window max_tokens)
unfolding truncate_to_context_window
truncate_to_context_window-Keeps encode messages context_window max_tokens =
    elim (Bool-cases (context_window == 0)) [
      | inl unset ↦ rw unset (refl, (0, refl))
      | inr set ↦
          elim (Bool-cases
            (leb (token_upper_bound messages) (token_limit context_window max_tokens))) [
              | inl small ↦ rw (set, small) (refl, (0, refl))
              | inr large ↦
                  rw (set, large) (kept-Keeps encode messages (keep is_system messages) _ refl)
            ]
    ]
