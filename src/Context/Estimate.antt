-- ===== src/Context/Estimate.antt =====
-- `estimate_tokens` as a sum over the messages.
use openbotflow.Prelude.{
  ℕ, zero, suc, ◌+◌, ◌-◌, ◌≤◌, ◌≡◌, String, List, [], ◌∷◌, ◌++◌, arith, or_else, length, drop,
}
use openbotflow.Models.{Message}
use openbotflow.Context.{total, estimate_tokens, extract_text, fits, last_n}
use openbotflow.Context.Search.{IsMonotone}

pub total-append :
    (f : String → ℕ) (xs ys : List Message) → total f (xs ++ ys) ≡ total f xs + total f ys
unfolding total
total-append f [] ys = omega arith
total-append f (m ∷ xs) ys = omega (arith, total-append f xs ys)

pub total-le :
    (f g : String → ℕ) → ((s : String) → f s ≤ g s) → (xs : List Message) → total f xs ≤ total g xs
unfolding total
total-le f g h [] = omega arith
total-le f g h (m ∷ xs) =
    omega (arith, total-le f g h xs, h (or_else m.role ""), h (extract_text m.content))

pub total-drop :
    (f : String → ℕ) (m n : ℕ) (xs : List Message)
    → m ≤ n
    → total f (drop n xs) ≤ total f (drop m xs)
unfolding total
total-drop f zero zero xs h = omega arith
total-drop f zero (suc n) [] h = omega arith
total-drop f zero (suc n) (x ∷ xs) h = omega (arith, total-drop f zero n xs (omega arith))
total-drop f (suc m) zero xs h = absurd (omega arith)
total-drop f (suc m) (suc n) [] h = omega arith
total-drop f (suc m) (suc n) (x ∷ xs) h = total-drop f m n xs (omega arith)

-- A shorter history fits when a longer one does.
pub fits-IsMonotone :
    (encode : String → ℕ) (limit : ℕ) (system history : List Message)
    → IsMonotone (fits encode limit system history)
unfolding fits estimate_tokens
fits-IsMonotone encode limit system history m n h fit = ground (
  arith,
  total-append encode system (last_n m history),
  total-append encode system (last_n n history),
  total-drop encode (length history - n) (length history - m) history (omega arith),
)
