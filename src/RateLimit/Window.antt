-- ===== src/RateLimit/Window.antt =====
-- The times of a deque that lie in a window, and what the decision does to them.
use openbotflow.Prelude.{
  ◌&&◌, ◌≢◌, ◌⊎◌, ℕ, suc, ◌+◌, ◌-◌, ◌≤◌, ◌<◌, ◌≡◌, refl, Bool, false, List, [], ◌∷◌, ◌++◌, arith,
  leb, ◌==◌, string_key, if◌then◌else◌, length, length-append, All, Bool-cases, inl, inr, nat_key,
}
use openbotflow.RateLimit.{Decision, forwarded, too_many, index_error, append, decide}

-- How many of the times lie in the window that ends at `at`.
unfoldable pub in_window : ℕ → ℕ → List ℕ → ℕ
in_window window at [] = 0
in_window window at (t ∷ ts) = (if leb at (t + window) then 1 else 0) + in_window window at ts

in_window-append :
    (window at : ℕ) (xs ys : List ℕ)
    → in_window window at (xs ++ ys) ≡ in_window window at xs + in_window window at ys
unfolding in_window
in_window-append window at [] ys = omega arith
in_window-append window at (x ∷ xs) ys = omega (arith, in_window-append window at xs ys)

pub in_window-le-length : (window at : ℕ) (xs : List ℕ) → in_window window at xs ≤ length xs
unfolding in_window
in_window-le-length window at [] = omega arith
in_window-le-length window at (x ∷ xs) = ground (arith, in_window-le-length window at xs)

-- Times that are all out of the window.
pub in_window-none :
    (window at now : ℕ) (xs : List ℕ)
    → All (λ t. t + window < now) xs
    → now ≤ at
    → in_window window at xs ≡ 0
unfolding in_window
in_window-none window at now [] h k = refl
in_window-none window at now (x ∷ xs) h k = ground (arith, in_window-none window at now xs h.1 k)

append_room : (n : ℕ) (xs : List ℕ) (x : ℕ) → length xs < n → append n xs x ≡ xs ++ x ∷ []
append_room n xs x h =
    let e : length (xs ++ x ∷ []) - n ≡ 0 = omega (arith, length-append xs (x ∷ [])) in rw e

append_full :
    (n y : ℕ) (xs : List ℕ) (x : ℕ) → suc (length xs) ≡ n → append n (y ∷ xs) x ≡ xs ++ x ∷ []
append_full n y xs x h =
    let e : suc (length (xs ++ x ∷ [])) - n ≡ 1 = omega (arith, length-append xs (x ∷ [])) in rw e

abbrev limited : ℕ → ℕ → ℕ → List ℕ → ℕ → Bool
limited n window oldest dq now = leb now (oldest + window) && length (oldest ∷ dq) == n

-- The time that falls out of a full deque is out of the window.
append-in_window :
    (n window oldest : ℕ) (dq : List ℕ) (now at : ℕ)
    → length (oldest ∷ dq) ≤ n
    → limited n window oldest dq now ≡ false
    → now ≤ at
    → (length (append n (oldest ∷ dq) now) ≤ n)
      × (in_window window at (now ∷ oldest ∷ dq) ≤ in_window window at (append n (oldest ∷ dq) now))
unfolding in_window
append-in_window n window oldest dq now at b h k = elim (Bool-cases (length (oldest ∷ dq) == n)) [
  | inl full ↦
      rw (append_full n oldest dq now (ground arith), in_window-append window at dq (now ∷ []))
        (ground (arith, length-append dq (now ∷ [])))
  | inr room ↦
      rw (append_room n (oldest ∷ dq) now (ground arith), in_window-append window at dq (now ∷ []))
        (ground (arith, length-append dq (now ∷ [])))
]

-- Forwarding a request puts its time into the deque: what falls out is out of the window.
pub decide_forwarded :
    (n window : ℕ) (dq : List ℕ) (now at : ℕ)
    → length dq ≤ n
    → (decide n window dq now).0 ≡ forwarded
    → now ≤ at
    → (length (decide n window dq now).1 ≤ n)
      × (in_window window at (now ∷ dq) ≤ in_window window at (decide n window dq now).1)
unfolding decide
decide_forwarded n window [] now at b h k = cc
decide_forwarded n window (oldest ∷ dq) now at b h k =
    elim (Bool-cases (limited n window oldest dq now)) [
      | inl stop ↦ cc (rw stop at h)
      | inr go ↦ rw go (append-in_window n window oldest dq now at b go k)
    ]

pub decide_kept :
    (n window : ℕ) (dq : List ℕ) (now : ℕ)
    → (decide n window dq now).0 ≢ forwarded
    → (decide n window dq now).1 ≡ dq
unfolding decide
decide_kept n window dq now h = ground arith

pub Decision-cases : (d : Decision) → (d ≡ forwarded) ⊎ (d ≢ forwarded)
Decision-cases forwarded = inl refl
Decision-cases (too_many r) = inr (λ e. cc)
Decision-cases index_error = inr (λ e. cc)
