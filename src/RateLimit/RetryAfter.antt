-- ===== src/RateLimit/RetryAfter.antt =====
-- The waiting time that a rejected request is told.
use openbotflow.Prelude.{
  ℕ, String, true, false, ltb, or_else, some, ◌⊎◌, ◌<◌, ◌∙◌, subst, string_key, sym, ap, ◌+◌, ◌-◌,
  ◌*◌, ◌/◌, ◌≤◌, ◌≡◌, refl, List, [], ◌∷◌, arith, leb, ◌==◌, nat_key, length, Bool-cases, inl, inr,
}
use openbotflow.Cooldown.{second}
use openbotflow.RateLimit.{
  Limiter, Decision, forwarded, too_many, first_deque, count_request, decide, admit,
}
use openbotflow.Prelude.Assoc.{get, get-put_self}

abbrev wait_of : Decision → ℕ
wait_of (too_many r) = r
wait_of _ = 0

abbrev pub IsTooMany : Decision → Type 0
IsTooMany (too_many r) = Unit
IsTooMany _ = ⊥

later_step :
    (n window oldest : ℕ) (dq : List ℕ) (later wait now : ℕ)
    → (length (oldest ∷ dq) == n) ≡ true
    → now ≤ oldest + window
    → (oldest + window - now) / second + 1 ≡ wait
    → (now + wait * second ≤ later → (decide n window (oldest ∷ dq) later).0 ≡ forwarded)
      × (later + second ≤ now + wait * second → IsTooMany (decide n window (oldest ∷ dq) later).0)
unfolding decide
later_step n window oldest dq later wait now full h e = (
  (λ k. let late : leb later (oldest + window) ≡ false = ground arith in rw late refl),
  (λ k. let early : leb later (oldest + window) ≡ true = ground arith in rw (early, full) tt),
)

-- What the deque of a rejected request makes of a later one.
decide-retry_after :
    (max_requests window : ℕ) (dq kept : List ℕ) (now wait later : ℕ)
    → decide max_requests window dq now ≡ (too_many wait, kept)
    → now ≤ later
    → (now + wait * second ≤ later → (decide max_requests window kept later).0 ≡ forwarded)
      × (later + second ≤ now + wait * second → IsTooMany (decide max_requests window kept later).0)
unfolding decide
decide-retry_after n window [] kept now wait later e h = cc
decide-retry_after n window (oldest ∷ dq) kept now wait later e h =
    elim (Bool-cases (leb now (oldest + window))) [
      | inr late ↦ cc (rw late at e)
      | inl early ↦ elim (Bool-cases (length (oldest ∷ dq) == n)) [
        | inr room ↦ cc (rw (early, room) at e)
        | inl full ↦
            let e' = rw (early, full) at e in
            let w : (oldest + window - now) / second + 1 ≡ wait = ap (λ p. wait_of p.0) e' in
            let same : oldest ∷ dq ≡ kept = ap (λ p. p.1) e' in
            rw (sym same)
              (later_step n window oldest dq later wait now full (ground (arith, early)) w)
      ]
    ]

-- Without more keys than the cleanup waits for, it takes no deque.
count_request-kept :
    (max_keys now : ℕ) (l : Limiter)
    → length l.requests ≤ max_keys
    → (count_request max_keys now l).requests ≡ l.requests
unfolding count_request
count_request-kept max_keys now l few =
    let room : ltb max_keys (length l.requests) ≡ false = ground arith in ground (arith, room)

-- The decision on a key while it has that deque.
admit-decide :
    (max_requests window max_keys : ℕ) (key : String) (now : ℕ) (l : Limiter) (dq : List ℕ)
    → get key (count_request max_keys now l).requests ≡ some dq
    → (admit max_requests window max_keys key now l).0 ≡ (decide max_requests window dq now).0
unfolding admit
admit-decide n window max_keys key now l dq e = rw e refl

-- A key is told to wait for some seconds, the limiter then holds no more keys than it may hold
-- without a cleanup, and no other request comes before the key's next one. If that comes a second or
-- more before the time is over, it is rejected too; if it comes when the time is over, or later, it
-- is forwarded. Of a request in the last second nothing is said.
pub admit-retry_after :
    (max_requests window max_keys : ℕ) (key : String) (now wait later : ℕ) (l : Limiter)
    → let l' = (admit max_requests window max_keys key now l).1 in
      (admit max_requests window max_keys key now l).0 ≡ too_many wait
      → length l'.requests ≤ max_keys
      → now ≤ later
      → let next = (admit max_requests window max_keys key later l').0 in
        (now + wait * second ≤ later) × (next ≡ forwarded)
        ⊎ (later + second ≤ now + wait * second) × IsTooMany next
        ⊎ (later < now + wait * second) × (now + wait * second < later + second)
unfolding admit
admit-retry_after n window max_keys key now wait later l e few h =
    let counted = count_request max_keys now l in
    let dq = or_else (get key counted.requests) (first_deque n now) in
    let l' = (admit n window max_keys key now l).1 in
    let kept = (decide n window dq now).1 in
    let held : get key (count_request max_keys later l').requests ≡ some kept =
      ap (get key) (count_request-kept max_keys later l' few)
      ∙ get-put_self key kept counted.requests in
    let same = admit-decide n window max_keys key later l' kept held in
    let both : decide n window dq now ≡ (too_many wait, kept) = ap (λ d. (d, kept)) e in
    let (late, early) = decide-retry_after n window dq kept now wait later both h in
    elim (Bool-cases (leb (now + wait * second) later)) [
      | inl over ↦
          let over' : now + wait * second ≤ later = ground (arith, over) in
          inl (over', same ∙ late over')
      | inr before ↦ elim (Bool-cases (leb (later + second) (now + wait * second))) [
        | inl far ↦
            let far' : later + second ≤ now + wait * second = ground (arith, far) in
            inr (inl (far', subst IsTooMany (sym same) (early far')))
        | inr near ↦ inr (inr (ground (arith, before), ground (arith, near)))
      ]
    ]
