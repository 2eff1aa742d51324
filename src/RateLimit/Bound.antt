-- ===== src/RateLimit/Bound.antt =====
-- RateLimitMiddleware over a sequence of requests.
use openbotflow.Prelude.{
  ◌≢◌, length-drop, ℕ, ◌-◌, ◌≤◌, ◌≡◌, refl, String, false, Option, none, some, List, [], ◌∷◌, arith,
  ◌==◌, string_key, if◌then◌else◌, length, All, Bool-cases, inl, inr, nat_key, or_else,
}
use openbotflow.Prelude.Assoc.{get, get-put, put-IsDict, get-put_self}
use openbotflow.Cooldown.{second}
use openbotflow.RateLimit.{
  Limiter, Decision, forwarded, too_many, index_error, idle, count_request, first_deque, decide,
  admit,
}
use openbotflow.RateLimit.Window.{
  in_window, in_window-le-length, in_window-none, decide_forwarded, decide_kept, Decision-cases,
}
use openbotflow.RateLimit.Tracked.{
  Tracked, All-weaken, All-trans, Tracked-later, count_request-Inv, Inv,
}

-- The times of the key's forwarded requests, the last one first.
abbrev pub logged : String → String → ℕ → Decision → List ℕ → List ℕ
logged k key now forwarded log = if key == k then now ∷ log else log
logged k key now _ log = log

-- A sequence of requests, each with its key and its time: the end state, and the times at which
-- the requests of key `k` were forwarded.
unfoldable pub serve :
    (max_requests window max_keys : ℕ) (k : String)
    → List (String × ℕ)
    → Limiter
    → List ℕ
    → Limiter × List ℕ
unfolding admit
serve n window max_keys k [] l log = (l, log)
serve n window max_keys k ((key, now) ∷ requests) l log =
    let (decision, l') = admit n window max_keys key now l in
    serve n window max_keys k requests l' (logged k key now decision log)

-- The clock does not run backwards, from `start` to `end`.
abbrev pub IsOrdered : ℕ → List (String × ℕ) → ℕ → Type 0
IsOrdered start [] end = start ≤ end
IsOrdered start ((key, now) ∷ requests) end = (start ≤ now) × IsOrdered now requests end

abbrev pub empty : Limiter
empty = record { requests = []; last_access = []; request_count = 0 }

module _ (n window max_keys : ℕ) (k : String) (short : window ≤ idle) where
  logged_self : (now : ℕ) (log : List ℕ) → logged k k now forwarded log ≡ now ∷ log
  logged_self now log = rw ((string_key.same_iff k k).1 refl)

  logged_other :
      (key : String) (now : ℕ) (d : Decision) (log : List ℕ)
      → d ≢ forwarded
      → logged k key now d log ≡ log
  logged_other key now forwarded log h = absurd (h refl)
  logged_other key now (too_many r) log h = refl
  logged_other key now index_error log h = refl

  decide-Tracked :
      (now : ℕ) (dq : List ℕ) (log : List ℕ)
      → length dq ≤ n
      → ((at : ℕ) → now ≤ at → in_window window at log ≤ in_window window at dq)
      → All (λ t. t ≤ now) log
      → Tracked n window now
          (logged k k now (decide n window dq now).0 log)
          (some (decide n window dq now).1)
          (some now)
  unfolding in_window
  decide-Tracked now dq log b c o = elim (Decision-cases (decide n window dq now).0) [
    | inl yes_sent ↦
        let done =
          λ (at : ℕ) (later : now ≤ at). decide_forwarded n window dq now at b yes_sent later in
        rw yes_sent (
          rw (logged_self now log) (
            (done now (omega arith)).0,
            (λ at later. covers at (c at later) (done at later).1),
            (omega arith, o),
            omega arith,
          ))
    | inr kept ↦
        rw (logged_other k now _ log kept, decide_kept n window dq now kept) (b, c, o, omega arith)
  ]
    where
      covers :
          (at : ℕ) {out : ℕ}
          → in_window window at log ≤ in_window window at dq
          → in_window window at (now ∷ dq) ≤ out
          → in_window window at (now ∷ log) ≤ out
      covers at p q = omega arith

  logged_ne :
      (key : String) (now : ℕ) (d : Decision) (log : List ℕ)
      → (key == k) ≡ false
      → logged k key now d log ≡ log
  logged_ne key now forwarded log h = rw h
  logged_ne key now (too_many r) log h = refl
  logged_ne key now index_error log h = refl

  -- The deque that a request meets covers the log, a new one too.
  base :
      (now : ℕ) (log : List ℕ) (dq : Option (List ℕ)) (last : Option ℕ)
      → Tracked n window now log dq last
      → (length (or_else dq (first_deque n now)) ≤ n)
        × ((at : ℕ)
            → now ≤ at
            → in_window window at log ≤ in_window window at (or_else dq (first_deque n now)))
        × All (λ t. t ≤ now) log
  base now log none last t = (
    omega (arith, length-drop (1 - n) ((now - second) ∷ [])),
    (λ at k. omega (arith, in_window-none window at now log t k)),
    All-weaken window now log t,
  )
  base now log (some dq) none t = elim t [ ]
  base now log (some dq) (some ts) (b, c, o, r) = (b, c, All-trans ts now log o r)

  admit-Inv :
      (key : String) (now later : ℕ) (l : Limiter) (log : List ℕ)
      → now ≤ later
      → Inv n window k now l log
      → let r = admit n window max_keys key later l in
        Inv n window k later r.1 (logged k key later r.0 log)
  unfolding admit
  admit-Inv key now later l log h v = elim (Bool-cases (key == k)) [
    | inl same ↦ rw ((string_key.same_iff key k).0 same) (record {
      dict = put-IsDict k later l'.last_access v'.dict;
      tracked =
          rw
            (
              get-put_self k
                  (decide n window (or_else (get k l'.requests) (first_deque n later)) later).1
                  l'.requests,
              get-put_self k later l'.last_access,
            )
            (let (b, c, o) = base later log (get k l'.requests) _ v'.tracked in
              decide-Tracked later (or_else (get k l'.requests) (first_deque n later)) log b c o);
    })
    | inr other ↦ record {
      dict = put-IsDict key later l'.last_access v'.dict;
      tracked =
          rw (logged_ne key later _ log other, get-put key k, get-put key k, other) v'.tracked;
    }
  ]
    where
      l' : Limiter
      l' = count_request max_keys later l

      v' : Inv n window k later l' log
      v' = count_request-Inv n window max_keys k short now later l log h v

  serve-Inv :
      (requests : List (String × ℕ)) (now end : ℕ) (l : Limiter) (log : List ℕ)
      → IsOrdered now requests end
      → Inv n window k now l log
      → let r = serve n window max_keys k requests l log in Inv n window k end r.0 r.1
  unfolding serve
  serve-Inv [] now end l log h v = record {
    dict = v.dict;
    tracked = Tracked-later n window now end log _ _ h v.tracked;
  }
  serve-Inv ((key, at) ∷ requests) now end l log (h, hs) v =
      serve-Inv requests at end _ _ hs (admit-Inv key now at l log h v)

-- What is tracked bounds the window that ends now.
Tracked-bound :
    (n window now : ℕ) (log : List ℕ) (dq : Option (List ℕ)) (last : Option ℕ)
    → Tracked n window now log dq last
    → in_window window now log ≤ n
Tracked-bound n window now log none last t =
    omega (arith, in_window-none window now now log t (omega arith))
Tracked-bound n window now log (some dq) none t = elim t [ ]
Tracked-bound n window now log (some dq) (some ts) (b, c, o, r) =
    omega (arith, c now (omega arith), in_window-le-length window now dq)

-- However the requests of several keys interleave, and whenever the cleanup runs, the limiter that
-- starts empty has forwarded at most max_requests requests of a key in the window that ends at any
-- time after them, when the clock does not run backwards and the window is at most the five minutes
-- of the cleanup.
pub serve_bound :
    (max_requests window max_keys : ℕ) (k : String) (requests : List (String × ℕ)) (end : ℕ)
    → window ≤ idle
    → IsOrdered 0 requests end
    → in_window window end (serve max_requests window max_keys k requests empty []).1 ≤ max_requests
unfolding get
serve_bound n window max_keys k requests end short h =
    Tracked-bound n window end _ _ _
      (serve-Inv n window max_keys k short requests 0 end empty [] h
        (record { dict = tt; tracked = tt })).tracked
