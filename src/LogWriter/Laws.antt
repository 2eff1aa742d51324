-- ===== src/LogWriter/Laws.antt =====
-- What becomes of the rows that `CallLogWriter` of core.py is given.
use openbotflow.Prelude.{
  ℕ, zero, suc, ◌+◌, ◌≤◌, ◌≡◌, refl, ◌⊎◌, not, any, Bool-cases, Bool, true, false, ◌&&◌, Option,
  none, some, List, [], ◌∷◌, ◌++◌, arith, if◌then◌else◌, is_empty, get_elem?, Option-cases, inl,
  inr,
}
use openbotflow.LogWriter.{
  CallLog, Flush, Writer, flush, log, log_attempt, write_next, write_rows, replace_flush, write,
  other_flushes, stop, Operation, logs, logs_attempt, flushes, writes, stops, perform, perform_all,
}

-- How many rows of a kind there are.
abbrev pub count {ℓ} : {A : Type ℓ} → (A → Bool) → List A → ℕ
count p [] = 0
count p (x ∷ xs) = let rest = count p xs in if p x then suc rest else rest

count-append {ℓ} :
    {A : Type ℓ} (p : A → Bool) (xs ys : List A) → count p (xs ++ ys) ≡ count p xs + count p ys
count-append p [] ys = omega arith
count-append p (x ∷ xs) ys = ground (arith, count-append p xs ys)

-- A database call that fails, and the stop of the service.
abbrev pub drops : Operation → Bool
drops (writes i succeeds) = not succeeds
drops stops = true
drops _ = false

module _ (p : CallLog → Bool) where
  -- The log rows of a kind that the running flushes hold.
  abbrev pub logs_in_flight : List Flush → ℕ
  logs_in_flight [] = 0
  logs_in_flight (f ∷ fs) = count p f.logs + logs_in_flight fs

  -- The log rows of a kind that the service still has, or that are in the database.
  abbrev pub log_total : Writer → ℕ
  log_total w = count p w.buffer + (logs_in_flight w.flushes + count p w.stored)

  -- The log rows of a kind that some operations hand over.
  abbrev pub logged : List Operation → ℕ
  logged [] = 0
  logged (logs entry ∷ os) = count p (entry ∷ []) + logged os
  logged (_ ∷ os) = logged os

  logs_in_flight-append :
      (fs gs : List Flush) → logs_in_flight (fs ++ gs) ≡ logs_in_flight fs + logs_in_flight gs
  logs_in_flight-append [] gs = omega arith
  logs_in_flight-append (f ∷ fs) gs = omega (arith, logs_in_flight-append fs gs)

  log_total-flush : (b : Bool) (w : Writer) → log_total (flush b w) ≡ log_total w
  unfolding flush
  log_total-flush b w =
      elim (is_empty w.buffer && is_empty w.attempts_buffer)
        as (λ t.
          log_total (
            if t then w else record w {
              buffer = [];
              attempts_buffer = [];
              flushes =
                  w.flushes
                  ++ record { by_loop = b; logs = w.buffer; attempts = w.attempts_buffer } ∷ [];
            })
          ≡ log_total w) [
            | true ↦ refl
            | false ↦ omega (
              arith,
              logs_in_flight-append w.flushes
                  (record { by_loop = b; logs = w.buffer; attempts = w.attempts_buffer } ∷ []),
            )
          ]

  logs_left : Option Flush → ℕ
  logs_left none = 0
  logs_left (some f) = count p f.logs

  logs_in_flight-replace_flush :
      (i : ℕ) (o : Option Flush) (f : Flush) (fs : List Flush)
      → get_elem? fs i ≡ some f
      → logs_in_flight (replace_flush i o fs) + count p f.logs ≡ logs_in_flight fs + logs_left o
  unfolding replace_flush logs_left
  logs_in_flight-replace_flush i o f [] e = cc
  logs_in_flight-replace_flush zero none f (g ∷ fs) e = ground arith
  logs_in_flight-replace_flush zero (some h) f (g ∷ fs) e = ground arith
  logs_in_flight-replace_flush (suc i) o f (g ∷ fs) e =
      omega (arith, logs_in_flight-replace_flush i o f fs e)

  -- A call never makes rows; where it succeeds, it drops none.
  log_total-write_next :
      (ok : Bool) (f : Flush) (entries : List CallLog)
      → let d = write_rows ok f entries in
        (logs_left d.rest + count p d.stored ≤ count p entries)
        × (ok ≡ true → logs_left d.rest + count p d.stored ≡ count p entries)
  unfolding logs_left
  log_total-write_next true f [] = (omega arith, (λ h. omega arith))
  log_total-write_next false f [] = (omega arith, (λ h. omega arith))
  log_total-write_next true f (entry ∷ entries) = (ground arith, (λ h. ground arith))
  log_total-write_next false f (entry ∷ entries) = (omega arith, (λ h. cc))

  log_total-write :
      (i : ℕ) (ok : Bool) (w : Writer)
      → (log_total (write i ok w) ≤ log_total w)
        × (ok ≡ true → log_total (write i ok w) ≡ log_total w)
  unfolding write write_next
  log_total-write i ok w = elim (Option-cases (get_elem? w.flushes i)) [
    | inl e ↦ rw e (omega arith, (λ h. refl))
    | inr (f, e) ↦
        let d = write_rows ok f f.logs in
        let (less, same) = log_total-write_next ok f f.logs in
        let moved = logs_in_flight-replace_flush i d.rest f w.flushes e in
        let stored = count-append p w.stored d.stored in
        rw e (omega (arith, less, moved, stored), (λ h. omega (arith, same h, moved, stored)))
  ]

  logs_in_flight-other_flushes :
      (fs : List Flush) → logs_in_flight (other_flushes fs) ≤ logs_in_flight fs
  logs_in_flight-other_flushes [] = omega arith
  logs_in_flight-other_flushes (f ∷ fs) = ground (arith, logs_in_flight-other_flushes fs)

  log_total-stop : (w : Writer) → log_total (stop w) ≤ log_total w
  unfolding stop
  log_total-stop w =
      let running : Writer = record w { flushes = other_flushes w.flushes } in
      omega (arith, log_total-flush false running, logs_in_flight-other_flushes w.flushes)

  log_total-perform :
      (max_buffer : ℕ) (o : Operation) (w : Writer)
      → (log_total (perform max_buffer o w) ≤ log_total w + logged (o ∷ []))
        × (drops o ≡ false → log_total (perform max_buffer o w) ≡ log_total w + logged (o ∷ []))
  unfolding perform log log_attempt
  log_total-perform n (logs entry) w =
      let longer : Writer = record w { buffer = w.buffer ++ entry ∷ [] } in
      let e : log_total (perform n (logs entry) w) ≡ log_total w + logged (logs entry ∷ []) =
        ground (arith, log_total-flush false longer, count-append p w.buffer (entry ∷ [])) in
      (omega (arith, e), (λ h. e))
  log_total-perform n (logs_attempt row) w =
      let longer : Writer = record w { attempts_buffer = w.attempts_buffer ++ row ∷ [] } in
      let e : log_total (perform n (logs_attempt row) w) ≡ log_total w =
        ground (arith, log_total-flush false longer) in
      (omega (arith, e), (λ h. omega (arith, e)))
  log_total-perform n flushes w =
      let e = log_total-flush true w in (omega (arith, e), (λ h. omega (arith, e)))
  log_total-perform n (writes i ok) w =
      let (less, same) = log_total-write i ok w in
      (omega (arith, less), (λ h. omega (arith, same (ground (arith, h)))))
  log_total-perform n stops w = (omega (arith, log_total-stop w), (λ h. cc))

  logged_cons :
      (o : Operation) (os : List Operation) → logged (o ∷ os) ≡ logged (o ∷ []) + logged os
  logged_cons (logs entry) os = omega arith
  logged_cons (logs_attempt row) os = omega arith
  logged_cons flushes os = omega arith
  logged_cons (writes i ok) os = omega arith
  logged_cons stops os = omega arith

  -- After any operations, in any order, no kind of log row is found more often in the buffer, in a
  -- running flush or in the database than it was before and was logged since: none is written twice.
  -- Each kind is found exactly as often, so that none is lost, unless a database call failed or the
  -- service was stopped.
  pub log_total-perform_all :
      (max_buffer : ℕ) (os : List Operation) (w : Writer)
      → (log_total (perform_all max_buffer os w) ≤ log_total w + logged os)
        × ((log_total (perform_all max_buffer os w) ≡ log_total w + logged os)
            ⊎ (any drops os ≡ true))
  unfolding perform_all
  log_total-perform_all n [] w = (omega arith, inl (omega arith))
  log_total-perform_all n (o ∷ os) w =
      let (less, same) = log_total-perform n o w in
      let (less', same') = log_total-perform_all n os (perform n o w) in
      let cons = logged_cons o os in
      (
        omega (arith, less, less', cons),
        elim (Bool-cases (drops o)) [
          | inl gone ↦ inr (rw gone refl)
          | inr none_gone ↦ elim same' [
            | inl e ↦ inl (omega (arith, same none_gone, e, cons))
            | inr later ↦ inr (rw (none_gone, later) refl)
          ]
        ],
      )
