-- ===== src/LogWriter/Drain.antt =====
-- How the flushes of `CallLogWriter` end.
use openbotflow.Prelude.{
  ℕ, zero, suc, ◌+◌, ◌≡◌, refl, true, List, [], ◌∷◌, arith, ◌++◌, length, append-nil, append_assoc,
  sym, ap, ◌∙◌,
}
use openbotflow.LogWriter.{
  CallLog, AttemptRow, Flush, Writer, write_next, write_rows, replace_flush, write, Operation,
  writes, perform, perform_all,
}

-- So many database calls the running flushes have still to make.
abbrev pub calls_left : List Flush → ℕ
calls_left [] = 0
calls_left (f ∷ fs) = suc (length f.logs) + calls_left fs

-- So many successful database calls, each of the flush that has run longest.
abbrev pub successes : ℕ → List Operation
successes zero = []
successes (suc n) = writes 0 true ∷ successes n

-- The rows that the running flushes still hold, the oldest flush first.
abbrev pub logs_held : List Flush → List CallLog
logs_held [] = []
logs_held (f ∷ fs) = f.logs ++ logs_held fs

abbrev pub attempts_held : List Flush → List AttemptRow
attempts_held [] = []
attempts_held (f ∷ fs) = f.attempts ++ attempts_held fs

-- A writer whose flushes have ended, with all that they held in the database.
abbrev pub Drained : Writer → Writer → Type 0
Drained before w =
    (w.flushes ≡ [])
    × (w.buffer ≡ before.buffer)
    × (w.attempts_buffer ≡ before.attempts_buffer)
    × (w.stored ≡ before.stored ++ logs_held before.flushes)
    × (w.stored_attempts ≡ before.stored_attempts ++ attempts_held before.flushes)

-- What is left behind the first running flush's next call, when it succeeds.
abbrev rest_of : Flush → List Flush → List Flush
rest_of f fs = replace_flush 0 (write_rows true f f.logs).rest (f ∷ fs)

first_rows :
    (f : Flush) (logs : List CallLog) (fs : List Flush)
    → let d = write_rows true f logs in
      let left = replace_flush 0 d.rest (f ∷ fs) in
      (calls_left left ≡ length logs + calls_left fs)
      × (d.stored ++ logs_held left ≡ logs ++ logs_held fs)
      × (d.stored_attempts ++ attempts_held left ≡ f.attempts ++ attempts_held fs)
unfolding replace_flush
first_rows f [] fs = (omega arith, refl, refl)
first_rows f (entry ∷ entries) fs = (omega arith, refl, refl)

-- The first running flush's next call succeeds.
write_first :
    (f : Flush) (fs : List Flush) (w : Writer)
    → w.flushes ≡ f ∷ fs
    → let w' = write 0 true w in
      (suc (calls_left w'.flushes) ≡ calls_left w.flushes)
      × (w'.stored ++ logs_held w'.flushes ≡ w.stored ++ logs_held w.flushes)
      × (w'.stored_attempts ++ attempts_held w'.flushes
          ≡ w.stored_attempts ++ attempts_held w.flushes)
      × (w'.buffer ≡ w.buffer)
      × (w'.attempts_buffer ≡ w.attempts_buffer)
unfolding write write_next
write_first f fs w e = rw e (
    let (shorter, logs, attempts) = first_rows f f.logs fs in
    let d = write_rows true f f.logs in
    (
      omega (arith, shorter),
      append_assoc w.stored d.stored (logs_held (rest_of f fs)) ∙ ap (λ xs. w.stored ++ xs) logs,
      append_assoc w.stored_attempts d.stored_attempts (attempts_held (rest_of f fs))
          ∙ ap (λ xs. w.stored_attempts ++ xs) attempts,
      refl,
      refl,
    ))

drained :
    (max_buffer n : ℕ) (fs : List Flush) (w : Writer)
    → w.flushes ≡ fs
    → calls_left fs ≡ n
    → Drained w (perform_all max_buffer (successes n) w)
unfolding perform_all perform
drained m zero [] w e h =
    (e, refl, refl, rw e (sym (append-nil w.stored)), rw e (sym (append-nil w.stored_attempts)))
drained m zero (f ∷ fs) w e h = let off : ⊥ = omega (arith, h) in elim off [ ]
drained m (suc n) [] w e h = let off : ⊥ = omega (arith, h) in elim off [ ]
drained m (suc n) (f ∷ fs) w e h =
    let (shorter, l, a, b, b') = write_first f fs w e in
    let (f', c, c', l', a') =
      drained m n (write 0 true w).flushes (write 0 true w) refl
        (omega (arith, shorter, ap calls_left e)) in
    (f', c ∙ b, c' ∙ b', l' ∙ l, a' ∙ a)

-- As many successful database calls as the running flushes have log rows, and one more for each
-- flush's attempts, each made for the oldest flush that is still running, end all running flushes:
-- their log rows and their attempts are then in the database, behind what was there, in the order
-- of the flushes and each once. The buffers are left alone.
pub successes-Drained :
    (max_buffer n : ℕ) (w : Writer)
    → calls_left w.flushes ≡ n
    → Drained w (perform_all max_buffer (successes n) w)
successes-Drained m n w e = drained m n w.flushes w refl e
