-- ===== src/Cooldown/Laws.antt =====
-- Failure counting and the cooldown window of `CooldownManager`.
use openbotflow.Prelude.{
  ℕ, ◌+◌, ◌*◌, ◌≤◌, ◌<◌, ◌≡◌, ◌↔◌, refl, true, false, List, [], ◌∷◌, arith, leb, nat_key, pair_key,
  length, if◌then◌else◌, or_else, ap, ◌∙◌, ◌++◌,
}
use openbotflow.Prelude.Assoc.{get, get-put_self}
use openbotflow.Cooldown.{
  second, CooldownState, CooldownManager, fresh, failed, record_success, record_failure,
  is_on_cooldown, get_failure_count,
}

abbrev pub state_of : ℕ → ℕ → CooldownManager → CooldownState
state_of g m states = or_else (get (g, m) states) fresh

-- Failures of one model at the given times, in order.
unfoldable pub fail_at : ℕ → ℕ → ℕ → ℕ → List ℕ → CooldownManager → CooldownManager
fail_at g m threshold seconds [] states = states
fail_at g m threshold seconds (now ∷ later) states =
    fail_at g m threshold seconds later (record_failure g m threshold seconds now states)

run : ℕ → ℕ → List ℕ → CooldownState → CooldownState
run threshold seconds [] state = state
run threshold seconds (now ∷ later) state =
    run threshold seconds later (failed threshold seconds now state)

-- A run of failures counts them all; the last one sets the deadline once the count is at the
-- threshold.
run_last :
    (threshold seconds now : ℕ) (times : List ℕ) (state : CooldownState)
    → let total = state.consecutive_failures + length times + 1 in
      run threshold seconds (times ++ now ∷ []) state ≡ record {
        consecutive_failures = total;
        cooldown_until =
            if leb threshold total then now + seconds * second else state.cooldown_until;
      }
unfolding run
run_last threshold seconds now [] state = ground arith
run_last threshold seconds now (t ∷ times) state =
    ground (arith, run_last threshold seconds now times (failed threshold seconds t state))

module _ (g m : ℕ) where
  state_of-record_failure :
      (threshold seconds now : ℕ) (states : CooldownManager)
      → state_of g m (record_failure g m threshold seconds now states)
        ≡ failed threshold seconds now (state_of g m states)
  unfolding record_failure
  state_of-record_failure threshold seconds now states = rw get-put_self

  state_of-fail_at :
      (threshold seconds : ℕ) (times : List ℕ) (states : CooldownManager)
      → state_of g m (fail_at g m threshold seconds times states)
        ≡ run threshold seconds times (state_of g m states)
  unfolding fail_at run
  state_of-fail_at threshold seconds [] states = refl
  state_of-fail_at threshold seconds (now ∷ later) states =
      state_of-fail_at threshold seconds later (record_failure g m threshold seconds now states)
      ∙ ap (run threshold seconds later) (state_of-record_failure threshold seconds now states)

  pub is_on_cooldown_iff :
      (now : ℕ) (states : CooldownManager)
      → ((is_on_cooldown g m now states).0 ≡ true) ↔ (now < (state_of g m states).cooldown_until)
  unfolding is_on_cooldown
  is_on_cooldown_iff now states = ground arith

  -- After a run of failures the count is exact, and the model is on cooldown exactly while the
  -- threshold is reached and the last failure's window lasts. It started with no cooldown set.
  pub fail_at-is_on_cooldown :
      (threshold seconds : ℕ) (times : List ℕ) (now t : ℕ) (states : CooldownManager)
      → (state_of g m states).cooldown_until ≡ 0
      → let after = fail_at g m threshold seconds (times ++ now ∷ []) states in
        let total = get_failure_count g m states + length times + 1 in
        (get_failure_count g m after ≡ total)
        × (((is_on_cooldown g m t after).0 ≡ true)
            ↔ (threshold ≤ total) × (t < now + seconds * second))
  unfolding get_failure_count
  fail_at-is_on_cooldown threshold seconds times now t states clear =
      let after = fail_at g m threshold seconds (times ++ now ∷ []) states in
      ground (
        arith,
        is_on_cooldown_iff t after,
        state_of-fail_at threshold seconds (times ++ now ∷ []) states,
        run_last threshold seconds now times (state_of g m states),
      )

  -- A success ends the cooldown and clears the count.
  pub record_success_resets :
      (now : ℕ) (states : CooldownManager)
      → ((is_on_cooldown g m now (record_success g m states)).0 ≡ false)
        × (get_failure_count g m (record_success g m states) ≡ 0)
  unfolding is_on_cooldown record_success get_failure_count
  record_success_resets now states = ground (arith, get-put_self (g, m) fresh states)
