-- ===== src/Tests/Driving.antt =====
-- The streaming driver over a scripted engine, and over the engine's direct path.
use openbotflow.Prelude.{
  ℕ, ◌+◌, ◌*◌, ◌≤◌, ◌≡◌, refl, Bool, true, false, none, some, List, [], ◌∷◌, arith, length, ◌==◌,
  nat_key, if◌then◌else◌,
}
use openbotflow.Json.{obj, end}
use openbotflow.Errors.{ok}
use openbotflow.Models.{ModelGroup}
use openbotflow.Stream.{FinalState}
use openbotflow.Driver.Streaming.{
  Pulled, a_chunk, a_state, exhausted, raised, StreamEngine, Wire, Drive, drive_stream,
}
use openbotflow.Driver.Streaming.Rows.{
  LoadsById, IsAccounted, AtMostThree, drive_stream-IsAccounted,
}
use openbotflow.Driver.Streaming.Ends.{IsBounded, IsShorter, IsAtEnd, drive_stream-IsAtEnd}
use openbotflow.Driver.Streaming.Commits.{SerializesOrDies}
use openbotflow.Driver.Streaming.OneGroup.{IsOneGroup}
use openbotflow.Driver.Streaming.Direct.{StreamArgs, direct_engine, direct-IsOneGroup}
use openbotflow.Tests.Routing.{sim, start, group, reply}
use openbotflow.Tests.Streaming.{script, request, replies}

abbrev final : Bool → FinalState
final recoverable = record {
  is_ok = true;
  stream_started = true;
  recoverable = recoverable;
  used_model_id = some 4;
  used_provider_id = some 7;
  attempts = [];
}

-- Group 1 fails before its first chunk, every other group sends one.
abbrev events : ℕ → List Pulled
events id =
    if id == 1 then a_state (final true) ∷ [] else a_chunk (obj reply) ∷ a_state (final false) ∷ []

abbrev next_event : List Pulled → ℕ → Pulled × List Pulled × ℕ
next_event [] s = (exhausted, [], s)
next_event (e ∷ es) s = (e, es, s)

abbrev scripted : StreamEngine ℕ (List Pulled)
scripted = record {
  run = λ g s. (ok (events g.id), s);
  pull = next_event;
  close = λ es s. s;
  is_disconnected = λ s. (false, s);
  load_group = λ id s. (ok (group id none), s);
}

abbrev wire : Wire
wire = record {
  model_name = "m";
  serialize = λ c. ok ("data: chunk" ∷ [], none);
  error_line = λ m. m;
  done_signal = "data: [DONE]";
}

abbrev ran_all : Drive ℕ (List Pulled)
ran_all = drive_stream scripted wire 1 (group 1 (some 2)) 0 7

two_lines : ran_all.lines ≡ "data: chunk" ∷ "data: [DONE]" ∷ []
unfolding drive_stream
two_lines = refl

both_groups : ran_all.ran ≡ 1 ∷ 2 ∷ []
unfolding drive_stream
both_groups = refl

scripted-LoadsById : LoadsById scripted
scripted-LoadsById = record { same_id = λ id s g h. ground arith }

drive_stream-IsAccounted_example :
    IsAccounted wire 1
      (drive_stream scripted wire 1 (group 1 (some 2)) 0 7).place
      (drive_stream scripted wire 1 (group 1 (some 2)) 0 7)
    × AtMostThree (drive_stream scripted wire 1 (group 1 (some 2)) 0 7).ran
drive_stream-IsAccounted_example =
    drive_stream-IsAccounted scripted wire 1 scripted-LoadsById (group 1 (some 2)) 0 7

run_bounded : (g : ModelGroup) (s : ℕ) → length (events g.id) ≤ 2
run_bounded g s = ground arith

next_event-IsShorter : (es : List Pulled) (s : ℕ) → IsShorter length (length es) (next_event es s)
next_event-IsShorter [] s = tt
next_event-IsShorter (a_chunk c ∷ es) s = omega arith
next_event-IsShorter (a_state f ∷ es) s = omega arith
next_event-IsShorter (exhausted ∷ es) s = tt
next_event-IsShorter (raised e ∷ es) s = tt

scripted-IsBounded : IsBounded scripted 2
scripted-IsBounded = record {
  left = length;
  run_bounded = run_bounded;
  pull_shorter = next_event-IsShorter;
}

drive_stream-IsAtEnd_example :
    IsAtEnd (drive_stream scripted wire 1 (group 1 (some 2)) 0 (3 * (2 + 2))).place
drive_stream-IsAtEnd_example =
    drive_stream-IsAtEnd scripted wire 1 scripted-LoadsById 2 scripted-IsBounded (group 1 (some 2))
      0

wire-SerializesOrDies : SerializesOrDies wire
wire-SerializesOrDies chunk e h = let off : ⊥ = cc in elim off [ ]

abbrev args : StreamArgs
args = record { messages = []; temperature = none; max_tokens = none; extra = end }

direct-IsOneGroup_example : IsOneGroup (
    drive_stream
      (direct_engine sim script (λ g ms t n x s. (ok request.preselected, s)) args)
      wire
      1
      (group 1 (some 2))
      (start replies)
      9)
direct-IsOneGroup_example =
    direct-IsOneGroup sim script (λ g ms t n x s. (ok request.preselected, s)) args wire 1
      (group 1 (some 2)) (start replies) 9 wire-SerializesOrDies
