-- ===== src/Tests/Streaming.antt =====
-- A scripted stream: each reply is a chunk, an error is raised, and the end of the script ends it.
use openbotflow.Prelude.{ℕ, ◌≡◌, refl, false, none, List, [], ◌∷◌, arith}
use openbotflow.Json.{obj, Fields, end}
use openbotflow.Errors.{Result, ok, err}
use openbotflow.Retry.{is_retryable_error}
use openbotflow.Runtime.{Shared}
use openbotflow.Stream.{Step, chunk, finished, failed, Streams, chunk_event, at_start}
use openbotflow.Stream.Run.{StreamRequest, consume}
use openbotflow.Stream.Permits.{held}
use openbotflow.Stream.Laws.{IsQuietStream, consume-held}
use openbotflow.Stream.Protocol.{IsProtocol, consume-IsProtocol}
use openbotflow.Tests.Routing.{World, sim, sim-IsQuiet, start, endpoint, group, busy, reply}

abbrev pub play : ℕ → Shared World → Step × Shared World
play id s = elim s.world.replies [
  | [] ↦ (finished, s)
  | ok body ∷ rs ↦
      (chunk (obj body), record s { world = record { replies = rs; clock = s.world.clock } })
  | err e ∷ rs ↦ (failed e, record s { world = record { replies = rs; clock = s.world.clock } })
]

abbrev pub script : Streams World
script = record {
  chat_stream = λ c w. (0, w);
  next = play;
  close = λ id s. s;
  is_disconnected = λ s. (false, s);
}

script-IsQuietStream : IsQuietStream script
script-IsQuietStream = record {
  next_semaphores = λ id s. ground arith;
  close_semaphores = λ id s. refl;
  disconnected_semaphores = λ s. refl;
}

abbrev pub request : StreamRequest
request = record {
  group = group 1 none;
  temperature = none;
  max_tokens = none;
  extra = end;
  preselected = record {
    endpoints = endpoint 4 ∷ endpoint 5 ∷ [];
    messages = [];
    temperature = none;
    max_tokens = none;
    extra_kwargs = end;
  };
}

-- The first attempt is retried, and the stream breaks behind its second chunk.
abbrev pub replies : List (Result Fields)
replies = err busy ∷ ok reply ∷ ok reply ∷ err busy ∷ []

two_chunks :
    (consume sim script request 2 at_start (start replies)).0
    ≡ chunk_event (obj reply) ∷ chunk_event (obj reply) ∷ []
unfolding consume is_retryable_error
two_chunks = refl

-- The permit is out while the stream runs, and back when the consumer closes it.
consume-held_example :
    held 7 (consume sim script request 2 at_start (start replies)).1.semaphores
    ≡ held 7 (start replies).semaphores
consume-held_example =
    consume-held sim script request 2 (start replies) 7 sim-IsQuiet script-IsQuietStream

consume-IsProtocol_example : IsProtocol (consume sim script request 4 at_start (start replies)).0
consume-IsProtocol_example = consume-IsProtocol sim script request 4 (start replies)
