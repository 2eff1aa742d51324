-- ===== src/Driver/Streaming/Direct.antt =====
-- `run` of the engine in its stream mode, with the generator `_run_stream_fast`, as the engine that
-- `_drive_stream` of core.py works with.
use openbotflow.Prelude.{ℕ, refl, Option, none, List, []}
use openbotflow.Prelude.Int.{ℤ}
use openbotflow.Json.{Fields}
use openbotflow.Errors.{Result, ok, err}
use openbotflow.Models.{Message, ModelGroup, RouteResult}
use openbotflow.Runtime.{Shared, Env}
use openbotflow.Engine.{Select}
use openbotflow.Engine.Run.{load_group}
use openbotflow.Stream.{
  Streams, Event, chunk_event, state_event, stop_iteration, Position, at_start, streaming, closing,
  at_end, advance, after_next,
}
use openbotflow.Stream.Run.{StreamRequest, walk_endpoints, resume, quit}
use openbotflow.Stream.Protocol.{Leaves, Never, after_next-Leaves, walk_endpoints-Leaves}
use openbotflow.Driver.Streaming.{
  Pulled, a_chunk, a_state, exhausted, StreamEngine, Wire, drive_stream,
}
use openbotflow.Driver.Streaming.Commits.{
  Stage, fresh, committed, over, Follows, Starts, IsCommitting, SerializesOrDies,
}
use openbotflow.Driver.Streaming.OneGroup.{IsOneGroup, drive_stream-IsOneGroup}

abbrev pub pulled_of : Event → Pulled
pulled_of (chunk_event c) = a_chunk c
pulled_of (state_event f) = a_state f
pulled_of stop_iteration = exhausted

-- The arguments of a request, which `_drive_stream` gives to each run.
pub record StreamArgs : Type 0 where
  pub messages : List Message
  pub temperature : Option ℤ
  pub max_tokens : Option ℕ
  pub extra : Fields

module _ {W : Type 0} (env : Env W) (streams : Streams W) (select : Select W)
    (args : StreamArgs) where
  -- The generator that a successful selection starts.
  abbrev pub started :
      ModelGroup → Result RouteResult × Shared W → Result (StreamRequest × Position) × Shared W
  started group (err e, s) = (err e, s)
  started group (ok preselected, s) = (
    ok (
      record {
        group = group;
        temperature = args.temperature;
        max_tokens = args.max_tokens;
        extra = args.extra;
        preselected = preselected;
      },
      at_start,
    ),
    s,
  )

  unfoldable pub run_stream : ModelGroup → Shared W → Result (StreamRequest × Position) × Shared W
  run_stream group s =
      started group (select group args.messages args.temperature args.max_tokens args.extra s)

  -- What `_drive_stream` sees of an event and of the generator that it leaves.
  abbrev pub seen :
      StreamRequest → Event × Position × Shared W → Pulled × (StreamRequest × Position) × Shared W
  seen q (event, position, s) = (pulled_of event, (q, position), s)

  abbrev pub direct_engine : StreamEngine (Shared W) (StreamRequest × Position)
  direct_engine = record {
    run = run_stream;
    pull = λ g s. seen g.0 (resume env streams g.0 g.1 s);
    close = λ g s. (quit env streams g.0 g.1 s).1;
    is_disconnected = streams.is_disconnected;
    load_group = load_group env;
  }

  abbrev stage_of : StreamRequest × Position → Stage
  stage_of (q, at_start) = fresh
  stage_of (q, streaming ep attempts st) = committed
  stage_of (q, closing st) = over
  stage_of (q, at_end) = over

  started-Starts :
      (group : ModelGroup) (r : Result RouteResult × Shared W) → Starts stage_of (started group r)
  started-Starts group (err e, s) = tt
  started-Starts group (ok preselected, s) = refl

  run_stream-Starts : (group : ModelGroup) (s : Shared W) → Starts stage_of (run_stream group s)
  unfolding run_stream
  run_stream-Starts group s =
      started-Starts group
        (select group args.messages args.temperature args.max_tokens args.extra s)

  fresh-Follows :
      (q : StreamRequest) (r : Event × Position × Shared W)
      → Leaves (λ b. Unit) r
      → Follows stage_of fresh (seen q r)
  fresh-Follows q (chunk_event c, streaming ep attempts st, s) h = refl
  fresh-Follows q (chunk_event c, at_start, s) h = elim h [ ]
  fresh-Follows q (chunk_event c, closing st, s) h = elim h [ ]
  fresh-Follows q (chunk_event c, at_end, s) h = elim h [ ]
  fresh-Follows q (state_event f, streaming ep attempts st, s) h = elim h.1 [ ]
  fresh-Follows q (state_event f, at_start, s) h = elim h.1 [ ]
  fresh-Follows q (state_event f, closing st, s) h = refl
  fresh-Follows q (state_event f, at_end, s) h = refl
  fresh-Follows q (stop_iteration, position, s) h = elim h [ ]

  committed-Follows :
      (q : StreamRequest) (r : Event × Position × Shared W)
      → Leaves Never r
      → Follows stage_of committed (seen q r)
  committed-Follows q (chunk_event c, streaming ep attempts st, s) h = refl
  committed-Follows q (chunk_event c, at_start, s) h = elim h [ ]
  committed-Follows q (chunk_event c, closing st, s) h = elim h [ ]
  committed-Follows q (chunk_event c, at_end, s) h = elim h [ ]
  committed-Follows q (state_event f, streaming ep attempts st, s) h = elim h.1 [ ]
  committed-Follows q (state_event f, at_start, s) h = elim h.1 [ ]
  committed-Follows q (state_event f, closing st, s) (h, k) = (h, refl)
  committed-Follows q (state_event f, at_end, s) (h, k) = (h, refl)
  committed-Follows q (stop_iteration, position, s) h = elim h [ ]

  resume-Follows :
      (q : StreamRequest) (position : Position) (s : Shared W)
      → Follows stage_of (stage_of (q, position)) (seen q (resume env streams q position s))
  unfolding resume
  resume-Follows q at_start s =
      fresh-Follows q (walk_endpoints env streams q q.preselected.endpoints [] none none s)
        (walk_endpoints-Leaves env streams q q.preselected.endpoints [] none none s)
  resume-Follows q (streaming ep attempts st) s =
      committed-Follows q (after_next env streams ep attempts (advance env streams st s))
        (after_next-Leaves env streams ep attempts (advance env streams st s))
  resume-Follows q (closing st) s = tt
  resume-Follows q at_end s = tt

  abbrev direct_engine-IsCommitting : IsCommitting direct_engine
  direct_engine-IsCommitting = record {
    stage = stage_of;
    run_starts = run_stream-Starts;
    pull_follows = λ g s. resume-Follows g.0 g.1 s;
  }

  -- The driver over the engine's own direct path: whatever the providers, the clients and other tasks
  -- do, as long as no error of `_serialize` is one that falls back, all the chunks that a client gets
  -- for a request came from one group.
  pub direct-IsOneGroup :
      (wire : Wire) (group_id : ℕ) (primary : ModelGroup) (s : Shared W) (n : ℕ)
      → SerializesOrDies wire
      → IsOneGroup (drive_stream direct_engine wire group_id primary s n)
  direct-IsOneGroup wire group_id primary s n dies =
      drive_stream-IsOneGroup direct_engine wire group_id direct_engine-IsCommitting dies primary s
        n
