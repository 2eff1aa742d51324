-- ===== src/Lib.antt =====
-- botflow, an LLM gateway: verification of its routing core and its guards (src/botflow).
--
-- A request passes the key check (Auth) and the rate limiter (RateLimit), is converted from its format
-- (Adapter, Content) and names a model group. The driver of core.py (Driver) runs the group through
-- the engine of pipeline/langgraph_engine.py: a strategy (Strategies) loads the group's endpoints from
-- the caches (Caches), leaves out those on cooldown (Cooldown), orders the others and cuts the
-- messages to the smallest context window (Context). The engine tries the endpoints one after the
-- other (Engine, Stream); each call has its retries (Retry), holds a permit of its provider's
-- semaphore and reports to the cooldown (Call). A group that fails hands over to its backup group.
-- What has come of the request goes to the log writer (LogWriter).
--
-- Which file models which part, and how it corresponds to the code:
--   Prelude, Json     shared notation, dictionaries, integers; JSON values
--   Errors, Models    common/exceptions.py; storage/models.py and RouteResult of pipeline/base.py
--   Cooldown          CooldownManager of router.py, each method a function on its dictionary; Saved:
--                     save_cooldown_state and load_cooldown_states of storage/db.py, and the periodic
--                     save and the restoring on start of core.py
--   Retry             is_retryable_error and exponential_backoff of router.py
--   Runtime           the state that tasks share, and the outside world as a record of operations
--   Call              call_llm of pipeline/_shared.py, _ensure_provider_semaphore of router.py
--   Engine            the state RouteState; Graph: the nodes and edges and _run_one; Fast:
--                     _run_one_fast; Run: run in its chat mode and _load_group
--   Driver            _drive_chat of core.py; Route: LangGraphEngine.route; Streaming:
--                     _drive_stream of core.py, also over the engine's direct path
--   Stream            semaphore_guarded_stream of pipeline/_shared.py; Run: _run_stream_fast of the
--                     engine, as a generator that its consumer resumes or closes
--   Strategies        weighted_random_select and weighted_random_order of router.py; Select: the
--                     three classes of pipeline/strategies.py
--   Caches            _get_cached_provider, load_endpoints, the invalidations and _retire_provider
--   Context           common/context.py, and truncate_messages of pipeline/_shared.py
--   LogWriter         CallLogWriter, _log_call and _log_attempts of core.py
--   RateLimit         RateLimitMiddleware of core.py
--   Text, Content     operations on texts; common/content_converters.py
--   Adapter           protocol_adapter.py: requests, and the events of Anthropic's streams; Unified:
--                     the chunks of providers/openai_compat.py
--   Auth              auth.py, AuthMiddleware of core.py, the account's endpoints of admin_api.py and
--                     the config table of storage/db.py
--   Tests             tests on concrete inputs, and instances of the theorems
--
-- Conventions. Times are naturals in microseconds, ids and counts naturals, weights and temperatures
-- integers in a unit of their own. An awaited call of the outside world returns a whole new shared
-- state, since other tasks may run meanwhile; theorems that need that they stay away say so by
-- IsQuiet and IsQuietStream. The tokenizer, hash functions, JSON's text form, random tokens and draws,
-- the provider clients, the clocks and the database rows are arguments.
--
-- Fuel. The group loop takes max_fallback_groups rounds, since each round visits one more group;
-- try_call and the weighted order take one round for each endpoint, the retries max_retries, and the
-- binary search one more than the messages it searches, since each round halves what is left.
--
-- Not modelled: the graph's streaming node, whole answers and the Responses format of the protocol
-- adapters, and the workflow strategy; the other tables of the database, the rest of the admin API,
-- the command line and the provider clients, which are calls of libraries and input and output;
-- cancellation of a call that waits or flushes, log output, and the numbers inside the texts of
-- errors.
pub mod Prelude
pub mod Text
pub mod Content
pub mod Adapter
pub mod Json
pub mod Errors
pub mod Models
pub mod Cooldown
pub mod Retry
pub mod Runtime
pub mod Call
pub mod Engine
pub mod Driver
pub mod RateLimit
pub mod Context
pub mod Strategies
pub mod Stream
pub mod Caches
pub mod LogWriter
pub mod Auth
pub mod Tests
