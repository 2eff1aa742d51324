-- ===== src/LogWriter/Bounds.antt =====
-- How long the buffers of `CallLogWriter` get.
use openbotflow.Prelude.{
  ℕ, ◌<◌, ◌≡◌, Bool, true, false, Option, none, some, List, [], ◌∷◌, arith, length, length-append,
  is_empty, get_elem?,
}
use openbotflow.LogWriter.{
  CallLog, AttemptRow, Flush, Writer, flush, log, log_attempt, write_of, write, stop, Operation,
  logs, logs_attempt, flushes, writes, stops, perform, perform_all,
}

-- Both buffers are below the size that starts a flush.
abbrev pub Within : ℕ → Writer → Type 0
Within max_buffer w = (length w.buffer < max_buffer) × (length w.attempts_buffer < max_buffer)

module _ (max_buffer : ℕ) (positive : 0 < max_buffer) where
  Within-flush : (b : Bool) (w : Writer) → Within max_buffer w → Within max_buffer (flush b w)
  unfolding flush
  Within-flush b w h = ground arith

  Within-emptied :
      (b : Bool) (w : Writer) → is_empty w.buffer ≡ false → Within max_buffer (flush b w)
  unfolding flush
  Within-emptied b w e = ground arith

  Within-log :
      (entry : CallLog) (w : Writer)
      → Within max_buffer w
      → Within max_buffer (log max_buffer entry w)
  unfolding log flush
  Within-log entry w h = ground (arith, length-append w.buffer (entry ∷ []))

  Within-log_attempt :
      (row : AttemptRow) (w : Writer)
      → Within max_buffer w
      → Within max_buffer (log_attempt max_buffer row w)
  unfolding log_attempt flush
  Within-log_attempt row w h = ground (arith, length-append w.attempts_buffer (row ∷ []))

  Within-write :
      (i : ℕ) (ok : Bool) (o : Option Flush) (w : Writer)
      → Within max_buffer w
      → Within max_buffer (write_of i ok o w)
  Within-write i ok none w h = h
  Within-write i ok (some f) w h = h

  Within-perform :
      (o : Operation) (w : Writer)
      → Within max_buffer w
      → Within max_buffer (perform max_buffer o w)
  unfolding perform write stop
  Within-perform (logs entry) w h = Within-log entry w h
  Within-perform (logs_attempt row) w h = Within-log_attempt row w h
  Within-perform flushes w h = Within-flush true w h
  Within-perform (writes i ok) w h = Within-write i ok (get_elem? w.flushes i) w h
  Within-perform stops w h = Within-flush false _ h

  -- With a positive limit, buffers below it stay below it after any operations, in any order: a row
  -- that fills a buffer starts a flush, which empties both.
  pub perform_all-Within :
      (os : List Operation) (w : Writer)
      → Within max_buffer w
      → Within max_buffer (perform_all max_buffer os w)
  unfolding perform_all
  perform_all-Within [] w h = h
  perform_all-Within (o ∷ os) w h =
      perform_all-Within os (perform max_buffer o w) (Within-perform o w h)
