-- ===== src/AgentChannel/Connection.antt =====
-- `WaitReadable`, `HandleConnection` and the accept loop of `ReaderLoop` in AgentChannel.cpp. What
-- the kernel answers to each system call comes as a list; `none` means that the code still waits
-- at the list's end.
use playground_engine.Base.{
  ℕ, Bool, true, false, not, ◌&&◌, ◌||◌, Option, none, some, List, [], ◌∷◌, ◌++◌, ◌==◌, ltb,
  if◌then◌else◌, any_of, length, Text, bind,
}
use playground_engine.AgentChannel.Tokens.{FloatText}
use playground_engine.AgentChannel.Commands.{bad_argument}
use playground_engine.AgentChannel.Channel.{AgentChannel, build_response, error_reply}

pub data WaitOutcome : Type 0 where
  ready stopped timed_out failed : WaitOutcome

-- The answer of `poll`.
pub data PollResult : Type 0 where
  interrupted poll_error no_descriptor : PollResult
  -- Whether the wake descriptor is readable, whether the channel is stopping by then, and whether
  -- the descriptor has an event.
  events : Bool → Bool → Bool → PollResult

-- One round: whether the channel is stopping before the call, and what `poll` answers.
abbrev pub PollRound : Type 0
PollRound = Bool × PollResult

unfoldable pub wait_readable : List PollRound → Option (WaitOutcome × List PollRound)
wait_readable [] = none
wait_readable ((true, answer) ∷ rest) = some (stopped, rest)
wait_readable ((false, interrupted) ∷ rest) = wait_readable rest
wait_readable ((false, poll_error) ∷ rest) = some (failed, rest)
wait_readable ((false, no_descriptor) ∷ rest) = some (timed_out, rest)
wait_readable ((false, events wake stopping descriptor) ∷ rest) =
    let again = wait_readable rest in
    if wake || stopping
    then some (stopped, rest)
    else if descriptor
    then some (ready, rest)
    else again

-- The answer of `read`.
pub data ReadResult : Type 0 where
  read_interrupted read_error end_of_file : ReadResult
  bytes : Text → ReadResult

abbrev pub maximum_request_length : ℕ
maximum_request_length = 1024

abbrev pub newline : ℕ
newline = 10

abbrev pub has_newline : Text → Bool
has_newline = any_of (λ c. c == newline)

-- What the read loop of `HandleConnection` ends with: the request and whether the input ended, or
-- a connection that is dropped without an answer.
pub data Received : Type 0 where
  request : Text → Bool → Received
  dropped : Received

-- Each round waits, then reads. `none` at the list's end: the loop still waits.
unfoldable pub receive : List (WaitOutcome × ReadResult) → Text → Option Received
receive [] so_far =
    if not (has_newline so_far) && ltb (length so_far) maximum_request_length
    then none
    else some (request so_far false)
receive ((outcome, answer) ∷ rest) so_far =
    let next : Option Received = elim outcome [
      | ready ↦ (elim answer [
        | read_interrupted ↦ receive rest so_far
        | read_error ↦ some dropped
        | end_of_file ↦ some (request so_far true)
        | bytes chunk ↦ receive rest (so_far ++ chunk)
      ])
      | stopped ↦ some dropped
      | timed_out ↦ some dropped
      | failed ↦ some dropped
    ] in
    if not (has_newline so_far) && ltb (length so_far) maximum_request_length
    then next
    else some (request so_far false)

-- The bytes before the first newline.
unfoldable pub line_of : Text → Text
line_of [] = []
line_of (c ∷ rest) = let more = line_of rest in if c == newline then [] else c ∷ more

module _ {F : Type 0} (floats : FloatText F) where
  -- The end of `HandleConnection`: the channel after it, and the reply, if one is sent.
  unfoldable pub answer : Received → ℕ → AgentChannel F → AgentChannel F × Option Text
  answer dropped now channel = (channel, none)
  answer (request text end_of_input) now channel =
      let (channel', reply) = build_response floats (line_of text) now channel in
      if not (has_newline text) && not end_of_input
      then (channel, some (error_reply bad_argument))
      else (channel', some reply)

  unfoldable pub handle_connection :
      List (WaitOutcome × ReadResult) → ℕ → AgentChannel F → Option (AgentChannel F × Option Text)
  unfolding receive answer
  handle_connection rounds now channel = bind (receive rounds []) (λ r. some (answer r now channel))
