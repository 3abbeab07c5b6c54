-- ===== src/AgentChannel/Channel.antt =====
-- The shared state of an `AgentChannel` in AgentChannel.cpp, the reader thread's `BuildResponse` and
-- the main thread's `DrainInto`, and the optional channel of `AgentChannelHost`. Each of the two
-- holds the mutex while it touches the staging buffer, so one runs after the other.
use playground_engine.Base.{ℕ, Option, none, some, List, [], ◌∷◌, ◌++◌, Text, codes, value_or}
use playground_engine.Reflection.Enumeration.{implicit, EnumeratorInfo, enumerators, enum_to_name}
use playground_engine.Events.{PlatformEvent, PlatformEventRecord, append_all}
use playground_engine.AgentChannel.Tokens.{FloatText}
use playground_engine.AgentChannel.Commands.{
  AgentCommandError, unknown_command, bad_argument_count, bad_argument, Parsed, expected,
  unexpected, parse_command,
}

abbrev pub command_error_number : AgentCommandError → ℕ
command_error_number unknown_command = 0
command_error_number bad_argument_count = 1
command_error_number bad_argument = 2

unfoldable pub command_errors : List EnumeratorInfo
unfolding enumerators
command_errors =
    enumerators (
      ("UnknownCommand", implicit)
      ∷ ("BadArgumentCount", implicit)
      ∷ ("BadArgument", implicit)
      ∷ [])

-- `std::format("error {}\n", EnumToName(error).value_or("Unknown"))`
unfoldable pub error_reply : AgentCommandError → Text
unfolding command_errors enum_to_name
error_reply error =
    codes "error "
    ++ (value_or (enum_to_name command_errors (command_error_number error)) (codes "Unknown")
        ++ (10 ∷ []))

abbrev pub ok_reply : Text
ok_reply = 111 ∷ 107 ∷ 10 ∷ []

pub record AgentChannel (F : Type 0) : Type 0 where
  pub staged_events : List (PlatformEvent F)
  pub drain_buffer : List (PlatformEvent F)

abbrev pub started : {F : Type 0} → AgentChannel F
started = record { staged_events = []; drain_buffer = [] }

module _ {F : Type 0} (floats : FloatText F) where
  unfoldable pub respond : Parsed (PlatformEvent F) → ℕ → AgentChannel F → AgentChannel F × Text
  unfolding error_reply
  respond (unexpected error) now channel = (channel, error_reply error)
  respond (expected event) now channel = (
    record channel {
      staged_events = channel.staged_events ++ (record event { timestamp = now }) ∷ [];
    },
    ok_reply,
  )

  -- `BuildResponse`, with the clock's reading.
  unfoldable pub build_response : Text → ℕ → AgentChannel F → AgentChannel F × Text
  unfolding respond
  build_response line now channel = respond (parse_command floats line) now channel

-- `DrainInto`: the buffer is cleared and swapped with the staged events, then appended.
unfoldable pub drain_into :
    {F : Type 0} → PlatformEventRecord F → AgentChannel F → AgentChannel F × PlatformEventRecord F
drain_into r channel =
    let swapped : AgentChannel _ = record {
      staged_events = [];
      drain_buffer = channel.staged_events;
    } in
    (swapped, append_all swapped.drain_buffer r)

-- `AgentChannelHost::DrainInto`: nothing to do without a channel.
unfoldable pub host_drain_into :
    {F : Type 0}
    → PlatformEventRecord F
    → Option (AgentChannel F)
    → Option (AgentChannel F) × PlatformEventRecord F
unfolding drain_into
host_drain_into r none = (none, r)
host_drain_into r (some channel) = let (channel', r') = drain_into r channel in (some channel', r')
