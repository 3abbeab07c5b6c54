-- ===== src/AgentChannel/Exchange.antt =====
-- The reader thread and the frame loop of AgentChannel.cpp, interleaved in any way.
use playground_engine.Base.{◌∙◌, ℕ, ◌≡◌, refl, List, [], ◌∷◌, ◌++◌, Text, sym, ap}
use mathlib.Core.List.{append_assoc, append-nil}
use playground_engine.Events.{PlatformEvent, append_all}
use playground_engine.AgentChannel.Tokens.{FloatText}
use playground_engine.AgentChannel.Commands.{Parsed, expected, unexpected, parse_command}
use playground_engine.AgentChannel.Channel.{
  respond, AgentChannel, started, build_response, drain_into,
}

-- One turn of either thread: a request with the clock's reading, or the drain of a frame.
pub data Turn : Type 0 where
  request : Text → ℕ → Turn
  drain : Turn

module _ {F : Type 0} (floats : FloatText F) where
  -- All that the frames' records got, in order, and the channel after the turns.
  abbrev pub run : List Turn → AgentChannel F → List (PlatformEvent F) × AgentChannel F
  run [] channel = ([], channel)
  run (request line now ∷ turns) channel = run turns (build_response floats line now channel).0
  run (drain ∷ turns) channel =
      let (channel', r) = drain_into (record { events = [] }) channel in
      let (later, last) = run turns channel' in (r.events ++ later, last)

  abbrev stamped_event : Parsed (PlatformEvent F) → ℕ → List (PlatformEvent F)
  stamped_event (unexpected error) now = []
  stamped_event (expected event) now = (record event { timestamp = now }) ∷ []

  -- The events of the requests that parse, each stamped when it was served, in their order.
  abbrev pub accepted : List Turn → List (PlatformEvent F)
  accepted [] = []
  accepted (request line now ∷ turns) =
      stamped_event (parse_command floats line) now ++ accepted turns
  accepted (drain ∷ turns) = accepted turns

  staged-respond :
      (p : Parsed (PlatformEvent F)) (now : ℕ) (channel : AgentChannel F)
      → (respond floats p now channel).0.staged_events
        ≡ channel.staged_events ++ stamped_event p now
  unfolding respond
  staged-respond (unexpected error) now channel = sym (append-nil channel.staged_events)
  staged-respond (expected event) now channel = refl

  staged-build_response :
      (line : Text) (now : ℕ) (channel : AgentChannel F)
      → (build_response floats line now channel).0.staged_events
        ≡ channel.staged_events ++ stamped_event (parse_command floats line) now
  unfolding build_response
  staged-build_response line now channel = staged-respond (parse_command floats line) now channel

  run-accepted :
      (turns : List Turn) (channel : AgentChannel F)
      → (run turns channel).0 ++ (run turns channel).1.staged_events
        ≡ channel.staged_events ++ accepted turns
  unfolding drain_into append_all
  run-accepted [] channel = sym (append-nil channel.staged_events)
  run-accepted (request line now ∷ turns) channel =
      let channel' = (build_response floats line now channel).0 in
      run-accepted turns channel'
      ∙ (ap (λ s. s ++ accepted turns) (staged-build_response line now channel)
          ∙ append_assoc channel.staged_events (stamped_event (parse_command floats line) now)
              (accepted turns))
  run-accepted (drain ∷ turns) channel =
      append_assoc channel.staged_events _ _
      ∙ ap (λ s. channel.staged_events ++ s) (run-accepted turns _)

  -- However the reader thread's requests and the frames' drains take turns, what the frames' records
  -- got, followed by what is still staged, is the event of every request that parsed, each once, in
  -- the order served and stamped when it was: none is lost, doubled or overtaken.
  pub exchange_exactly_once :
      (turns : List Turn)
      → (run turns started).0 ++ (run turns started).1.staged_events ≡ accepted turns
  exchange_exactly_once turns = run-accepted turns started
