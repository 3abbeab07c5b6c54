-- ===== src/AgentChannel/Examples.antt =====
-- Requests to the channel of AgentChannel.cpp, over whole numbers in place of floats.
use playground_engine.Base.{
  ℕ, ◌≡◌, refl, true, false, Option, some, List, [], ◌∷◌, ◌++◌, All, Text, codes,
}
use playground_engine.Events.{PlatformEvent, event_of, key_pressed}
use playground_engine.AgentChannel.Tokens.{
  is_separator, FloatText, from_chars_unsigned, tokenize, skip_separators, is_separator, token,
  after_token,
}
use playground_engine.Events.Types.{event_type_from_name}
use playground_engine.AgentChannel.Words.{words, spaced, IsWord, tokenize-words}
use playground_engine.AgentChannel.Commands.{parse_command, expected, parse_event, code_from_name}
use playground_engine.AgentChannel.Vocabulary.{IsInjectable, parse_command-IsInjectable}
use playground_engine.AgentChannel.Channel.{build_response, AgentChannel, started}
use playground_engine.AgentChannel.Exchange.{
  Turn, request, drain, run, accepted, exchange_exactly_once,
}
use playground_engine.AgentChannel.Connection.{
  line_of, WaitOutcome, ready, ReadResult, bytes, read_interrupted, handle_connection,
}
use playground_engine.AgentChannel.Requests.{Acted, handle_connection-Acted}
use playground_engine.Base.{zero, suc, ◌≤◌, is_some, arith}
use playground_engine.Reflection.Enumeration.{enum_to_name}
use playground_engine.Events.Codes.{input_codes}
use playground_engine.AgentChannel.Connection.{maximum_request_length}
use playground_engine.AgentChannel.Progress.{
  effective, handle_connection_ends, handle_connection_serves,
}
use playground_engine.AgentChannel.Press.{parse_command-press}
use playground_engine.AgentChannel.Startup.{
  KernelAnswers, StopAnswers, Resources, start, Cleaned, start-Cleaned,
}

abbrev floats : FloatText ℕ
floats = record { zero_float = 0; from_chars = from_chars_unsigned; is_finite = λ x. true }

abbrev press_line : Text
press_line = codes "KeyPressed KeyW\n"

abbrev press : PlatformEvent ℕ
press = record (event_of 0 key_pressed) { code = 23 }

press_parsed : parse_command floats press_line ≡ expected press
unfolding parse_command tokenize skip_separators is_separator event_type_from_name token parse_event
    after_token code_from_name
press_parsed = refl

parse_command-IsInjectable_example : IsInjectable press
parse_command-IsInjectable_example = parse_command-IsInjectable floats press_line press press_parsed

abbrev two_words : List Text
two_words = (97 ∷ 98 ∷ []) ∷ (99 ∷ []) ∷ []

two_words-IsWord : All IsWord two_words
unfolding is_separator
two_words-IsWord = ((refl, (refl, (refl, tt))), ((refl, (refl, tt)), tt))

tokenize-words_example :
    (tokenize press_line ≡ words press_line) × (tokenize (spaced two_words) ≡ two_words)
tokenize-words_example = tokenize-words press_line two_words two_words-IsWord

abbrev turns : List Turn
turns = request press_line 5 ∷ drain ∷ request press_line 7 ∷ request (codes "Nothing") 8 ∷ []

exchange_exactly_once_example :
    (run floats turns started).0 ++ (run floats turns started).1.staged_events
    ≡ accepted floats turns
exchange_exactly_once_example = exchange_exactly_once floats turns

abbrev rounds : List (WaitOutcome × ReadResult)
rounds = (ready, read_interrupted) ∷ (ready, bytes press_line) ∷ []

abbrev served : AgentChannel ℕ × Option Text
served = (
  record { staged_events = (record press { timestamp = 9 }) ∷ []; drain_buffer = [] },
  some (codes "ok\n"),
)

request_is_served : handle_connection floats rounds 9 started ≡ some served
unfolding handle_connection line_of build_response parse_command tokenize skip_separators
    is_separator event_type_from_name token parse_event after_token code_from_name
request_is_served = refl

handle_connection-Acted_example : Acted floats rounds 9 started served
handle_connection-Acted_example =
    handle_connection-Acted floats rounds 9 started served request_is_served

abbrev no_chmod : KernelAnswers
no_chmod = record {
  sun_path_size = 108;
  path_length = 20;
  socket = some 5;
  unlink_leftover = true;
  bind = true;
  chmod = false;
  listen = true;
  eventfd = some 6;
  unlink = true;
}

abbrev nothing_open : Resources
nothing_open = record { descriptors = 0 ∷ 1 ∷ 2 ∷ []; socket_file = false; reader_running = false }

abbrev woken : StopAnswers
woken = record { write = true; reader_ends = false; unlink = true }

start-Cleaned_example : Cleaned no_chmod woken woken (start no_chmod nothing_open) nothing_open
start-Cleaned_example = start-Cleaned no_chmod woken woken nothing_open

abbrev many_reads : ℕ → List (WaitOutcome × ReadResult)
many_reads zero = []
many_reads (suc n) = (ready, bytes (97 ∷ [])) ∷ many_reads n

enough_reads : maximum_request_length ≤ effective (many_reads 1024)
enough_reads = omega arith

handle_connection_ends_example :
    is_some (handle_connection floats (many_reads 1024) 9 started) ≡ true
handle_connection_ends_example =
    handle_connection_ends floats (many_reads 1024) 9 started enough_reads

handle_connection_serves_example :
    let served = build_response floats (codes "FocusLost") 9 started in
    handle_connection floats ((ready, bytes (codes "FocusLost" ++ 10 ∷ [])) ∷ []) 9 started
    ≡ some (served.0, some served.1)
handle_connection_serves_example =
    handle_connection_serves floats (codes "FocusLost") [] [] 9 started refl

parse_command-press_example :
    (name : Text) × (enum_to_name input_codes 23 ≡ some name)
    × (parse_command floats (spaced (codes "KeyPressed" ∷ name ∷ []))
        ≡ expected (record (event_of floats.zero_float key_pressed) { code = 23 }))
parse_command-press_example = parse_command-press floats 23 refl
