-- ===== src/AgentChannel/Progress.antt =====
-- `HandleConnection` of AgentChannel.cpp comes to an end, and serves a line that arrives.
use playground_engine.Base.{
  ℕ, ◌+◌, ◌∙◌, ◌≤◌, ◌≡◌, refl, true, false, some, List, [], ◌∷◌, ◌++◌, Text, length, length-append,
  any_of-append, is_some, arith, Bool-cases, inl, inr, ◌==◌,
}
use playground_engine.AgentChannel.Tokens.{FloatText}
use playground_engine.AgentChannel.Channel.{AgentChannel, build_response}
use playground_engine.AgentChannel.Connection.{
  WaitOutcome, ready, stopped, timed_out, failed, ReadResult, read_interrupted, read_error,
  end_of_file, bytes, request, receive, line_of, answer, handle_connection, has_newline,
  maximum_request_length, newline,
}
use playground_engine.AgentChannel.Requests.{goes_on, next_round, receive-full, receive-next}

-- The rounds that are no interrupted read; a read of nothing is an end of file to the kernel.
abbrev pub counted : ReadResult → ℕ
counted read_interrupted = 0
counted (bytes []) = 0
counted _ = 1

abbrev pub effective : List (WaitOutcome × ReadResult) → ℕ
effective [] = 0
effective ((o, a) ∷ rest) = counted a + effective rest

length-counted : (chunk : Text) → counted (bytes chunk) ≤ length chunk
length-counted [] = omega arith
length-counted (c ∷ chunk) = omega arith

next_round_ends :
    (o : WaitOutcome) (a : ReadResult) (rest : List (WaitOutcome × ReadResult)) (so_far : Text)
    → ((so : Text)
        → maximum_request_length ≤ length so + effective rest
        → is_some (receive rest so) ≡ true)
    → maximum_request_length ≤ length so_far + effective ((o, a) ∷ rest)
    → is_some (next_round o a rest so_far) ≡ true
next_round_ends ready read_interrupted rest so_far ih h = ih so_far (omega arith)
next_round_ends ready read_error rest so_far ih h = refl
next_round_ends ready end_of_file rest so_far ih h = refl
next_round_ends ready (bytes chunk) rest so_far ih h =
    ih (so_far ++ chunk) (omega (arith, h, length-append so_far chunk, length-counted chunk))
next_round_ends stopped a rest so_far ih h = refl
next_round_ends timed_out a rest so_far ih h = refl
next_round_ends failed a rest so_far ih h = refl

receive_ends :
    (rounds : List (WaitOutcome × ReadResult)) (so_far : Text)
    → maximum_request_length ≤ length so_far + effective rounds
    → is_some (receive rounds so_far) ≡ true
receive_ends [] so_far h = unfold receive in ground arith
receive_ends ((o, a) ∷ rest) so_far h =
    let ih = receive_ends rest in
    elim (Bool-cases (goes_on so_far)) [
      | inl e ↦
          rw (receive-next o a rest so_far e) (next_round_ends o a rest so_far (λ so g. ih so g) h)
      | inr e ↦ rw (receive-full ((o, a) ∷ rest) so_far e) refl
    ]

line_of-newline :
    (line more : Text) → has_newline line ≡ false → line_of (line ++ newline ∷ more) ≡ line
unfolding line_of
line_of-newline [] more h = ground arith
line_of-newline (c ∷ line) more h = ground (arith, line_of-newline line more)

-- The loop over the reads is done after as many reads as the length limit, those aside that a signal
-- interrupted: the connection then has its outcome.
pub handle_connection_ends :
    {F : Type 0} (floats : FloatText F) (rounds : List (WaitOutcome × ReadResult)) (now : ℕ)
    (channel : AgentChannel F)
    → maximum_request_length ≤ effective rounds
    → is_some (handle_connection floats rounds now channel) ≡ true
unfolding handle_connection
handle_connection_ends floats rounds now channel h = ground (arith, receive_ends rounds [])

-- A line that a first read brings with its newline is served, and is all that is served: the
-- channel and the reply are those of `BuildResponse` on it.
pub handle_connection_serves :
    {F : Type 0} (floats : FloatText F) (line more : Text) (rest : List (WaitOutcome × ReadResult))
    (now : ℕ) (channel : AgentChannel F)
    → has_newline line ≡ false
    → let served = build_response floats line now channel in
      handle_connection floats ((ready, bytes (line ++ newline ∷ more)) ∷ rest) now channel
      ≡ some (served.0, some served.1)
unfolding handle_connection answer
handle_connection_serves floats line more rest now channel h =
    let text : Text = line ++ newline ∷ more in
    let complete : has_newline text ≡ true =
      ground (arith, any_of-append (λ c. c == newline) line (newline ∷ more)) in
    let received : receive ((ready, bytes text) ∷ rest) [] ≡ some (request text false) =
      receive-next ready (bytes text) rest [] refl ∙ receive-full rest text (ground arith) in
    rw (received, complete, line_of-newline line more h) refl
