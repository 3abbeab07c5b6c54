-- ===== src/AgentChannel/Requests.antt =====
-- Which requests `HandleConnection` of AgentChannel.cpp acts on.
use playground_engine.Base.{
  refl, none, ℕ, ◌∙◌, sym, subst, ◌≤◌, ◌≡◌, refl, Bool, true, false, not, ◌&&◌, Option, some, List,
  [], ◌∷◌, ◌++◌, ltb, length, Text, arith, Bool-cases, inl, inr,
}
use mathlib.Core.List.{append_assoc}
use playground_engine.AgentChannel.Tokens.{FloatText}
use playground_engine.AgentChannel.Commands.{bad_argument}
use playground_engine.AgentChannel.Channel.{AgentChannel, build_response, error_reply}
use playground_engine.AgentChannel.Connection.{line_of, answer, handle_connection}
use playground_engine.Base.{◌⊎◌, Option-cases}
use playground_engine.AgentChannel.Connection.{
  answer, handle_connection, WaitOutcome, ready, stopped, timed_out, failed, ReadResult,
  read_interrupted, read_error, end_of_file, bytes, Received, request, dropped, receive,
  has_newline, maximum_request_length,
}

-- The bytes that the client sent before the first round that yields none.
abbrev pub sent : List (WaitOutcome × ReadResult) → Text
sent [] = []
sent ((ready, bytes chunk) ∷ rest) = chunk ++ sent rest
sent ((ready, read_interrupted) ∷ rest) = sent rest
sent ((_, _) ∷ rest) = []

-- Whether the client closed its side in a round that the loop can reach.
abbrev pub closed : List (WaitOutcome × ReadResult) → Bool
closed [] = false
closed ((ready, bytes chunk) ∷ rest) = closed rest
closed ((ready, read_interrupted) ∷ rest) = closed rest
closed ((ready, end_of_file) ∷ rest) = true
closed ((_, _) ∷ rest) = false

-- `text` is the start of `all`.
abbrev pub Begins : Text → Text → Type 0
Begins text all = (rest : Text) × (text ++ rest ≡ all)

-- What a finished read loop hands over: a beginning of what was sent, which holds a newline, ends
-- the input, or reached the limit.
abbrev Complete : Text → Bool → Received → Type 0
Complete all eof dropped = Unit
Complete all eof (request text ended) =
    Begins text all
    × (has_newline text ≡ false → ended ≡ false → maximum_request_length ≤ length text)
    × (ended ≡ true → eof ≡ true)

abbrev pub goes_on : Text → Bool
goes_on so_far = not (has_newline so_far) && ltb (length so_far) maximum_request_length

-- A round's effect where the loop goes on.
abbrev pub next_round :
    WaitOutcome → ReadResult → List (WaitOutcome × ReadResult) → Text → Option Received
next_round ready read_interrupted rest so_far = receive rest so_far
next_round ready read_error rest so_far = some dropped
next_round ready end_of_file rest so_far = some (request so_far true)
next_round ready (bytes chunk) rest so_far = receive rest (so_far ++ chunk)
next_round _ _ rest so_far = some dropped

pub receive-full :
    (rounds : List (WaitOutcome × ReadResult)) (so_far : Text)
    → goes_on so_far ≡ false
    → receive rounds so_far ≡ some (request so_far false)
unfolding receive
receive-full [] so_far h = ground arith
receive-full ((o, a) ∷ rest) so_far h = ground arith

pub receive-next :
    (o : WaitOutcome) (a : ReadResult) (rest : List (WaitOutcome × ReadResult)) (so_far : Text)
    → goes_on so_far ≡ true
    → receive ((o, a) ∷ rest) so_far ≡ next_round o a rest so_far
unfolding receive
receive-next ready read_interrupted rest so_far h = ground arith
receive-next ready read_error rest so_far h = ground arith
receive-next ready end_of_file rest so_far h = ground arith
receive-next ready (bytes chunk) rest so_far h = ground arith
receive-next stopped a rest so_far h = ground arith
receive-next timed_out a rest so_far h = ground arith
receive-next failed a rest so_far h = ground arith

some-Complete :
    (all : Text) (eof : Bool) (r r' : Received)
    → some r ≡ some r'
    → Complete all eof r
    → Complete all eof r'
some-Complete all eof r r' e c = let same : r ≡ r' = cc in subst (Complete all eof) same c

finished :
    (all so_far : Text) (eof : Bool)
    → Begins so_far all
    → goes_on so_far ≡ false
    → Complete all eof (request so_far false)
finished all so_far eof b h = (b, λ n e. ground arith, λ e. cc)

next_round-Complete :
    (o : WaitOutcome) (a : ReadResult) (rest : List (WaitOutcome × ReadResult)) (so_far : Text)
    (r : Received)
    → ((so : Text) → receive rest so ≡ some r → Complete (so ++ sent rest) (closed rest) r)
    → next_round o a rest so_far ≡ some r
    → Complete (so_far ++ sent ((o, a) ∷ rest)) (closed ((o, a) ∷ rest)) r
next_round-Complete ready read_interrupted rest so_far r ih h = ih so_far h
next_round-Complete ready read_error rest so_far r ih h = some-Complete _ _ dropped r h tt
next_round-Complete ready end_of_file rest so_far r ih h =
    some-Complete _ _ (request so_far true) r h (([], refl), λ n e. cc, λ e. refl)
next_round-Complete ready (bytes chunk) rest so_far r ih h =
    rw (← append_assoc) (ih (so_far ++ chunk) h)
next_round-Complete stopped a rest so_far r ih h = some-Complete _ _ dropped r h tt
next_round-Complete timed_out a rest so_far r ih h = some-Complete _ _ dropped r h tt
next_round-Complete failed a rest so_far r ih h = some-Complete _ _ dropped r h tt

receive-Complete :
    (rounds : List (WaitOutcome × ReadResult)) (so_far : Text) (r : Received)
    → receive rounds so_far ≡ some r
    → Complete (so_far ++ sent rounds) (closed rounds) r
receive-Complete [] so_far r h = elim (Bool-cases (goes_on so_far)) [
  | inl e ↦ absurd (unfold receive in ground arith)
  | inr e ↦
      some-Complete _ _ (request so_far false) r (sym (receive-full [] so_far e) ∙ h)
        (finished _ so_far _ ([], refl) e)
]
receive-Complete ((o, a) ∷ rest) so_far r h =
    let ih = receive-Complete rest in
    elim (Bool-cases (goes_on so_far)) [
      | inl e ↦
          next_round-Complete o a rest so_far r (λ so g. ih so r g)
            (sym (receive-next o a rest so_far e) ∙ h)
      | inr e ↦
          some-Complete _ _ (request so_far false) r
            (sym (receive-full ((o, a) ∷ rest) so_far e) ∙ h)
            (finished _ so_far _ (sent ((o, a) ∷ rest), refl) e)
    ]

-- What the connection may do to the channel once its request is in.
abbrev pub Acted :
    {F : Type 0}
    → FloatText F
    → List (WaitOutcome × ReadResult)
    → ℕ
    → AgentChannel F
    → AgentChannel F × Option Text
    → Type 0
Acted floats rounds now channel result =
    ((result.0 ≡ channel) × ((result.1 ≡ none) ⊎ (result.1 ≡ some (error_reply bad_argument))))
    ⊎ ((text : Text) × Begins text (sent rounds)
        × ((has_newline text ≡ true) ⊎ (closed rounds ≡ true))
        × (result.0 ≡ (build_response floats (line_of text) now channel).0)
        × (result.1 ≡ some (build_response floats (line_of text) now channel).1))

answer-Acted :
    {F : Type 0} (floats : FloatText F) (rounds : List (WaitOutcome × ReadResult)) (now : ℕ)
    (channel : AgentChannel F) (r : Received)
    → Complete (sent rounds) (closed rounds) r
    → Acted floats rounds now channel (answer floats r now channel)
unfolding answer
answer-Acted floats rounds now channel dropped c = inl (refl, inl refl)
answer-Acted floats rounds now channel (request text ended) c =
    elim (Bool-cases (has_newline text)) [
      | inl n ↦ inr (text, c.0, inl n, ground arith, ground arith)
      | inr n ↦ elim (Bool-cases ended) [
        | inl e ↦ inr (text, c.0, inr (c.2 e), ground arith, ground arith)
        | inr e ↦ inl (ground arith, inr (ground arith))
      ]
    ]

-- A connection that is done has left the channel as it was, and answered nothing or `BadArgument`,
-- or it has served the first line of a beginning of what the client sent, one that holds a newline
-- or was followed by the client closing: a request cut off at the length limit is never served.
pub handle_connection-Acted :
    {F : Type 0} (floats : FloatText F) (rounds : List (WaitOutcome × ReadResult)) (now : ℕ)
    (channel : AgentChannel F) (result : AgentChannel F × Option Text)
    → handle_connection floats rounds now channel ≡ some result
    → Acted floats rounds now channel result
unfolding handle_connection
handle_connection-Acted floats rounds now channel result h =
    elim (Option-cases (receive rounds [])) [
      | inl e ↦ absurd (ground arith)
      | inr (r, e) ↦
          let same : answer floats r now channel ≡ result = ground arith in
          subst (Acted floats rounds now channel) same
            (answer-Acted floats rounds now channel r (receive-Complete rounds [] r e))
    ]
