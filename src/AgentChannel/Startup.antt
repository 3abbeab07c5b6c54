-- ===== src/AgentChannel/Startup.antt =====
-- `AgentChannel::Start`, `Stop` and the destructor of AgentChannel.cpp: the descriptors and the
-- socket file that they hold. The kernel's answers are arguments.
use playground_engine.Base.{
  ◌⊎◌, arith, ◌≡◌, ℕ, Bool, true, false, not, Option, none, some, List, [], ◌∷◌, ◌==◌, leb, ◌&&◌,
  if◌then◌else◌,
}

pub data AgentChannelError : Type 0 where
  socket_path_too_long socket_creation_failed wake_descriptor_creation_failed : AgentChannelError
  bind_failed listen_failed : AgentChannelError

-- What of the process and the file system the channel touches.
pub record Resources : Type 0 where
  pub descriptors : List ℕ
  pub socket_file : Bool
  pub reader_running : Bool

pub record KernelAnswers : Type 0 where
  pub sun_path_size : ℕ
  pub path_length : ℕ
  pub socket : Option ℕ
  -- Of a file that an earlier run left.
  pub unlink_leftover : Bool
  pub bind : Bool
  pub chmod : Bool
  pub listen : Bool
  pub eventfd : Option ℕ
  -- Of the file of this socket, where the start fails.
  pub unlink : Bool

-- What `Stop` meets: whether the write to the wake descriptor succeeds, whether the reader thread
-- ends though it is not woken, and whether the file is removed.
pub record StopAnswers : Type 0 where
  pub write : Bool
  pub reader_ends : Bool
  pub unlink : Bool

pub record Channel : Type 0 where
  pub listen_descriptor : ℕ
  pub wake_descriptor : ℕ
  pub joinable : Bool

pub data Started : Type 0 where
  channel : Channel → Started
  failure : AgentChannelError → Started

-- One occurrence of the descriptor goes.
unfoldable pub close : ℕ → List ℕ → List ℕ
close d [] = []
close d (e ∷ rest) = let later = close d rest in if e == d then rest else e ∷ later

-- Whether a file is there after `unlink`, whose answer the code ignores.
abbrev remains : Bool → Bool → Bool
remains unlinked file = file && not unlinked

close_and_unlink : KernelAnswers → ℕ → Resources → Resources
unfolding close
close_and_unlink kernel listen r = record r {
  descriptors = close listen r.descriptors;
  socket_file = remains kernel.unlink r.socket_file;
}

wake_step : KernelAnswers → ℕ → Option ℕ → Resources → Started × Resources
unfolding close_and_unlink
wake_step kernel listen none r =
    (failure wake_descriptor_creation_failed, close_and_unlink kernel listen r)
wake_step kernel listen (some wake) r = (
  channel (record { listen_descriptor = listen; wake_descriptor = wake; joinable = true }),
  record r { descriptors = wake ∷ r.descriptors; reader_running = true },
)

listen_step : KernelAnswers → ℕ → Resources → Started × Resources
unfolding wake_step
listen_step kernel listen r =
    if not kernel.bind
    then (failure bind_failed, record r { descriptors = close listen r.descriptors })
    else let bound = record r { socket_file = true } in
      if not kernel.chmod
      then (failure bind_failed, close_and_unlink kernel listen bound)
      else if not kernel.listen
      then (failure listen_failed, close_and_unlink kernel listen bound)
      else wake_step kernel listen kernel.eventfd bound

socket_step : KernelAnswers → Option ℕ → Resources → Started × Resources
unfolding listen_step
socket_step kernel none r = (failure socket_creation_failed, r)
socket_step kernel (some listen) r = listen_step kernel listen (record r {
  descriptors = listen ∷ r.descriptors;
  socket_file = remains kernel.unlink_leftover r.socket_file;
})

unfoldable pub start : KernelAnswers → Resources → Started × Resources
unfolding socket_step
start kernel r =
    if leb kernel.sun_path_size kernel.path_length
    then (failure socket_path_too_long, r)
    else socket_step kernel kernel.socket r

-- `Stop`; the destructor is a call of it. Joining waits for the reader thread to end: none where it
-- is not woken and does not end.
unfoldable pub stop : StopAnswers → Channel → Resources → Option (Channel × Resources)
unfolding close
stop answers c r =
    if not c.joinable
    then some (c, r)
    else if not answers.write && not answers.reader_ends
    then none
    else some (
      record c { joinable = false },
      record {
        descriptors = close c.wake_descriptor (close c.listen_descriptor r.descriptors);
        socket_file = remains answers.unlink r.socket_file;
        reader_running = false;
      },
    )

-- The outcome of a stop, from what there was before the start; `again` is what a second one meets.
abbrev pub Stopped : StopAnswers → StopAnswers → Resources → Option (Channel × Resources) → Type 0
Stopped answers again before none = (answers.write ≡ false) × (answers.reader_ends ≡ false)
Stopped answers again before (some (c, after)) =
    (after.descriptors ≡ before.descriptors)
    × (after.socket_file ≡ not answers.unlink)
    × (after.reader_running ≡ false)
    × (stop again c after ≡ some (c, after))

-- A socket file that is there though the start failed: it was never touched, or could not be removed.
abbrev pub Left : KernelAnswers → AgentChannelError → Resources → Type 0
Left kernel e before =
    ((e ≡ socket_path_too_long) ⊎ (e ≡ socket_creation_failed))
    ⊎ (((kernel.unlink_leftover ≡ false) × (before.socket_file ≡ true)) ⊎ (kernel.unlink ≡ false))

abbrev pub Cleaned :
    KernelAnswers → StopAnswers → StopAnswers → Started × Resources → Resources → Type 0
Cleaned kernel answers again (failure e, after) before =
    (after.descriptors ≡ before.descriptors)
    × (after.reader_running ≡ before.reader_running)
    × ((after.socket_file ≡ false) ⊎ Left kernel e before)
Cleaned kernel answers again (channel c, after) before =
    (after.socket_file ≡ true)
    × (after.reader_running ≡ true)
    × Stopped answers again before (stop answers c after)

-- A start that fails at any of its steps leaves no descriptor open that was not before and starts no
-- thread; a socket file is there after it only if it failed before it got a socket, if it could not
-- remove one that was left from before, or if it could not remove its own. A start that succeeds has
-- its file and its thread. Stopping it returns unless the thread neither was woken nor ends by
-- itself; then it closes exactly its two descriptors, the thread has ended, the file is gone unless
-- it could not be removed, and a second stop, as the destructor makes it, changes nothing.
pub start-Cleaned :
    (kernel : KernelAnswers) (answers again : StopAnswers) (before : Resources)
    → Cleaned kernel answers again (start kernel before) before
unfolding start stop
start-Cleaned kernel answers again before = ground arith
