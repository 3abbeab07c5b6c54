-- ===== src/WindowServer/Backend.antt =====
-- The event path of WindowServer/Backend/WindowServerBackend.GLFW.cpp: the callbacks that GLFW makes
-- while it polls, the pending batch, and the pump. The user pointer of the window says whether
-- there is a backend to append to; the clock's reading is an argument.
use playground_engine.Base.{
  ℕ, String, Bool, ◌==◌, not, ◌&&◌, Option, none, some, List, [], ◌∷◌, if◌then◌else◌,
}
use playground_engine.Events.{
  PlatformEvent, PlatformEventRecord, event_of, key_pressed, key_released, character_typed,
  pointer_moved, pointer_button_pressed, pointer_button_released, pointer_scrolled, focus_gained,
  focus_lost, window_resized, close_requested, append, append_all, clear,
}
use playground_engine.WindowServer.GlfwInput.{
  translate_glfw_key, translate_glfw_pointer_button, translate_glfw_modifiers,
  translate_glfw_lock_state,
}

-- The two `static_cast<float>`s are arguments.
pub record Conversions (F : Type 0) (D : Type 0) : Type 0 where
  pub zero_float : F
  pub of_double : D → F
  pub of_int : ℕ → F

-- One call that GLFW makes back. An `int` is its 32-bit pattern.
pub data Callback (D : Type 0) : Type 0 where
  key_changed : ℕ → ℕ → ℕ → ℕ → Callback D
  character : ℕ → Callback D
  cursor_position : D → D → Callback D
  pointer_button : ℕ → ℕ → ℕ → Callback D
  scroll : D → D → Callback D
  window_focus : ℕ → Callback D
  framebuffer_size : ℕ → ℕ → Callback D
  window_close : Callback D

module _ {F D : Type 0} (glfw : String → ℕ) (floats : Conversions F D) where
  open floats use {zero_float, of_double, of_int}

  -- `OnKey` drops an action that is none of the three.
  unfoldable pub on_key : ℕ → ℕ → ℕ → ℕ → Option (PlatformEvent F)
  on_key key scancode action modifiers =
      if not (action == glfw "GLFW_PRESS")
        && (not (action == glfw "GLFW_RELEASE") && not (action == glfw "GLFW_REPEAT"))
      then none
      else some
          (record (event_of zero_float
            (if action == glfw "GLFW_RELEASE" then key_released else key_pressed)) {
              code = translate_glfw_key glfw key;
              modifiers = translate_glfw_modifiers glfw modifiers;
              locks = translate_glfw_lock_state glfw modifiers;
              repeat = action == glfw "GLFW_REPEAT";
              token = scancode;
            })

  unfoldable pub on_pointer_button : ℕ → ℕ → ℕ → PlatformEvent F
  on_pointer_button button action modifiers =
      record (event_of zero_float (
        if action == glfw "GLFW_RELEASE"
        then pointer_button_released
        else pointer_button_pressed)) {
          code = translate_glfw_pointer_button glfw button;
          modifiers = translate_glfw_modifiers glfw modifiers;
          locks = translate_glfw_lock_state glfw modifiers;
        }

  -- The event that a callback appends, before it is stamped.
  unfoldable pub event_for : Callback D → Option (PlatformEvent F)
  unfolding on_key on_pointer_button
  event_for (key_changed k scancode action modifiers) = on_key k scancode action modifiers
  event_for (character codepoint) =
      some (record (event_of zero_float character_typed) { codepoint = codepoint })
  event_for (cursor_position x y) =
      some (record (event_of zero_float pointer_moved) { x = of_double x; y = of_double y })
  event_for (pointer_button button action modifiers) =
      some (on_pointer_button button action modifiers)
  event_for (scroll x y) =
      some (record (event_of zero_float pointer_scrolled) { x = of_double x; y = of_double y })
  event_for (window_focus focused) =
      some (event_of zero_float (if focused == glfw "GLFW_TRUE" then focus_gained else focus_lost))
  event_for (framebuffer_size width height) =
      some (record (event_of zero_float window_resized) { x = of_int width; y = of_int height })
  event_for window_close = some (event_of zero_float close_requested)

-- `AppendEvent`: nothing without a user pointer, else the event with the clock's reading.
unfoldable pub append_event :
    {F : Type 0} → Bool → ℕ → PlatformEvent F → PlatformEventRecord F → PlatformEventRecord F
append_event has_backend now event pending =
    if has_backend then append (record event { timestamp = now }) pending else pending

module _ {F D : Type 0} (glfw : String → ℕ) (floats : Conversions F D) (has_backend : Bool) where
  unfoldable pub dispatch : ℕ → Callback D → PlatformEventRecord F → PlatformEventRecord F
  dispatch now callback pending = elim (event_for glfw floats callback) [
    | none ↦ pending
    | some event ↦ append_event has_backend now event pending
  ]

  -- `glfwPollEvents` makes the callbacks in order, each with its own reading of the clock.
  unfoldable pub poll_events : List (ℕ × Callback D) → PlatformEventRecord F → PlatformEventRecord F
  poll_events [] pending = pending
  poll_events ((now, callback) ∷ rest) pending = poll_events rest (dispatch now callback pending)

  -- `Pump`: the frame's record and the pending batch after it.
  unfoldable pub pump :
      List (ℕ × Callback D)
      → PlatformEventRecord F
      → PlatformEventRecord F
      → PlatformEventRecord F × PlatformEventRecord F
  pump callbacks pending r =
      let polled = poll_events callbacks pending in (append_all polled.events r, clear polled)
