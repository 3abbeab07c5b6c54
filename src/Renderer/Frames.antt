-- ===== src/Renderer/Frames.antt =====
-- `DrawFrame` and `AcquireMesh` of PlaygroundEngine/src/Renderer/RendererVulkan.cpp.
use playground_engine.Base.{
  ℕ, ◌+◌, ◌%◌, List, Option, none, some, Bool, false, ◌||◌, ◌==◌, if◌then◌else◌,
}
use playground_engine.Render.{ExtractedMesh}
use playground_engine.Renderer.Device.{
  Device, Extent, wait_for_fence, reset_fence, acquire_next_image, submit_frame, present,
  reset_commands, write_memory,
}
use playground_engine.Renderer.State.{
  max_frames_in_flight, fence_wait_error, fence_reset_error, unable_to_acquire_swap_chain_image,
  unable_to_reset_command_buffer, queue_submit_error, queue_present_error,
}
use playground_engine.Renderer.Step.{N, ◌>>=◌, ◌>>◌, return, stop, self, change, index, tell, query}
use playground_engine.Renderer.Drawing.{
  Acquired, acquired, suboptimal, out_of_date, not_acquired, Presented, presented,
  presented_suboptimal, present_out_of_date, not_presented, Surface, record_command_buffer,
  recreate_swap_chain, service_capture,
}

-- The index of the image that was acquired; none where the swap chain is out of date.
unfoldable pub image_of : Acquired → N (Option ℕ)
unfolding return stop
image_of (acquired i) = return (some i)
image_of (suboptimal i) = return (some i)
image_of out_of_date = return none
image_of not_acquired = stop unable_to_acquire_swap_chain_image

-- The end of a frame: whether the swap chain is rebuilt, from the answer to the present and from
-- whether the framebuffer was resized.
unfoldable pub conclude : Presented → Bool → N (Unit {0}) → N (Unit {0})
unfolding return stop
conclude presented resized rebuilt = if resized then rebuilt else return tt
conclude presented_suboptimal resized rebuilt = rebuilt
conclude present_out_of_date resized rebuilt = rebuilt
conclude not_presented resized rebuilt = if resized then rebuilt else stop queue_present_error

module _ (device : Device) (surface : Surface) where
  unfoldable pub acquire_image : ℕ → ℕ → N (Option ℕ)
  unfolding image_of tell
  acquire_image swap_chain semaphore s =
      (tell (acquire_next_image swap_chain semaphore) >> image_of (surface.acquire s.1 swap_chain))
        s

  unfoldable pub rebuild : Extent → N (Unit {0})
  unfolding recreate_swap_chain
  rebuild size = do
    change (λ r. record r { framebuffer_resized = false })
    recreate_swap_chain device surface size

  unfoldable pub finish_frame : Extent → Presented → N (Unit {0})
  unfolding rebuild conclude
  finish_frame size result = do
    change (λ r. record r { frame_index = (r.frame_index + 1) % max_frames_in_flight })
    r ← self
    conclude result r.framebuffer_resized (rebuild size)

  -- The submission of what was recorded, a capture, and the present.
  unfoldable pub submit : Extent → ℕ → ℕ → ℕ → ℕ → List ℕ → ℕ → N (Unit {0})
  unfolding service_capture finish_frame
  submit size swap_chain buffer present_complete fence semaphores image_index = do
    render_finished ← index semaphores image_index
    query device (submit_frame buffer present_complete render_finished fence) queue_submit_error
    service_capture device surface image_index
    tell (present render_finished swap_chain image_index)
    (λ s. finish_frame size (surface.present_result s.1) s)

  -- What follows on an image.
  unfoldable pub draw_on : List (ExtractedMesh ℕ) → Extent → Bool → ℕ → ℕ → ℕ → N (Unit {0})
  unfolding record_command_buffer submit
  draw_on meshes size overlay fence present_complete image_index = do
    r ← self
    query device (reset_fence fence) fence_reset_error
    uniforms ← index r.uniform_buffer_resources r.frame_index
    tell (write_memory uniforms.buffer_mapped)
    buffer ← index r.command_buffers r.frame_index
    query device (reset_commands buffer) unable_to_reset_command_buffer
    record_command_buffer device surface meshes image_index overlay
    submit size r.swap_chain buffer present_complete fence r.render_finished_semaphores image_index

  -- What follows on the image, or on its absence.
  unfoldable pub draw_if_acquired :
      List (ExtractedMesh ℕ) → Extent → Bool → ℕ → ℕ → Option ℕ → N (Unit {0})
  unfolding draw_on recreate_swap_chain
  draw_if_acquired meshes size overlay fence present_complete none =
      recreate_swap_chain device surface size
  draw_if_acquired meshes size overlay fence present_complete (some image_index) =
      draw_on meshes size overlay fence present_complete image_index

  unfoldable pub draw_frame : List (ExtractedMesh ℕ) → Extent → Bool → N (Unit {0})
  unfolding acquire_image draw_if_acquired
  draw_frame meshes size overlay = if size.width == 0 || size.height == 0 then return tt else do
    r ← self
    fence ← index r.in_flight_fences r.frame_index
    query device (wait_for_fence fence) fence_wait_error
    present_complete ← index r.present_complete_semaphores r.frame_index
    next ← acquire_image r.swap_chain present_complete
    draw_if_acquired meshes size overlay fence present_complete next
