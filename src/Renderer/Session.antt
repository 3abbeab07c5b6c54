-- ===== src/Renderer/Session.antt =====
-- A renderer from its creation on: what is asked of it between frames and the frames, one after
-- another until one stops, as the users of PlaygroundEngine/src/Renderer/RendererVulkan.cpp may. The
-- loop of the engine itself is in Engine/Step.
use playground_engine.Base.{ℕ, ◌≡◌, ◌∙◌, subst, refl, List, [], ◌∷◌, Option, some, Bool, true}
use playground_engine.Render.{ExtractedMesh}
use playground_engine.Renderer.Device.{Device, Call, Extent}
use playground_engine.Renderer.Result.{Outcome, ok, failed}
use playground_engine.Renderer.State.{RendererVulkan, GpuMesh}
use playground_engine.Renderer.Step.{Running, Drawn, drawn, N, ◌>>◌, return, change}
use playground_engine.Renderer.Creation.{Setup, create}
use playground_engine.Renderer.Drawing.{Surface}
use playground_engine.Renderer.Frames.{draw_frame}
use playground_engine.Renderer.Ensures.{Succeeded, Ensures, Ensures-any, Ensures-return}
use playground_engine.Renderer.Views.{marked}
use playground_engine.Renderer.Meshes.{MeshSize, acquire_mesh}
use playground_engine.Renderer.Capture.{request_capture, notify_framebuffer_resized}
use playground_engine.Renderer.Loading.{create-Keeps, acquire_mesh-Keeps}
use playground_engine.Renderer.Lengths.{ListsAsAsked}
use playground_engine.Renderer.Invariant.{IsWellFormed, create-IsWellFormed}
use playground_engine.Renderer.Holds.{Fine, Holds, Holds-bind, Holds-change, Holds-return}
use playground_engine.Renderer.Waits.{AcquiresOwn, Ready}
use playground_engine.Renderer.Liveness.{draw_frame-Ready}
use playground_engine.Renderer.Fences.{fence_calls, same-fences_after, fences_after}

-- What may be asked of the renderer ahead of drawing: a resize that is noticed, a capture to a
-- path, and a mesh of a file.
pub data Request : Type 0 where
  resized : Request
  capture mesh : ℕ → Request

pub record FrameInput : Type 0 where
  pub requests : List Request
  pub meshes : List (ExtractedMesh ℕ)
  pub framebuffer_size : Extent
  pub overlay : Bool

abbrev loaded :
    Outcome (RendererVulkan × ℕ) × List Call → RendererVulkan → Drawn (Unit {0}) × Running
loaded (ok (r, handle), calls) before = (drawn tt, (r, calls))
loaded (failed e, calls) before = (drawn tt, (before, calls))

module _ (device : Device) (surface : Surface) (parse : ℕ → Option MeshSize) where
  unfoldable pub serve : Request → N (Unit {0})
  serve resized s = change notify_framebuffer_resized s
  serve (capture path) s = change (request_capture path) s
  serve (mesh file) s = loaded (acquire_mesh device parse s.0 file s.1) s.0

  unfoldable pub serve_all : List Request → N (Unit {0})
  unfolding serve return
  serve_all [] = return tt
  serve_all (q ∷ requests) = do serve q; serve_all requests

  -- The requests and the drawing of frame after frame, until an error.
  unfoldable pub draw_frames : List FrameInput → N (Unit {0})
  unfolding serve_all draw_frame return
  draw_frames [] = return tt
  draw_frames (f ∷ frames) = do
    serve_all f.requests
    draw_frame device surface f.meshes f.framebuffer_size f.overlay
    draw_frames frames

-- The sizes are those of a renderer that differs in what a request changes.
requested :
    (images_in : ℕ → ℕ) (r : RendererVulkan) (meshes : List GpuMesh) (noticed : Bool)
    (path : Option ℕ)
    → IsWellFormed images_in r
    → IsWellFormed images_in
        (record r { meshes = meshes; framebuffer_resized = noticed; pending_capture_path = path })
requested images_in r meshes noticed path w = record {
  images = w.images;
  frame = w.frame;
  uniforms = w.uniforms;
  sets = w.sets;
  buffers = w.buffers;
  present_complete = w.present_complete;
  fences = w.fences;
  views = w.views;
  render_finished = w.render_finished;
}

module _ (device : Device) (images_in : ℕ → ℕ) (lists : ListsAsAsked device images_in)
    (surface : Surface) (own : AcquiresOwn images_in surface) (parse : ℕ → Option MeshSize) where
  acquire_mesh-IsWellFormed :
      (r : RendererVulkan) (file : ℕ) (calls : List Call)
      → IsWellFormed images_in r
      → Ensures (λ p after. IsWellFormed images_in p.0) (acquire_mesh device parse r file) calls
  unfolding acquire_mesh
  acquire_mesh-IsWellFormed r file calls w = Ensures-any _ _ calls (λ size c1.
      Ensures-any _ _ c1 (λ vertices c2. Ensures-any _ _ c2 (λ indices c3.
        Ensures-return _ c3
          (requested images_in r _ r.framebuffer_resized r.pending_capture_path w))))

  loaded-Ready :
      (x : Outcome (RendererVulkan × ℕ) × List Call) (s : Running)
      → Ready device images_in lists surface own tt s
      → Succeeded (λ p after. IsWellFormed images_in p.0) x
      → fence_calls x.1 ≡ fence_calls s.1
      → Fine (Ready device images_in lists surface own) (loaded x s.0)
  loaded-Ready (ok (r, handle), calls) s ready w same =
      (w, same-fences_after s.1 calls same ∙ ready.1)
  loaded-Ready (failed e, calls) s ready w same =
      (ready.0, same-fences_after s.1 calls same ∙ ready.1)

  serve-Ready :
      (q : Request) (s : Running)
      → Ready device images_in lists surface own tt s
      → Holds (Ready device images_in lists surface own) (serve device surface parse q) s
  unfolding serve request_capture notify_framebuffer_resized
  serve-Ready resized s ready =
      Holds-change notify_framebuffer_resized s
        (requested images_in s.0 s.0.meshes true s.0.pending_capture_path ready.0, ready.1)
  serve-Ready (capture path) s ready =
      Holds-change (request_capture path) s
        (requested images_in s.0 s.0.meshes s.0.framebuffer_resized (some path) ready.0, ready.1)
  serve-Ready (mesh file) s ready = record {
    at =
        loaded-Ready (acquire_mesh device parse s.0 file s.1) s ready
          (acquire_mesh-IsWellFormed s.0 file s.1 ready.0).at
          ((acquire_mesh-Keeps device parse s.0 file).at s.1);
  }

  serve_all-Ready :
      (requests : List Request) (s : Running)
      → Ready device images_in lists surface own tt s
      → Holds (Ready device images_in lists surface own) (serve_all device surface parse requests) s
  unfolding serve_all
  serve_all-Ready [] s ready = Holds-return tt s ready
  serve_all-Ready (q ∷ requests) s ready =
      Holds-bind (Ready device images_in lists surface own) _ _ s (serve-Ready q s ready).at
        (λ u t again. serve_all-Ready requests t again)

  draw_frames-Ready :
      (frames : List FrameInput) (s : Running)
      → Ready device images_in lists surface own tt s
      → Holds (Ready device images_in lists surface own) (draw_frames device surface parse frames) s
  unfolding draw_frames
  draw_frames-Ready [] s ready = Holds-return tt s ready
  draw_frames-Ready (f ∷ frames) s ready =
      Holds-bind (Ready device images_in lists surface own) _ _ s
        (serve_all-Ready f.requests s ready).at
        (λ u s1 served.
          Holds-bind (Ready device images_in lists surface own) _ _ s1
            (draw_frame-Ready device images_in lists surface own f.meshes f.framebuffer_size
              f.overlay s1 served.0 served.1)
            (λ v t again. draw_frames-Ready frames t again))

  -- Where the device's lists are as long as it was asked for, and an image that is acquired is one
  -- of the swap chain's: from a renderer that was just created, drawing any frames until one stops,
  -- each after any notices of resizes, requests of captures and loads of meshes, reads no array past
  -- its end, and at no time waits for a fence that was reset and that no
  -- submission will signal, whatever the calls of Vulkan answer. If no frame stops, the arrays
  -- still have their sizes and no fence is left reset.
  pub draw_frames-live :
      (setup : Setup) (frames : List FrameInput) (r : RendererVulkan) (calls : List Call)
      → create device setup [] ≡ (ok r, calls)
      → Fine
          (Ready device images_in lists surface own)
          (draw_frames device surface parse frames (r, calls))
  unfolding fences_after marked
  draw_frames-live setup frames r calls e =
      let formed : IsWellFormed images_in r =
        subst (Succeeded (λ r after. IsWellFormed images_in r)) e
          (create-IsWellFormed device images_in setup [] lists) in
      let quiet : fence_calls calls ≡ [] =
        subst (λ (x : Outcome RendererVulkan × List Call). fence_calls x.1 ≡ []) e
          ((create-Keeps device setup).at []) in
      (draw_frames-Ready frames (r, calls) (formed, same-fences_after [] calls quiet ∙ refl)).at
