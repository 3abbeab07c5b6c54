-- ===== src/Renderer/Texture.antt =====
-- The texture that `CreateTextureImage` of PlaygroundEngine/src/Renderer/VulkanUtils.cpp leaves.
use playground_engine.Base.{
  ℕ, suc, ◌+◌, ◌<◌, ◌≡◌, refl, ap, ◌∙◌, List, [], ◌∷◌, ◌++◌, Option, some, true, false, map, arith,
}
use playground_engine.Renderer.Device.{
  Device, Call, Command, Extent, create_image, r8g8b8a8_srgb, optimal, image_transfer_source,
  image_transfer_destination, sampled, device_local, image_create_error, undefined,
  shader_read_only, record_command, texture_load_error, read_executable_file,
  linear_blit_unsupported,
}
use playground_engine.Renderer.Resources.{
  ImageResource, create_image_resource, end_single_time_commands,
}
use playground_engine.Renderer.Transfers.{
  fill_texture, texture_commands, longer_side, create_texture_image,
}
use playground_engine.Renderer.Replay.{replay, replicate}
use playground_engine.Renderer.Levels.{replay-texture_commands}
use playground_engine.Renderer.Views.{
  marked, marked-quiet, Passes, Keeps-return, Keeps-fail, Keeps-if, is_plain,
}
use playground_engine.Renderer.Quiet.{
  create_buffer_resource-Keeps, upload_to_device_memory-Keeps, begin_single_time_commands-Keeps,
  end_single_time_commands-Keeps, create_image_resource-Keeps,
}
use playground_engine.Renderer.Ensures.{
  Ensures-return, Ensures-ask, Ensures-any, Succeeded-both, Succeeded-calls, Succeeded, Ensures,
  Ensures-Keeps, Ensures-require, Ensures-bind, is_record, marked-record_all,
}

is_record-Passes : Passes is_record
is_record-Passes = record { at = passes }
  where
    passes : (c : Call) → is_plain c ≡ true → is_record c ≡ false
    passes (record_command buffer c) h = cc
    passes _ h = refl

-- An image that the device answered to a call for these levels, to be filled by transfers and sampled.
abbrev pub AskedFor : Device → Extent → ℕ → ImageResource → Type 0
AskedFor device size levels image =
    (asked : List Call) × (device.answer asked (
        create_image size levels 1 r8g8b8a8_srgb optimal
          (image_transfer_source ∷ image_transfer_destination ∷ sampled ∷ []))
      ≡ some image.image)

-- The picture in a file, with the bytes of its pixels.
abbrev pub ReadFrom : Device → (ℕ → Option (Extent × ℕ)) → ℕ → Extent → Type 0
ReadFrom device decode file size =
    (read : List Call) × (encoded : ℕ) × (bytes : ℕ) × (device.answer read
        (read_executable_file file)
      ≡ some encoded)
    × (decode encoded ≡ some (size, bytes))

-- An image of the file's size with the levels of its longer side; what was recorded before, and then
-- commands that make each level of that image readable.
abbrev pub TextureReady :
    Device
    → (ℕ → Option (Extent × ℕ))
    → (ℕ → ℕ)
    → ℕ
    → List Call
    → ImageResource × ℕ
    → List Call
    → Type 0
TextureReady device decode floor_log2 file before texture after =
    (size : Extent) × (buffer : ℕ) × (commands : List Command) × ReadFrom device decode file size
    × (texture.1 ≡ floor_log2 (longer_side size) + 1)
    × AskedFor device size texture.1 texture.0
    × (marked is_record after ≡ before ++ map (record_command buffer) commands)
    × (replay texture.0.image size commands (replicate texture.1 undefined)
        ≡ some (replicate texture.1 shader_read_only))

abbrev pub PositiveSides : (ℕ → Option (Extent × ℕ)) → Type 0
PositiveSides decode =
    (encoded : ℕ) (image : Extent × ℕ)
    → decode encoded ≡ some image
    → (0 < image.0.width) × (0 < image.0.height)

module _ (device : Device) (pool : ℕ) where
  abbrev Recorded : List Call → List Command → Unit {0} → List Call → Type 0
  Recorded before commands u after =
      (buffer : ℕ) × (marked is_record after ≡ before ++ map (record_command buffer) commands)

  fill_texture_records :
      (staging image : ℕ) (size : Extent) (levels : ℕ) (before calls : List Call)
      → marked is_record calls ≡ before
      → Ensures
          (Recorded before (texture_commands staging image size levels))
          (fill_texture device pool staging image size levels)
          calls
  unfolding fill_texture
  fill_texture_records staging image size levels before calls e =
      Ensures-Keeps is_record before _ _ calls
        (begin_single_time_commands-Keeps device is_record-Passes pool) e
        (λ buffer c1 e1.
          let recorded =
            before ++ map (record_command buffer) (texture_commands staging image size levels) in
          Ensures-bind (λ u after. marked is_record after ≡ recorded) _ _ c1
            (Succeeded-calls (λ after. marked is_record after ≡ recorded) _
              (marked-record_all buffer (texture_commands staging image size levels) c1
                ∙ ap
                    (λ (cs : List Call).
                      cs
                      ++ map (record_command buffer) (texture_commands staging image size levels))
                    e1))
            (λ u c2 e2. record {
              at =
                  Succeeded-calls
                    (λ after.
                      (b : ℕ) × (marked is_record after
                        ≡ before
                          ++ map (record_command b) (texture_commands staging image size levels)))
                    (end_single_time_commands device buffer c2)
                    (
                      buffer,
                      (end_single_time_commands-Keeps device is_record-Passes buffer).at c2 ∙ e2,
                    );
            }))

module _ (device : Device) (decode : ℕ → Option (Extent × ℕ)) (floor_log2 : ℕ → ℕ) where
  -- The image of a success, with the recorded commands as they were.
  Imaged : List Call → Extent → ℕ → ImageResource → List Call → Type 0
  Imaged before size levels image after =
      AskedFor device size levels image × (marked is_record after ≡ before)

  create_image_resource-Imaged :
      (before : List Call) (size : Extent) (levels : ℕ) (calls : List Call)
      → marked is_record calls ≡ before
      → Ensures
          (Imaged before size levels)
          (create_image_resource device size levels 1 r8g8b8a8_srgb optimal
            (image_transfer_source ∷ image_transfer_destination ∷ sampled ∷ [])
            (device_local ∷ []))
          calls
  unfolding create_image_resource Imaged
  create_image_resource-Imaged before size levels calls e =
      let asked : Ensures (λ image after. AskedFor device size levels image)
          (create_image_resource device size levels 1 r8g8b8a8_srgb optimal
            (image_transfer_source ∷ image_transfer_destination ∷ sampled ∷ []) (device_local ∷ []))
          calls =
        Ensures-ask device _ image_create_error _ calls (λ handle answered.
          Ensures-any _ _ (calls ++ (_ ∷ [])) (λ type c1. Ensures-any _ _ c1 (λ memory c2.
            Ensures-any _ _ c2 (λ bound c3. Ensures-return _ c3 (calls, answered))))) in
      record {
        at =
            Succeeded-both (λ image after. AskedFor device size levels image)
              (λ image after. marked is_record after ≡ before) _ asked.at
              (Succeeded-calls (λ after. marked is_record after ≡ before) _
                ((create_image_resource-Keeps device is_record-Passes _ _ _ _ _ _ _).at calls ∙ e));
      }

  -- Where the decoder yields images of sides of one texel or more: a texture that is created is an
  -- image that the device made in the size of the file's picture with the levels that its longer
  -- side asks for, and the calls that were made for it record, after what was recorded before,
  -- commands that obey the rules of that image's levels and leave every level readable by shaders.
  pub create_texture_image-TextureReady :
      (pool file : ℕ) (calls : List Call)
      → PositiveSides decode
      → Succeeded
          (TextureReady device decode floor_log2 file (marked is_record calls))
          (create_texture_image device decode floor_log2 pool file calls)
  unfolding create_texture_image Imaged
  create_texture_image-TextureReady pool file calls positive =
      let before = marked is_record calls in
      let Q : ImageResource × ℕ → List Call → Type 0 =
        TextureReady device decode floor_log2 file (marked is_record calls) in
      let proof : Ensures Q (create_texture_image device decode floor_log2 pool file) calls =
        Ensures-ask device (read_executable_file file) texture_load_error _ calls
          (λ encoded answered.
            let c1 = calls ++ (read_executable_file file ∷ []) in
            let e1 = marked-quiet is_record calls (read_executable_file file) refl in
            Ensures-require (decode encoded) texture_load_error _ c1 (λ decoded found.
              Ensures-Keeps is_record before _ _ c1
                (create_buffer_resource-Keeps device is_record-Passes _ _ _) e1
                (λ staging c2 e2.
                  Ensures-Keeps is_record before _ _ c2
                    (upload_to_device_memory-Keeps device is_record-Passes _ _) e2
                    (λ u c3 e3.
                      Ensures-Keeps is_record before _ _ c3
                        (Keeps-if _ _ _ (Keeps-return tt) (Keeps-fail linear_blit_unsupported)) e3
                        (λ v c4 e4.
                          let levels = floor_log2 (longer_side decoded.0) + 1 in
                          Ensures-bind (Imaged before decoded.0 levels) _ _ c4
                            (create_image_resource-Imaged before decoded.0 levels c4 e4).at
                            (λ image c5 made.
                              Ensures-bind _ _ _ c5
                                (fill_texture_records device pool staging.buffer image.image
                                  decoded.0 levels before c5 made.1).at
                                (λ w c6 e6. Ensures-return _ c6 (
                                  ready file decoded.0 staging.buffer image c6 before e6.0
                                    (calls, encoded, decoded.1, answered, found) made.0 e6.1
                                    (positive encoded decoded found))))))))) in
      proof.at
    where
      ready :
          (file : ℕ) (size : Extent) (staging : ℕ) (image : ImageResource)
          (after before : List Call) (buffer : ℕ)
          → ReadFrom device decode file size
          → AskedFor device size (floor_log2 (longer_side size) + 1) image
          → marked is_record after
            ≡ before
              ++ map
                  (record_command buffer)
                  (texture_commands staging image.image size (floor_log2 (longer_side size) + 1))
          → (0 < size.width) × (0 < size.height)
          → TextureReady device decode floor_log2 file before
              (image, floor_log2 (longer_side size) + 1)
              after
      ready file size staging image after before buffer read asked e sides =
          let one_more : floor_log2 (longer_side size) + 1 ≡ suc (floor_log2 (longer_side size)) =
            omega arith in
          (
            size,
            buffer,
            texture_commands staging image.image size (floor_log2 (longer_side size) + 1),
            read,
            refl,
            asked,
            e,
            rw one_more (
                replay-texture_commands image.image size staging (floor_log2 (longer_side size))
                  sides.0 sides.1),
          )
