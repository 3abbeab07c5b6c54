-- ===== src/Renderer/Replay.antt =====
-- The rules of Vulkan for the levels of one image, as a replay of the recorded commands: a
-- transition finds its range in the old layout, a transfer finds its levels in the layouts and of
-- the sizes that it names. Level `k` of an image has its sides halved `k` times, rounded down, but
-- not below one.
use playground_engine.Base.{
  ℕ, zero, suc, ◌^◌, ◌/◌, List, [], ◌∷◌, Option, none, some, Bool, false, ◌&&◌, ◌==◌, if◌then◌else◌,
  bind, get_elem?,
}
use playground_engine.Renderer.Device.{
  Command, Layout, Extent, undefined, transfer_src, transfer_dst, shader_read_only,
  color_attachment_optimal, depth_attachment_optimal, present_src, transition, copy_buffer_to_image,
  blit,
}

abbrev pub layout_number : Layout → ℕ
layout_number undefined = 0
layout_number transfer_src = 1
layout_number transfer_dst = 2
layout_number shader_read_only = 3
layout_number color_attachment_optimal = 4
layout_number depth_attachment_optimal = 5
layout_number present_src = 6

abbrev pub same_layout : Layout → Layout → Bool
same_layout a b = layout_number a == layout_number b

abbrev pub mip_side : ℕ → ℕ → ℕ
mip_side side level = if side / 2 ^ level == 0 then 1 else side / 2 ^ level

abbrev pub has_mip_size : Extent → ℕ → Extent → Bool
has_mip_size size level extent =
    extent.width == mip_side size.width level && extent.height == mip_side size.height level

-- The layouts after a transition of a range of levels.
unfoldable pub relayout : ℕ → ℕ → Layout → Layout → List Layout → Option (List Layout)
relayout zero zero old new layouts = some layouts
relayout zero (suc count) old new [] = none
relayout zero (suc count) old new (l ∷ layouts) =
    let later = relayout zero count old new layouts in
    if same_layout l old then bind later (λ ls. some (new ∷ ls)) else none
relayout (suc first) count old new [] = none
relayout (suc first) count old new (l ∷ layouts) =
    bind (relayout first count old new layouts) (λ ls. some (l ∷ ls))

abbrev pub is_in : Option Layout → Layout → Bool
is_in none l = false
is_in (some k) l = same_layout k l

abbrev pub level_is : List Layout → ℕ → Layout → Bool
level_is layouts level l = is_in (get_elem? layouts level) l

module _ (image : ℕ) (size : Extent) where
  unfoldable pub replay_command : Command → List Layout → Option (List Layout)
  unfolding relayout
  replay_command (transition i old new first count) layouts =
      if i == image then relayout first count old new layouts else none
  replay_command (copy_buffer_to_image staging i layout extent) layouts =
      if (i == image && same_layout layout transfer_dst)
        && (level_is layouts 0 layout && has_mip_size size 0 extent)
      then some layouts
      else none
  replay_command (blit i source destination from from_size to to_size) layouts =
      if ((i == image && same_layout source transfer_src) && same_layout destination transfer_dst)
        && ((level_is layouts from source && level_is layouts to destination)
            && (has_mip_size size from from_size && has_mip_size size to to_size))
      then some layouts
      else none
  replay_command _ layouts = none

  unfoldable pub replay : List Command → List Layout → Option (List Layout)
  unfolding replay_command
  replay [] layouts = some layouts
  replay (c ∷ commands) layouts = bind (replay_command c layouts) (replay commands)

abbrev pub replicate : ℕ → Layout → List Layout
replicate zero l = []
replicate (suc n) l = l ∷ replicate n l
