-- ===== src/Renderer/Levels.antt =====
-- The chain of levels that a texture's commands fill.
use playground_engine.Base.{
  ◌*◌, ℕ, zero, suc, ◌+◌, ◌-◌, ◌^◌, ◌/◌, ◌≡◌, ◌<◌, ap, sym, ◌∙◌, refl, List, [], ◌∷◌, ◌++◌, some,
  true, ◌==◌, if◌then◌else◌, get_elem?, length, arith, ==_refl,
}
use native.Mathlib.Nat.{div-div-eq-div-mul, pow-suc}
use playground_engine.Renderer.Device.{
  Command, Layout, Extent, undefined, transfer_src, transfer_dst, shader_read_only, transition,
  blit,
}
use playground_engine.Renderer.Transfers.{half, mipmaps_from, generate_mipmaps, texture_commands}
use playground_engine.Renderer.Replay.{
  layout_number, same_layout, mip_side, has_mip_size, relayout, replay_command, replay, replicate,
}

same_layout_refl : (l : Layout) → same_layout l l ≡ true
same_layout_refl l = ==_refl (layout_number l)

-- The level at the end of a list of others.
relayout-at :
    (done : List Layout) (old new : Layout) (rest : List Layout)
    → relayout (length done) 1 old new (done ++ old ∷ rest) ≡ some (done ++ new ∷ rest)
unfolding relayout
relayout-at [] old new rest = rw (same_layout_refl old) refl
relayout-at (l ∷ done) old new rest = rw (relayout-at done old new rest) refl

get_elem?-at :
    (done : List Layout) (l : Layout) (rest : List Layout)
    → get_elem? (done ++ l ∷ rest) (length done) ≡ some l
get_elem?-at [] l rest = refl
get_elem?-at (d ∷ done) l rest = get_elem?-at done l rest

get_elem?-after :
    (done : List Layout) (k l : Layout) (rest : List Layout)
    → get_elem? (done ++ k ∷ l ∷ rest) (suc (length done)) ≡ some l
get_elem?-after [] k l rest = refl
get_elem?-after (d ∷ done) k l rest = get_elem?-after done k l rest

append_one :
    (done : List Layout) (l : Layout) (rest : List Layout)
    → done ++ l ∷ rest ≡ (done ++ l ∷ []) ++ rest
append_one [] l rest = refl
append_one (d ∷ done) l rest = ap (λ ls. d ∷ ls) (append_one done l rest)

length-append_one : (done : List Layout) (l : Layout) → length (done ++ l ∷ []) ≡ suc (length done)
length-append_one [] l = refl
length-append_one (d ∷ done) l = ap suc (length-append_one done l)

relayout-all :
    (n : ℕ) (old new : Layout) → relayout 0 n old new (replicate n old) ≡ some (replicate n new)
unfolding relayout
relayout-all zero old new = refl
relayout-all (suc n) old new = rw (same_layout_refl old, relayout-all n old new) refl

half_of : (x : ℕ) → half (if x == 0 then 1 else x) ≡ (if x / 2 == 0 then 1 else x / 2)
half_of x = ground arith

-- Halving a side once more is the next level's side.
half-mip_side : (side level : ℕ) → half (mip_side side level) ≡ mip_side side (suc level)
half-mip_side side level =
    let power : 2 ^ suc level ≡ 2 ^ level * 2 = pow-suc 2 level in
    let divided : side / 2 ^ level / 2 ≡ side / (2 ^ level * 2) =
      div-div-eq-div-mul side (2 ^ level) 2 in
    rw (power, sym divided) (half_of (side / 2 ^ level))

half-has_mip_size :
    (size : Extent) (level : ℕ) (extent : Extent)
    → has_mip_size size level extent ≡ true
    → has_mip_size size
        (suc level)
        (record { width = half extent.width; height = half extent.height })
      ≡ true
half-has_mip_size size level extent h =
    let width : extent.width ≡ mip_side size.width level = ground arith in
    let height : extent.height ≡ mip_side size.height level = ground arith in
    let next_width : half extent.width ≡ mip_side size.width (suc level) =
      ap half width ∙ half-mip_side size.width level in
    let next_height : half extent.height ≡ mip_side size.height (suc level) =
      ap half height ∙ half-mip_side size.height level in
    rw
      (
        next_width,
        next_height,
        ==_refl (mip_side size.width (suc level)),
        ==_refl (mip_side size.height (suc level)),
      )
      refl

module _ (image : ℕ) (size : Extent) where
  -- One round at the level behind `done`: it ends readable, and the next level is filled.
  round_replays :
      (level : ℕ) (done rest : List Layout) (from to : Extent) (later : List Command)
      → level ≡ suc (length done)
      → has_mip_size size (length done) from ≡ true
      → has_mip_size size (suc (length done)) to ≡ true
      → replay image size
          (transition image transfer_dst transfer_src (length done) 1
            ∷ (blit image transfer_src transfer_dst (length done) from level to
                ∷ (transition image transfer_src shader_read_only (length done) 1 ∷ later)))
          (done ++ transfer_dst ∷ (transfer_dst ∷ rest))
        ≡ replay image size later (done ++ shader_read_only ∷ (transfer_dst ∷ rest))
  unfolding replay replay_command
  round_replays level done rest from to later e h k =
      rw
        (
          e,
          ==_refl image,
          relayout-at done transfer_dst transfer_src (transfer_dst ∷ rest),
          get_elem?-at done transfer_src (transfer_dst ∷ rest),
          get_elem?-after done transfer_src transfer_dst rest,
          h,
          k,
          relayout-at done transfer_src shader_read_only (transfer_dst ∷ rest),
        )
        refl

  end_replays :
      (done : List Layout)
      → replay image size
          (transition image transfer_dst shader_read_only (length done) 1 ∷ [])
          (done ++ transfer_dst ∷ [])
        ≡ some (done ++ shader_read_only ∷ [])
  unfolding replay replay_command
  end_replays done = rw (==_refl image, relayout-at done transfer_dst shader_read_only []) refl

  mipmaps_replay :
      (rounds level : ℕ) (done : List Layout) (from : Extent)
      → level ≡ suc (length done)
      → has_mip_size size (length done) from ≡ true
      → replay image size
          (mipmaps_from image rounds level from)
          (done ++ replicate (suc rounds) transfer_dst)
        ≡ some (done ++ replicate (suc rounds) shader_read_only)
  unfolding mipmaps_from
  mipmaps_replay zero level done from e h =
      let back : level - 1 ≡ length done = omega (arith, e) in rw back (end_replays done)
  mipmaps_replay (suc rounds) level done from e h =
      let back : level - 1 ≡ length done = omega (arith, e) in
      let next : Extent = record { width = half from.width; height = half from.height } in
      let further : level + 1 ≡ suc (length (done ++ shader_read_only ∷ [])) =
        omega (arith, e, length-append_one done shader_read_only) in
      let size_there : has_mip_size size (length (done ++ shader_read_only ∷ [])) next ≡ true =
        rw (length-append_one done shader_read_only)
          (half-has_mip_size size (length done) from h) in
      let later =
        mipmaps_replay rounds (level + 1) (done ++ shader_read_only ∷ []) next further size_there in
      rw back (
        round_replays level done (replicate rounds transfer_dst) from next
          (mipmaps_from image rounds (level + 1) next) e h
          (half-has_mip_size size (length done) from h)
        ∙ rw
            (
              append_one done shader_read_only (replicate (suc rounds) transfer_dst),
              append_one done shader_read_only (replicate (suc rounds) shader_read_only),
            )
            later)

  full_size : 0 < size.width → 0 < size.height → has_mip_size size 0 size ≡ true
  full_size w h = ground arith

  -- The commands recorded for a texture of one level or more and of sides of one texel or more obey the rules of the image's levels:
  -- from an image whose levels are all undefined they replay without a breach, and they leave every level readable by shaders.
  pub replay-texture_commands :
      (staging levels : ℕ)
      → 0 < size.width
      → 0 < size.height
      → replay image size
          (texture_commands staging image size (suc levels))
          (replicate (suc levels) undefined)
        ≡ some (replicate (suc levels) shader_read_only)
  unfolding texture_commands generate_mipmaps replay replay_command
  replay-texture_commands staging levels w h =
      let full = full_size w h in
      let rounds : suc levels - 1 ≡ levels = omega arith in
      rw (==_refl image, relayout-all (suc levels) undefined transfer_dst, full, rounds)
        (mipmaps_replay levels 1 [] size refl full)
