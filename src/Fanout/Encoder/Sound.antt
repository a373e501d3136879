-- ===== src/Fanout/Encoder/Sound.antt =====
-- What holds of the node's state between the callbacks of src/encoder_like_node.cpp.
use ros2_cuda_ipc.Base.{
  ℕ, ◌*◌, ◌/◌, ◌≤◌, ◌<◌, ◌≡◌, refl, ◌⊎◌, inl, inr, Bool, true, false, not, ◌&&◌, ◌||◌, Option, none,
  some, ◌∷◌, ◌==◌, Bool-cases, arith,
}
use ros2_cuda_ipc.Fanout.{Buffer}
use ros2_cuda_ipc.Fanout.Encoder.{
  EncoderLikeNode, is_some, cleanup_cuda_state, make_cuda_state, ensure_cuda_state, allocate_luma,
  replace_luma, replace_when_idle, ensure_buffers,
}
use ros2_cuda_ipc.Fanout.Runtime.{
  failures, Runtime, RuntimeLog, is_ok, cuda_free, cuda_stream_synchronize, ◌>>=◌, ◌>>◌,
}

-- The luma plane, if there is one, has the announced size.
abbrev pub HasRoom : Option Buffer → ℕ → ℕ → ℕ → Type 0
HasRoom none width height count = Unit
HasRoom (some b) width height count = (b.size ≡ width * height) × (count ≡ width * height)

-- The stream and the checksum are there together, the luma plane only with them.
abbrev pub IsSound : EncoderLikeNode → Type 0
IsSound node =
    (is_some node.stream ≡ is_some node.device_checksum)
    × ((not (is_some node.device_luma) || is_some node.stream) ≡ true)
    × HasRoom node.device_luma node.output_width node.output_height node.output_pixel_count

-- A sound node that has a plane of the wanted size, unless a call failed since the log had `n` failures.
abbrev pub Ready : ℕ → ℕ → ℕ → (Bool × EncoderLikeNode) × RuntimeLog → Type 0
Ready width height n ((ready, node), l') =
    IsSound node
    × (((ready ≡ false) × (n < failures l'))
        ⊎ ((ready ≡ true)
            × (is_some node.device_luma ≡ true)
            × (node.output_width ≡ width)
            × (node.output_height ≡ height)
            × (failures l' ≡ n)))

module _ (d : Runtime) where
  make_cuda_state-IsSound :
      (node : EncoderLikeNode) (id : ℕ) (l : RuntimeLog)
      → node.stream ≡ none
      → node.device_checksum ≡ none
      → node.device_luma ≡ none
      → let result = (make_cuda_state node id d l).0 in
        IsSound result.1 × (result.0 ≡ is_some result.1.stream)
  unfolding make_cuda_state
  make_cuda_state-IsSound node id l s c b = ground (arith, s, c, b)

  pub ensure_cuda_state-IsSound :
      (node : EncoderLikeNode) (id : ℕ) (l : RuntimeLog)
      → IsSound node
      → let result = (ensure_cuda_state node id d l).0 in
        IsSound result.1 × (result.0 ≡ is_some result.1.stream)
  unfolding ensure_cuda_state cleanup_cuda_state
  ensure_cuda_state-IsSound node id l sound =
      elim (Bool-cases (is_some node.stream && node.current_device_id == id)) [
        | inl same ↦ rw (same) (sound, ground (arith, same))
        | inr other ↦
            rw (other, ◌>>=◌, ◌>>◌)
              (make_cuda_state-IsSound (cleanup_cuda_state node d l).0 id
                (cleanup_cuda_state node d l).1 refl refl refl)
      ]

  allocate_luma-Ready :
      (node : EncoderLikeNode) (width height n : ℕ) (l : RuntimeLog)
      → n ≡ failures l
      → is_some node.stream ≡ true
      → is_some node.device_checksum ≡ true
      → node.device_luma ≡ none
      → Ready width height n (allocate_luma node width height d l)
  unfolding allocate_luma
  allocate_luma-Ready node width height n l q s c b = ground (arith, q, s, c, b)

  replace_luma-Ready :
      (node : EncoderLikeNode) (width height n : ℕ) (l : RuntimeLog)
      → n ≡ failures l
      → is_some node.stream ≡ true
      → IsSound node
      → Ready width height n (replace_luma node width height d l)
  unfolding replace_luma
  replace_luma-Ready node width height n l q s sound =
      elim (Bool-cases (is_some node.device_luma)) [
        | inl e ↦
            let a = d.reply l cuda_free in
            let bare : EncoderLikeNode = record node { device_luma = none } in
            elim (Bool-cases (is_ok a)) [
              | inl freed ↦
                  rw (e, ◌>>=◌, freed)
                    (allocate_luma-Ready bare width height n ((cuda_free, a) ∷ l)
                      (ground (arith, q, freed)) s (ground (arith, s, sound)) refl)
              | inr kept ↦ rw (e, ◌>>=◌, kept) (sound, inl (refl, ground (arith, q, kept)))
            ]
        | inr e ↦ rw (e) (
            allocate_luma-Ready node width height n l q s (ground (arith, s, sound))
              (ground (arith, e)))
      ]

  replace_when_idle-Ready :
      (stream : Option ℕ) (node : EncoderLikeNode) (width height n : ℕ) (l : RuntimeLog)
      → n ≡ failures l
      → node.stream ≡ stream
      → is_some node.stream ≡ true
      → IsSound node
      → Ready width height n (replace_when_idle stream node width height d l)
  unfolding replace_when_idle
  replace_when_idle-Ready none node width height n l q e s sound = ground (arith, e, s)
  replace_when_idle-Ready (some stream) node width height n l q e s sound =
      let a = d.reply l (cuda_stream_synchronize stream) in
      elim (Bool-cases (is_ok a)) [
        | inl waited ↦
            rw (◌>>=◌, waited)
              (replace_luma-Ready node width height n ((cuda_stream_synchronize stream, a) ∷ l)
                (ground (arith, q, waited)) s sound)
        | inr busy ↦ rw (◌>>=◌, busy) (sound, inl (refl, ground (arith, q, busy)))
      ]

  pub ensure_buffers-Ready :
      (node : EncoderLikeNode) (rows cols n : ℕ) (l : RuntimeLog)
      → n ≡ failures l
      → 2 ≤ rows
      → 2 ≤ cols
      → is_some node.stream ≡ true
      → IsSound node
      → Ready (cols / 2) (rows / 2) n (ensure_buffers node rows cols d l)
  unfolding ensure_buffers
  ensure_buffers-Ready node rows cols n l q two two' s sound =
      let width = cols / 2 in
      let height = rows / 2 in
      let filled : (width == 0 || height == 0) ≡ false = ground (arith, two, two') in
      elim (Bool-cases
        (is_some node.device_luma && width == node.output_width && height == node.output_height)) [
          | inl fits ↦ rw (filled, fits) (sound, inr (ground (arith, fits, q)))
          | inr other ↦
              rw (filled, other)
                (replace_when_idle-Ready node.stream node width height n l q refl s sound)
        ]

  pub ensure_buffers-received :
      (node : EncoderLikeNode) (rows cols : ℕ) (l : RuntimeLog)
      → (ensure_buffers node rows cols d l).0.1.received ≡ node.received
  unfolding ensure_buffers replace_when_idle replace_luma allocate_luma
  ensure_buffers-received node rows cols l = ground arith
