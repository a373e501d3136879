-- ===== src/Fanout/Encoder/Invariant.antt =====
-- The state of the node of src/encoder_like_node.cpp stays sound, whatever the messages.
use ros2_cuda_ipc.Base.{
  ℕ, ◌+◌, ◌%◌, ◌≡◌, refl, subst, ap, ◌∙◌, ◌⊎◌, inl, inr, true, Option, none, some, ◌∷◌,
  Option-cases, Bool-cases, arith, u64_mod,
}
use ros2_cuda_ipc.Image.{ImageReadHandle}
use ros2_cuda_ipc.Fanout.{Buffer}
use ros2_cuda_ipc.Fanout.Encoder.{
  EncoderLikeNode, is_some, acceptable, ensure_buffers, ensure_cuda_state, replace_when_idle,
  replace_luma, allocate_luma,
}
use ros2_cuda_ipc.Fanout.Encoder.Callback.{
  abandon, publish_status, copy_checksum, wait_for_kernels, after_checksum, run_checksum,
  after_luma, run_luma, run_kernels, with_events, on_image, on_message, stream_of,
}
use ros2_cuda_ipc.Fanout.Encoder.Sound.{HasRoom, IsSound, ensure_cuda_state-IsSound}
use ros2_cuda_ipc.Fanout.Launch.{
  Launched, failed, faulted, finished, launch_rgba_to_luma_downscale2_kernel,
  launch_checksum_u8_kernel,
}
use ros2_cuda_ipc.Fanout.Runtime.{
  Runtime, RuntimeLog, ◌>>=◌, ◌>>◌, is_ok, cuda_memset, cuda_event_record, cuda_event_create,
}
use ros2_cuda_ipc.Fanout.Launch.Sizes.{SameSize, launch_luma-SameSize}

module _ (d : Runtime) where
  ensure_buffers-IsSound :
      (node : EncoderLikeNode) (rows cols : ℕ) (l : RuntimeLog)
      → IsSound node
      → IsSound (ensure_buffers node rows cols d l).0.1
  unfolding ensure_buffers replace_when_idle replace_luma allocate_luma
  ensure_buffers-IsSound node rows cols l sound = ground (arith, sound)

  module _ (s start stop : ℕ) where
    wait_for_kernels-IsSound :
        (node : EncoderLikeNode) (l : RuntimeLog)
        → IsSound node
        → IsSound (wait_for_kernels node s start stop d l).0.1
    unfolding wait_for_kernels copy_checksum publish_status abandon
    wait_for_kernels-IsSound node l sound = ground (arith, sound)

    needs_checksum :
        (o : Option Buffer) (n : ℕ) (k : Option ℕ) (l : RuntimeLog)
        → (is_some k ≡ true) ⊎ ((e : ℕ) × ((launch_checksum_u8_kernel o n k d l).0 ≡ failed e))
    unfolding launch_checksum_u8_kernel
    needs_checksum none n k l = inr (1, refl)
    needs_checksum (some b) n none l = inr (1, refl)
    needs_checksum (some b) n (some k) l = inl refl

    after_checksum-IsSound :
        (result : Launched ℕ) (node : EncoderLikeNode) (l : RuntimeLog)
        → (is_some node.device_checksum ≡ true) ⊎ ((e : ℕ) × (result ≡ failed e))
        → IsSound node
        → IsSound (after_checksum result node s start stop d l).0.1
    unfolding after_checksum abandon
    after_checksum-IsSound (failed e) node l there sound = sound
    after_checksum-IsSound faulted node l there sound = sound
    after_checksum-IsSound (finished v) node l there sound =
        wait_for_kernels-IsSound (record node { device_checksum = some v }) l
          (ground (arith, there, sound))

    run_checksum-IsSound :
        (node : EncoderLikeNode) (l : RuntimeLog)
        → IsSound node
        → IsSound (run_checksum node s start stop d l).0.1
    unfolding run_checksum
    run_checksum-IsSound node l sound =
        let launched =
          launch_checksum_u8_kernel node.device_luma node.output_pixel_count node.device_checksum d
            l in
        after_checksum-IsSound launched.0 node launched.1
          (needs_checksum node.device_luma node.output_pixel_count node.device_checksum l) sound

    after_luma-IsSound :
        (result : Launched Buffer) (node : EncoderLikeNode) (l : RuntimeLog)
        → SameSize node.device_luma result
        → IsSound node
        → IsSound (after_luma result node s start stop d l).0.1
    unfolding after_luma abandon
    after_luma-IsSound (failed e) node l sizes sound = sound
    after_luma-IsSound faulted node l sizes sound = sound
    after_luma-IsSound (finished o) node l sizes sound = elim sizes [
      | inl (e, f) ↦ ground (arith, f)
      | inr (inl f) ↦ ground (arith, f)
      | inr (inr (b, v, there, f, size)) ↦
          let room =
            subst (λ p. HasRoom p node.output_width node.output_height node.output_pixel_count)
              there sound.2 in
          let same : o ≡ v = ground (arith, f) in
          run_checksum-IsSound (record node { device_luma = some o }) l
            (sound.0, ground (arith, there, sound), (ap (λ a. a.size) same ∙ size ∙ room.0, room.1))
    ]

  module _ {Header : Type 0} (view : ImageReadHandle Header) (input : Option Buffer) where
    run_luma-IsSound :
        (node : EncoderLikeNode) (s start stop : ℕ) (l : RuntimeLog)
        → IsSound node
        → IsSound (run_luma view input node s start stop d l).0.1
    unfolding run_luma
    run_luma-IsSound node s start stop l sound =
        let launched =
          launch_rgba_to_luma_downscale2_kernel input node.device_luma view.shape.second
            view.shape.first view.strides.first d l in
        after_luma-IsSound s start stop launched.0 node launched.1
          (launch_luma-SameSize d input node.device_luma view.shape.second view.shape.first
            view.strides.first l)
          sound

    run_kernels-IsSound :
        (node : EncoderLikeNode) (s start stop : ℕ) (l : RuntimeLog)
        → IsSound node
        → IsSound (run_kernels view input node s start stop d l).0.1
    unfolding run_kernels abandon
    run_kernels-IsSound node s start stop l sound =
        let m = d.reply l cuda_memset in
        let l' = (cuda_memset, m) ∷ l in
        let e = d.reply l' (cuda_event_record start) in
        let zeroed : EncoderLikeNode = record node {
          device_checksum = elim node.device_checksum [ none ↦ none | some _ ↦ some 0 ];
        } in
        elim (Bool-cases (is_ok m)) [
          | inr p ↦ rw (◌>>=◌, p) sound
          | inl p ↦ elim (Bool-cases (is_ok e)) [
            | inr q ↦ rw (◌>>=◌, p, q) sound
            | inl q ↦
                rw (◌>>=◌, p, q)
                  (run_luma-IsSound zeroed s start stop ((cuda_event_record start, e) ∷ l')
                    (ground (arith, sound)))
          ]
        ]

    with_events-IsSound :
        (node : EncoderLikeNode) (s : ℕ) (l : RuntimeLog)
        → IsSound node
        → IsSound (with_events view input node s d l).0.1
    unfolding with_events
    with_events-IsSound node s l sound =
        let m = d.reply l cuda_event_create in
        let l' = (cuda_event_create, m) ∷ l in
        let e = d.reply l' cuda_event_create in
        elim (Bool-cases (is_ok m)) [
          | inr p ↦ rw (◌>>=◌, p) sound
          | inl p ↦ elim (Bool-cases (is_ok e)) [
            | inr q ↦ rw (◌>>=◌, ◌>>◌, p, q) sound
            | inl q ↦
                rw (◌>>=◌, p, q)
                  (run_kernels-IsSound node s m.value e.value ((cuda_event_create, e) ∷ l') sound)
          ]
        ]

    on_image-IsSound :
        (node : EncoderLikeNode) (l : RuntimeLog)
        → IsSound node
        → IsSound (on_image view input node d l).0.1
    unfolding on_image
    on_image-IsSound node l sound =
        let counted : EncoderLikeNode = record node { received = (node.received + 1) % u64_mod } in
        let ready = ensure_buffers counted view.shape.first view.shape.second d l in
        let same = ensure_buffers-IsSound counted view.shape.first view.shape.second l sound in
        elim (Bool-cases (acceptable view)) [
          | inr p ↦ rw (p) sound
          | inl p ↦ elim (Bool-cases ready.0.0) [
            | inr q ↦ rw (p, ◌>>=◌, q) same
            | inl q ↦
                rw (p, ◌>>=◌, q) (with_events-IsSound ready.0.1 (stream_of ready.0.1) ready.1 same)
          ]
        ]

  -- Every message leaves the node sound, whatever the reader makes of it and whatever the runtime
  -- answers: a stream comes with the memory of the checksum, and a luma plane with its announced size.
  pub on_message-IsSound :
      {Header : Type 0} (id : ℕ) (read : Option ℕ → Option (ImageReadHandle Header × Option Buffer))
      (node : EncoderLikeNode) (l : RuntimeLog)
      → IsSound node
      → IsSound (on_message id read node d l).0.1
  unfolding on_message
  on_message-IsSound id read node l sound =
      let ready = ensure_cuda_state node id d l in
      let same = (ensure_cuda_state-IsSound d node id l sound).0 in
      elim (Bool-cases ready.0.0) [
        | inr q ↦ rw (◌>>=◌, q) same
        | inl q ↦ elim (Option-cases (read ready.0.1.stream)) [
          | inl e ↦ rw (◌>>=◌, q, e) same
          | inr ((view, input), e) ↦
              rw (◌>>=◌, q, e) (on_image-IsSound view input ready.0.1 ready.1 same)
        ]
      ]
