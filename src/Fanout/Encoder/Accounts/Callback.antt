-- ===== src/Fanout/Encoder/Accounts/Callback.antt =====
-- The same for the stages of `on_image` and for the whole callback.
use ros2_cuda_ipc.Base.{
  ℕ, ◌+◌, ◌%◌, ◌≡◌, refl, ◌⊎◌, inl, inr, true, Option, none, some, ◌∷◌, Bool-cases, Option-cases,
  arith, u64_mod,
}
use ros2_cuda_ipc.Image.{ImageReadHandle}
use ros2_cuda_ipc.Fanout.{Buffer}
use ros2_cuda_ipc.Fanout.Encoder.{
  EncoderLikeNode, is_some, ensure_cuda_state, acceptable, ensure_buffers,
}
use ros2_cuda_ipc.Fanout.Encoder.Callback.{
  abandon, publish_status, copy_checksum, wait_for_kernels, after_checksum, run_checksum,
  after_luma, run_luma, run_kernels, with_events, on_image, on_message, stream_of,
}
use ros2_cuda_ipc.Fanout.Launch.{
  Launched, failed, faulted, finished, launch, launch_checksum_u8_kernel,
  launch_rgba_to_luma_downscale2_kernel,
}
use ros2_cuda_ipc.Fanout.Runtime.{
  cuda_memset, cuda_event_record, cuda_event_create, is_ok, Runtime, RuntimeLog, RuntimeResource,
  ◌>>=◌, ◌>>◌,
}
use ros2_cuda_ipc.Fanout.Encoder.Accounts.{
  held, lost, Accounts, AccountsFor, of_event, ensure_buffers-Accounts, ensure_cuda_state-Accounts,
}

module _ (d : Runtime) (r : RuntimeResource) (k : ℕ) where
  -- A launch takes nothing, and is refused where the memory is missing.
  launch_checksum-Accounts :
      (o : Option Buffer) (elements : ℕ) (o' : Option ℕ) (n : ℕ) (l : RuntimeLog)
      → Accounts r k n l
      → let result = launch_checksum_u8_kernel o elements o' d l in
        ((is_some o' ≡ true) ⊎ ((e : ℕ) × (result.0 ≡ failed e))) × Accounts r k n result.1
  unfolding launch_checksum_u8_kernel launch
  launch_checksum-Accounts none elements o' n l a = (inr (1, refl), a)
  launch_checksum-Accounts (some b) elements none n l a = (inr (1, refl), a)
  launch_checksum-Accounts (some b) elements (some c) n l a = (inl refl, ground (arith, a))

  launch_luma-Accounts :
      (i o : Option Buffer) (width height stride n : ℕ) (l : RuntimeLog)
      → Accounts r k n l
      → let result = launch_rgba_to_luma_downscale2_kernel i o width height stride d l in
        ((is_some o ≡ true) ⊎ ((e : ℕ) × (result.0 ≡ failed e))) × Accounts r k n result.1
  unfolding launch_rgba_to_luma_downscale2_kernel launch
  launch_luma-Accounts none o width height stride n l a = (inr (1, refl), a)
  launch_luma-Accounts (some b) none width height stride n l a = (inr (1, refl), a)
  launch_luma-Accounts (some b) (some c) width height stride n l a = (inl refl, ground (arith, a))

  -- The stages with two events.
  module _ (s start stop : ℕ) where
    abbrev WithEvents : EncoderLikeNode → RuntimeLog → Type 0
    WithEvents node l = Accounts r k (held r node + of_event r 2) l

    wait_for_kernels-Accounts :
        (node : EncoderLikeNode) (l : RuntimeLog)
        → WithEvents node l
        → AccountsFor r k (wait_for_kernels node s start stop d l)
    unfolding wait_for_kernels copy_checksum publish_status abandon
    wait_for_kernels-Accounts node l a = ground (arith, a)

    after_checksum-Accounts :
        (result : Launched ℕ) (node : EncoderLikeNode) (l : RuntimeLog)
        → (is_some node.device_checksum ≡ true) ⊎ ((e : ℕ) × (result ≡ failed e))
        → WithEvents node l
        → AccountsFor r k (after_checksum result node s start stop d l)
    unfolding after_checksum abandon
    after_checksum-Accounts (failed e) node l c a = ground (arith, a)
    after_checksum-Accounts faulted node l c a = ground (arith, a)
    after_checksum-Accounts (finished v) node l c a =
        wait_for_kernels-Accounts (record node { device_checksum = some v }) l
          (ground (arith, c, a))

    run_checksum-Accounts :
        (node : EncoderLikeNode) (l : RuntimeLog)
        → WithEvents node l
        → AccountsFor r k (run_checksum node s start stop d l)
    unfolding run_checksum
    run_checksum-Accounts node l a =
        let (there, same) =
          launch_checksum-Accounts node.device_luma node.output_pixel_count node.device_checksum
            (held r node + of_event r 2) l a in
        let launched =
          launch_checksum_u8_kernel node.device_luma node.output_pixel_count node.device_checksum d
            l in
        after_checksum-Accounts launched.0 node launched.1 there same

    after_luma-Accounts :
        (result : Launched Buffer) (node : EncoderLikeNode) (l : RuntimeLog)
        → (is_some node.device_luma ≡ true) ⊎ ((e : ℕ) × (result ≡ failed e))
        → WithEvents node l
        → AccountsFor r k (after_luma result node s start stop d l)
    unfolding after_luma abandon
    after_luma-Accounts (failed e) node l c a = ground (arith, a)
    after_luma-Accounts faulted node l c a = ground (arith, a)
    after_luma-Accounts (finished v) node l c a =
        run_checksum-Accounts (record node { device_luma = some v }) l (ground (arith, c, a))

  module _ {Header : Type 0} (view : ImageReadHandle Header) (input : Option Buffer) where
    run_luma-Accounts :
        (node : EncoderLikeNode) (s start stop : ℕ) (l : RuntimeLog)
        → WithEvents s start stop node l
        → AccountsFor r k (run_luma view input node s start stop d l)
    unfolding run_luma
    run_luma-Accounts node s start stop l a =
        let (there, same) =
          launch_luma-Accounts input node.device_luma view.shape.second view.shape.first
            view.strides.first (held r node + of_event r 2) l a in
        let launched =
          launch_rgba_to_luma_downscale2_kernel input node.device_luma view.shape.second
            view.shape.first view.strides.first d l in
        after_luma-Accounts s start stop launched.0 node launched.1 there same

    run_kernels-Accounts :
        (node : EncoderLikeNode) (s start stop : ℕ) (l : RuntimeLog)
        → WithEvents s start stop node l
        → AccountsFor r k (run_kernels view input node s start stop d l)
    unfolding run_kernels abandon
    run_kernels-Accounts node s start stop l a =
        let m = d.reply l cuda_memset in
        let l' = (cuda_memset, m) ∷ l in
        let e = d.reply l' (cuda_event_record start) in
        let zeroed : EncoderLikeNode = record node {
          device_checksum = elim node.device_checksum [ none ↦ none | some _ ↦ some 0 ];
        } in
        elim (Bool-cases (is_ok m)) [
          | inr p ↦ rw (◌>>=◌, p) (ground (arith, a))
          | inl p ↦ elim (Bool-cases (is_ok e)) [
            | inr q ↦ rw (◌>>=◌, p, q) (ground (arith, a))
            | inl q ↦
                rw (◌>>=◌, p, q)
                  (run_luma-Accounts zeroed s start stop ((cuda_event_record start, e) ∷ l')
                    (ground (arith, a)))
          ]
        ]

    with_events-Accounts :
        (node : EncoderLikeNode) (s : ℕ) (l : RuntimeLog)
        → Accounts r k (held r node) l
        → AccountsFor r k (with_events view input node s d l)
    unfolding with_events
    with_events-Accounts node s l a =
        let m = d.reply l cuda_event_create in
        let l' = (cuda_event_create, m) ∷ l in
        let e = d.reply l' cuda_event_create in
        elim (Bool-cases (is_ok m)) [
          | inr p ↦ rw (◌>>=◌, p) (ground (arith, a, p))
          | inl p ↦ elim (Bool-cases (is_ok e)) [
            | inr q ↦ rw (◌>>=◌, ◌>>◌, p, q) (ground (arith, a, p, q))
            | inl q ↦
                rw (◌>>=◌, p, q)
                  (run_kernels-Accounts node s m.value e.value ((cuda_event_create, e) ∷ l')
                    (ground (arith, a, p, q)))
          ]
        ]

    on_image-Accounts :
        (node : EncoderLikeNode) (l : RuntimeLog)
        → Accounts r k (held r node) l
        → AccountsFor r k (on_image view input node d l)
    unfolding on_image
    on_image-Accounts node l a =
        let counted : EncoderLikeNode = record node { received = (node.received + 1) % u64_mod } in
        let ready = ensure_buffers counted view.shape.first view.shape.second d l in
        let before : Accounts r k (held r counted) l = ground (arith, a) in
        let same =
          ensure_buffers-Accounts d r k counted view.shape.first view.shape.second l before in
        elim (Bool-cases (acceptable view)) [
          | inr p ↦ rw (p) before
          | inl p ↦ elim (Bool-cases ready.0.0) [
            | inr q ↦ rw (p, ◌>>=◌, q) same
            | inl q ↦
                rw (p, ◌>>=◌, q) (with_events-Accounts ready.0.1 (stream_of ready.0.1) ready.1 same)
          ]
        ]

-- Every message keeps the accounts, whatever the reader makes of it and whatever the runtime answers.
-- Of each resource, as many as were taken and are not the node's own were handed to a call that gives
-- one back, and only calls that were refused make it more: so both events of each image are handed to
-- a destroying call on every path. Of the memory, what the node has is exactly what was taken and not
-- taken back, less what the cleanup at a change of device tried to give back in vain: elsewhere the
-- node keeps the memory that a refused call did not take back.
pub on_message-Accounts :
    (d : Runtime) (r : RuntimeResource) (k : ℕ) {Header : Type 0} (id : ℕ)
    (read : Option ℕ → Option (ImageReadHandle Header × Option Buffer)) (node : EncoderLikeNode)
    (l : RuntimeLog)
    → Accounts r k (held r node) l
    → AccountsFor r (k + lost d node id l) (on_message id read node d l)
unfolding on_message
on_message-Accounts d r k id read node l a =
    let ready = ensure_cuda_state node id d l in
    let same = ensure_cuda_state-Accounts d r k node id l a in
    elim (Bool-cases ready.0.0) [
      | inr q ↦ rw (◌>>=◌, q) same
      | inl q ↦ elim (Option-cases (read ready.0.1.stream)) [
        | inl e ↦ rw (◌>>=◌, q, e) same
        | inr ((view, input), e) ↦
            rw (◌>>=◌, q, e)
              (on_image-Accounts d r (k + lost d node id l) view input ready.0.1 ready.1 same)
      ]
    ]
