-- ===== src/Fanout/Encoder/Accounts.antt =====
-- What the node of src/encoder_like_node.cpp takes from the runtime and gives back.
pub mod Callback
use ros2_cuda_ipc.Base.{
  ℕ, subst, ◌+◌, ◌-◌, if◌then◌else◌, ◌/◌, ◌%◌, ◌≤◌, ◌≡◌, refl, ◌⊎◌, inl, inr, true, ◌&&◌, ◌||◌,
  Option, none, some, ◌∷◌, ◌==◌, Bool-cases, Option-cases, arith, u64_mod,
}
use ros2_cuda_ipc.Image.{ImageReadHandle}
use ros2_cuda_ipc.Fanout.{Buffer}
use ros2_cuda_ipc.Fanout.Encoder.{
  EncoderLikeNode, is_some, cleanup_cuda_state, make_cuda_state, ensure_cuda_state, allocate_luma,
  acceptable, replace_luma, replace_when_idle, ensure_buffers,
}
use ros2_cuda_ipc.Fanout.Encoder.Callback.{
  abandon, publish_status, copy_checksum, wait_for_kernels, after_checksum, run_checksum,
  after_luma, run_luma, run_kernels, with_events, on_image, on_message, stream_of,
}
use ros2_cuda_ipc.Fanout.Launch.{
  Launched, failed, faulted, finished, launch, launch_checksum_u8_kernel,
  launch_rgba_to_luma_downscale2_kernel,
}
use ros2_cuda_ipc.Fanout.Runtime.{
  cuda_stream_synchronize, cuda_memset, cuda_event_record, cuda_event_create, is_ok, Runtime,
  RuntimeLog, RuntimeResource, memory, stream, event, taken, given, refused, ◌>>=◌, ◌>>◌,
}

abbrev count : {A : Type 0} → Option A → ℕ
count none = 0
count (some _) = 1

-- What the node holds between two callbacks.
abbrev pub held : RuntimeResource → EncoderLikeNode → ℕ
held memory node = count node.device_luma + count node.device_checksum
held stream node = count node.stream
held event node = 0

-- Of the memory, `k` allocations are lost: calls that were refused did not take them back, and the
-- node has dropped them all the same.
abbrev pub IsExact : RuntimeResource → ℕ → ℕ → RuntimeLog → Type 0
IsExact memory k n l = given memory l + n + k ≡ taken memory l + refused memory l
IsExact _ k n l = Unit {0}

-- What was taken was given back or is held, only calls that were refused gave back more, and of the
-- memory exactly the `k` that are lost are missing.
abbrev pub Accounts : RuntimeResource → ℕ → ℕ → RuntimeLog → Type 0
Accounts r k n l =
    (taken r l ≤ given r l + n) × (given r l + n ≤ taken r l + refused r l) × IsExact r k n l

-- The log and the node of a result.
abbrev pub AccountsFor :
    {A : Type 0} → RuntimeResource → ℕ → (A × EncoderLikeNode) × RuntimeLog → Type 0
AccountsFor r k ((a, node), l) = Accounts r k (held r node) l

-- The memory that a cleanup tried to give back in vain.
abbrev pub lost_by_cleanup : Runtime → EncoderLikeNode → RuntimeLog → ℕ
lost_by_cleanup d node l = refused memory (cleanup_cuda_state node d l).1 - refused memory l

-- The memory that a callback loses: none, unless the node has no stream or the device changes.
abbrev pub lost : Runtime → EncoderLikeNode → ℕ → RuntimeLog → ℕ
lost d node id l =
    if is_some node.stream && node.current_device_id == id then 0 else lost_by_cleanup d node l

abbrev pub of_event : RuntimeResource → ℕ → ℕ
of_event event n = n
of_event _ n = 0

nothing_lost : (k : ℕ) → k ≡ k + 0
nothing_lost k = omega arith

module _ (d : Runtime) (r : RuntimeResource) (k : ℕ) where
  cleanup_cuda_state-Accounts :
      (node : EncoderLikeNode) (l : RuntimeLog)
      → Accounts r k (held r node) l
      → let result = cleanup_cuda_state node d l in
        Accounts r (k + lost_by_cleanup d node l) (held r result.0) result.1
  unfolding cleanup_cuda_state
  cleanup_cuda_state-Accounts node l a = ground (arith, a)

  cleanup_cuda_state-empty :
      (node : EncoderLikeNode) (l : RuntimeLog)
      → let clean = (cleanup_cuda_state node d l).0 in
        (clean.stream ≡ none) × (clean.device_checksum ≡ none)
  unfolding cleanup_cuda_state
  cleanup_cuda_state-empty node l = (refl, refl)

  make_cuda_state-Accounts :
      (node : EncoderLikeNode) (id : ℕ) (l : RuntimeLog)
      → node.stream ≡ none
      → node.device_checksum ≡ none
      → Accounts r k (held r node) l
      → AccountsFor r k (make_cuda_state node id d l)
  unfolding make_cuda_state
  make_cuda_state-Accounts node id l s c a = ground (arith, a, s, c)

  allocate_luma-Accounts :
      (node : EncoderLikeNode) (width height : ℕ) (l : RuntimeLog)
      → node.device_luma ≡ none
      → Accounts r k (held r node) l
      → AccountsFor r k (allocate_luma node width height d l)
  unfolding allocate_luma
  allocate_luma-Accounts node width height l s a = ground (arith, a, s)

  replace_luma-Accounts :
      (node : EncoderLikeNode) (width height : ℕ) (l : RuntimeLog)
      → Accounts r k (held r node) l
      → AccountsFor r k (replace_luma node width height d l)
  unfolding replace_luma allocate_luma
  replace_luma-Accounts node width height l a = ground (arith, a)

  replace_when_idle-Accounts :
      (s : Option ℕ) (node : EncoderLikeNode) (width height : ℕ) (l : RuntimeLog)
      → Accounts r k (held r node) l
      → AccountsFor r k (replace_when_idle s node width height d l)
  unfolding replace_when_idle
  replace_when_idle-Accounts none node width height l a = a
  replace_when_idle-Accounts (some s) node width height l a =
      let w = d.reply l (cuda_stream_synchronize s) in
      elim (Bool-cases (is_ok w)) [
        | inl e ↦
            rw (◌>>=◌, e)
              (replace_luma-Accounts node width height ((cuda_stream_synchronize s, w) ∷ l)
                (ground (arith, a)))
        | inr e ↦ rw (◌>>=◌, e) (ground (arith, a))
      ]

  pub ensure_buffers-Accounts :
      (node : EncoderLikeNode) (rows cols : ℕ) (l : RuntimeLog)
      → Accounts r k (held r node) l
      → AccountsFor r k (ensure_buffers node rows cols d l)
  unfolding ensure_buffers
  ensure_buffers-Accounts node rows cols l a =
      let width = cols / 2 in
      let height = rows / 2 in
      elim (Bool-cases (width == 0 || height == 0)) [
        | inl e ↦ rw (e) a
        | inr e ↦
            elim (Bool-cases (
              is_some node.device_luma
              && width == node.output_width
              && height == node.output_height)) [
                | inl f ↦ rw (e, f) a
                | inr f ↦ rw (e, f) (replace_when_idle-Accounts node.stream node width height l a)
              ]
      ]

pub ensure_cuda_state-Accounts :
    (d : Runtime) (r : RuntimeResource) (k : ℕ) (node : EncoderLikeNode) (id : ℕ) (l : RuntimeLog)
    → Accounts r k (held r node) l
    → AccountsFor r (k + lost d node id l) (ensure_cuda_state node id d l)
unfolding ensure_cuda_state
ensure_cuda_state-Accounts d r k node id l a =
    let clean = cleanup_cuda_state node d l in
    elim (Bool-cases (is_some node.stream && node.current_device_id == id)) [
      | inl same ↦ rw (same) (subst (λ j. Accounts r j (held r node) l) (nothing_lost k) a)
      | inr other ↦
          rw (other, ◌>>=◌)
            (make_cuda_state-Accounts d r (k + lost_by_cleanup d node l) clean.0 id clean.1
              (cleanup_cuda_state-empty d r k node l).0 (cleanup_cuda_state-empty d r k node l).1
              (cleanup_cuda_state-Accounts d r k node l a))
    ]
