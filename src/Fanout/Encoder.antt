-- ===== src/Fanout/Encoder.antt =====
-- src/encoder_like_node.cpp: a node that reads images, reduces each to a half-size luma plane and its
-- checksum on the GPU, and publishes the checksum.
pub mod Accounts
pub mod Callback
pub mod Image
pub mod Invariant
pub mod Published
pub mod Sound
pub mod Status
use ros2_cuda_ipc.Base.{
  ℕ, ◌+◌, ◌*◌, ◌/◌, ◌%◌, Bool, true, false, not, ◌&&◌, ◌||◌, Option, none, some, List, ltb, leb,
  ◌==◌, if◌then◌else◌, u32_max, u32_mod, u64_mod,
}
use ros2_cuda_ipc.Subscriber.ReadHandle
use ros2_cuda_ipc.Image.{DType, u8, ImageReadHandle, sanity_check}
use ros2_cuda_ipc.Fanout.{Array, Buffer}
use ros2_cuda_ipc.Fanout.Kernels.{i32_max}
use ros2_cuda_ipc.Fanout.Launch.{
  Launched, failed, faulted, finished, launch_rgba_to_luma_downscale2_kernel,
  launch_checksum_u8_kernel,
}
use ros2_cuda_ipc.Fanout.Runtime.{
  cuda_set_device, cuda_malloc, cuda_stream_synchronize, cuda_stream_destroy, cuda_stream_create,
  cuda_free, cuda_event_create, cuda_event_destroy, cuda_event_record, cuda_memset,
  cuda_memcpy_to_host, cuda_event_elapsed_time, Rt, pure, ◌>>=◌, ◌>>◌, perform, is_ok,
}

-- The members of the node that the callback uses. `current_device_id_` is the bit pattern of an `int`.
pub record EncoderLikeNode : Type 0 where
  pub stream : Option ℕ
  pub device_luma : Option Buffer
  pub device_checksum : Option ℕ
  pub current_device_id : ℕ
  pub output_width : ℕ
  pub output_height : ℕ
  pub output_pixel_count : ℕ
  pub received : ℕ
  pub host_checksum : ℕ

abbrev pub is_some : {A : Type 0} → Option A → Bool
is_some none = false
is_some (some _) = true

-- A call only if the pointer is not null.
abbrev when_some : {A : Type 0} → Option A → (A → Rt (Unit {0})) → Rt (Unit {0})
when_some none f = pure tt
when_some (some a) f = f a

-- `cleanup_cuda_state`.
abbrev release_stream_work : EncoderLikeNode → Rt (Unit {0})
release_stream_work node = when_some node.stream λ stream. do
  if leb node.current_device_id i32_max
      then (do perform (cuda_set_device node.current_device_id); pure tt)
      else pure tt
  perform (cuda_stream_synchronize stream)
  pure tt

unfoldable pub cleanup_cuda_state : EncoderLikeNode → Rt EncoderLikeNode
cleanup_cuda_state node = do
  release_stream_work node
  when_some node.device_luma (λ _. do perform cuda_free; pure tt)
  when_some node.device_checksum (λ _. do perform cuda_free; pure tt)
  when_some node.stream (λ stream. do perform (cuda_stream_destroy stream); pure tt)
  pure (record node {
    stream = none;
    device_luma = none;
    device_checksum = none;
    current_device_id = u32_max;
    output_width = 0;
    output_height = 0;
    output_pixel_count = 0;
  })

-- `ensure_cuda_state`, from the selection of the device on.
unfoldable pub make_cuda_state : EncoderLikeNode → ℕ → Rt (Bool × EncoderLikeNode)
make_cuda_state node device_id = do
  selected ← perform (cuda_set_device device_id)
  if not (is_ok selected) then pure (false, node) else do
    stream ← perform cuda_stream_create
    if not (is_ok stream) then pure (false, record node { stream = none }) else do
      allocated ← perform (cuda_malloc 8)
      if not (is_ok allocated)
          then (do
            perform (cuda_stream_destroy stream.value)
            pure (false, record node { stream = none }))
          else λ d l. (
            (
              true,
              record node {
                stream = some stream.value;
                device_checksum = some (d.contents l 0);
                current_device_id = device_id;
              },
            ),
            l,
          )

unfoldable pub ensure_cuda_state : EncoderLikeNode → ℕ → Rt (Bool × EncoderLikeNode)
ensure_cuda_state node device_id =
    if is_some node.stream && node.current_device_id == device_id
    then pure (true, node)
    else do clean ← cleanup_cuda_state node; make_cuda_state clean device_id

-- `ensure_buffers`.
unfoldable pub allocate_luma : EncoderLikeNode → ℕ → ℕ → Rt (Bool × EncoderLikeNode)
allocate_luma node width height = do
  allocated ← perform (cuda_malloc (width * height))
  if not (is_ok allocated) then pure (false, node) else λ d l. (
    (
      true,
      record node {
        device_luma = some (record { size = width * height; at = d.contents l });
        output_width = width;
        output_height = height;
        output_pixel_count = width * height;
      },
    ),
    l,
  )

unfoldable pub replace_luma : EncoderLikeNode → ℕ → ℕ → Rt (Bool × EncoderLikeNode)
replace_luma node width height =
    if not (is_some node.device_luma) then allocate_luma node width height else do
      freed ← perform cuda_free
      if not (is_ok freed)
          then pure (false, node)
          else allocate_luma (record node { device_luma = none }) width height

-- The stream is waited for first; there is nothing to do without one.
unfoldable pub replace_when_idle : Option ℕ → EncoderLikeNode → ℕ → ℕ → Rt (Bool × EncoderLikeNode)
replace_when_idle none node width height = pure (false, node)
replace_when_idle (some stream) node width height = do
  waited ← perform (cuda_stream_synchronize stream)
  if not (is_ok waited) then pure (false, node) else replace_luma node width height

-- Here with the rows and columns of the view.
unfoldable pub ensure_buffers : EncoderLikeNode → ℕ → ℕ → Rt (Bool × EncoderLikeNode)
ensure_buffers node rows cols =
    let width = cols / 2 in
    let height = rows / 2 in
    if width == 0 || height == 0
    then pure (false, node)
    else if is_some node.device_luma && width == node.output_width && height == node.output_height
    then pure (true, node)
    else replace_when_idle node.stream node width height

-- `is_supported_rgba8_layout`, in `uint64_t`.
unfoldable pub is_supported_rgba8_layout : {Header : Type 0} → ImageReadHandle Header → Bool
is_supported_rgba8_layout view =
    view.strides.third == 1
    && view.strides.second == 4
    && leb (view.shape.second * 4 % u64_mod) view.strides.first

abbrev pub is_u8 : DType → Bool
is_u8 u8 = true
is_u8 _ = false

-- The tests of `on_image`, in their order.
unfoldable pub acceptable : {Header : Type 0} → ImageReadHandle Header → Bool
acceptable view =
    ReadHandle.valid view.read
    && sanity_check view
    && is_u8 view.dtype
    && view.shape.third == 4
    && is_supported_rgba8_layout view
    && not (ltb view.shape.first 2 || ltb view.shape.second 2)
