-- ===== src/ImageTransport.antt =====
-- utils/gpu_image_transport: src/gpu_image_transport_base.cpp and src/gpu_image_transport.cpp, a node
-- that copies each GPU image to pinned host memory and publishes it as a plain image. The bytes at
-- the read's device pointer, and the decimal text of a number, are parameters.
pub mod Frames
use ros2_cuda_ipc.Base.{
  ℕ, ◌*◌, ◌/◌, ◌%◌, Bool, true, false, not, ◌&&◌, ◌||◌, Option, none, some, ltb, leb, ◌==◌,
  if◌then◌else◌, u32_max, u64_max, u64_mod,
}
use ros2_cuda_ipc.Subscriber.ReadHandle
use ros2_cuda_ipc.Subscriber.ReadHandle.{byte_size}
use ros2_cuda_ipc.Image.{
  DType, u8, u16, f16, f32, f64, s16, s32, u32, unnamed, ImageReadHandle, sanity_check,
}
use ros2_cuda_ipc.Fanout.{Buffer}
use ros2_cuda_ipc.Fanout.Runtime.{
  cuda_malloc_host, cuda_free_host, cuda_memcpy_to_host, cuda_stream_synchronize, Rt, pure, ◌>>=◌,
  ◌>>◌, perform, is_ok,
}
use Prim.Native.String.{String, ◌++◌, len}

-- The members of the base node that the callback uses. The pinned memory is `none` for a null pointer.
pub record GpuImageTransportNode : Type 0 where
  pub stream : ℕ
  pub pinned_host_buffer : Option Buffer
  pub pinned_host_capacity : ℕ

-- `sensor_msgs::msg::Image`, with its `data` as `bytes`.
pub record Frame (Header : Type 0) : Type 0 where
  pub header : Header
  pub height : ℕ
  pub width : ℕ
  pub encoding : String
  pub is_bigendian : Bool
  pub step : ℕ
  pub bytes : Buffer

-- What a callback does: `faulted` if it reads or writes outside of the pinned memory.
pub data Outcome (Header : Type 0) : Type 0 where
  skipped faulted : Outcome Header
  published : Frame Header → Outcome Header

-- `release_pinned_host`.
unfoldable pub release_pinned_host : GpuImageTransportNode → Rt GpuImageTransportNode
release_pinned_host node = elim node.pinned_host_buffer [
  | none ↦ pure node
  | some _ ↦ do
    perform cuda_free_host
    pure (record node { pinned_host_buffer = none; pinned_host_capacity = 0 })
]

unfoldable pub allocate_pinned : ℕ → GpuImageTransportNode → Rt (Bool × GpuImageTransportNode)
allocate_pinned bytes node = do
  allocated ← perform (cuda_malloc_host bytes)
  if not (is_ok allocated) then pure (false, node) else λ d l. (
    (
      true,
      record node {
        pinned_host_buffer = some (record { size = bytes; at = d.contents l });
        pinned_host_capacity = bytes;
      },
    ),
    l,
  )

-- `ensure_pinned_capacity`, whether it succeeds and the node.
unfoldable pub ensure_pinned_capacity :
    ℕ → GpuImageTransportNode → Rt (Bool × GpuImageTransportNode)
ensure_pinned_capacity bytes node =
    if bytes == 0
    then pure (true, node)
    else if leb bytes node.pinned_host_capacity
    then pure (true, node)
    else do released ← release_pinned_host node; allocate_pinned bytes released

-- The pinned memory once a copy of that many bytes has ended, or `none` where it does not hold them.
unfoldable pub copied_from : (ℕ → ℕ) → ℕ → Option Buffer → Option Buffer
copied_from device bytes none = none
copied_from device bytes (some host) =
    if ltb host.size bytes
    then none
    else some (record { size = host.size; at = λ i. if ltb i bytes then device i else host.at i })

module _ {Header : Type 0} (to_string : ℕ → String) (view : ImageReadHandle Header) where
  -- `infer_encoding`.
  unfoldable pub infer_encoding : String
  infer_encoding =
      let channels = view.shape.third in
      let suffix = to_string channels in
      elim view.dtype [
        | u8 ↦
            if channels == 1
            then "mono8"
            else if channels == 3
            then "rgb8"
            else if channels == 4
            then "rgba8"
            else "8UC" ++ suffix
        | u16 ↦ if channels == 1 then "mono16" else "16UC" ++ suffix
        | f16 ↦ "16FC" ++ suffix
        | f32 ↦ "32FC" ++ suffix
        | f64 ↦ "64FC" ++ suffix
        | s16 ↦ "16SC" ++ suffix
        | s32 ↦ "32SC" ++ suffix
        | u32 ↦ "32UC" ++ suffix
        | unnamed _ ↦ "8UC" ++ suffix
      ]

  -- The message of `publish_frame`, with the copy out of the pinned memory.
  unfoldable pub fill_frame : ℕ → Option Buffer → Outcome Header
  fill_frame required none = faulted
  fill_frame required (some host) =
      if ltb host.size required
      then faulted
      else published (record {
        header = view.header;
        height = view.shape.first;
        width = view.shape.second;
        encoding = if len view.encoding == 0 then infer_encoding else view.encoding;
        is_bigendian = false;
        step = view.strides.first;
        bytes = record { size = required; at = host.at };
      })

  -- `publish_frame`.
  unfoldable pub publish_frame : ℕ → Option Buffer → Outcome Header
  publish_frame available host =
      let height = view.shape.first in
      let step = view.strides.first in
      let required = step * height % u64_mod in
      if height == 0 || step == 0
      then skipped
      else if ltb u32_max step
      then skipped
      else if ltb 0 height && ltb (u64_max / height) step
      then skipped
      else if ltb available required
      then skipped
      else fill_frame required host

module _ {Header : Type 0} (to_string : ℕ → String) (view : ImageReadHandle Header)
    (device : ℕ → ℕ) where
  unfoldable pub copy_and_publish :
      ℕ → GpuImageTransportNode → Rt (Outcome Header × GpuImageTransportNode)
  copy_and_publish bytes node = do
    copied ← perform cuda_memcpy_to_host
    if not (is_ok copied) then pure (skipped, node) else do
      waited ← perform (cuda_stream_synchronize node.stream)
      if not (is_ok waited)
          then pure (skipped, node)
          else elim (copied_from device bytes node.pinned_host_buffer) [
            | none ↦ pure (faulted, node)
            | some host ↦ pure (
              publish_frame to_string view bytes (some host),
              record node { pinned_host_buffer = some host },
            )
          ]

  -- `on_image`.
  unfoldable pub on_image : GpuImageTransportNode → Rt (Outcome Header × GpuImageTransportNode)
  on_image node =
      let bytes = byte_size view.read in
      if not (ReadHandle.valid view.read)
      then pure (skipped, node)
      else if not (sanity_check view)
      then pure (skipped, node)
      else if bytes == 0
      then pure (skipped, node)
      else do
        ready ← ensure_pinned_capacity bytes node
        if not (ready.0) then pure (skipped, ready.1) else copy_and_publish bytes ready.1
