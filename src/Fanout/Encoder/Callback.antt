-- ===== src/Fanout/Encoder/Callback.antt =====
-- The subscription's callback and `on_image` of src/encoder_like_node.cpp. Reading the message is
-- ImageReader; the allocation that the view's pointer leads to is a parameter.
use ros2_cuda_ipc.Base.{ℕ, ◌+◌, ◌%◌, not, Option, none, some, if◌then◌else◌, u64_mod}
use ros2_cuda_ipc.Image.{ImageReadHandle}
use ros2_cuda_ipc.Fanout.{Buffer}
use ros2_cuda_ipc.Fanout.Encoder.{EncoderLikeNode, ensure_buffers, ensure_cuda_state, acceptable}
use ros2_cuda_ipc.Fanout.Launch.{
  Launched, failed, faulted, finished, launch_rgba_to_luma_downscale2_kernel,
  launch_checksum_u8_kernel,
}
use ros2_cuda_ipc.Fanout.Runtime.{
  cuda_stream_synchronize, cuda_event_create, cuda_event_destroy, cuda_event_record, cuda_memset,
  cuda_memcpy_to_host, cuda_event_elapsed_time, Rt, pure, ◌>>=◌, ◌>>◌, perform, is_ok,
}

-- What came of an image. `broken` is a fault of a kernel.
pub data Outcome : Type 0 where
  skipped broken : Outcome
  published : ℕ → ℕ → ℕ → ℕ → Outcome

abbrev pub Callback : Type 0
Callback = Rt (Outcome × EncoderLikeNode)

unfoldable pub abandon : EncoderLikeNode → Outcome → ℕ → ℕ → Callback
abandon node outcome start stop = do
  perform (cuda_event_destroy start)
  perform (cuda_event_destroy stop)
  pure (outcome, node)

-- From `cudaEventElapsedTime` on; a failure only leaves the time at 0.
unfoldable pub publish_status : EncoderLikeNode → ℕ → ℕ → Callback
publish_status node start stop = do
  perform cuda_event_elapsed_time
  perform (cuda_event_destroy start)
  perform (cuda_event_destroy stop)
  pure (published node.received node.output_width node.output_height node.host_checksum, node)

unfoldable pub copy_checksum : EncoderLikeNode → ℕ → ℕ → Callback
copy_checksum node start stop = elim node.device_checksum [
  | none ↦ abandon node skipped start stop
  | some checksum ↦ do
    copied ← perform cuda_memcpy_to_host
    if not (is_ok copied)
        then abandon node skipped start stop
        else publish_status (record node { host_checksum = checksum }) start stop
]

unfoldable pub wait_for_kernels : EncoderLikeNode → ℕ → ℕ → ℕ → Callback
wait_for_kernels node stream start stop = do
  recorded ← perform (cuda_event_record stop)
  if not (is_ok recorded) then abandon node skipped start stop else do
    waited ← perform (cuda_stream_synchronize stream)
    if not (is_ok waited) then abandon node skipped start stop else copy_checksum node start stop

unfoldable pub after_checksum : Launched ℕ → EncoderLikeNode → ℕ → ℕ → ℕ → Callback
after_checksum (failed _) node stream start stop = abandon node skipped start stop
after_checksum faulted node stream start stop = abandon node broken start stop
after_checksum (finished checksum) node stream start stop =
    wait_for_kernels (record node { device_checksum = some checksum }) stream start stop

unfoldable pub run_checksum : EncoderLikeNode → ℕ → ℕ → ℕ → Callback
run_checksum node stream start stop = do
  result ← launch_checksum_u8_kernel node.device_luma node.output_pixel_count node.device_checksum
  after_checksum result node stream start stop

unfoldable pub after_luma : Launched Buffer → EncoderLikeNode → ℕ → ℕ → ℕ → Callback
after_luma (failed _) node stream start stop = abandon node skipped start stop
after_luma faulted node stream start stop = abandon node broken start stop
after_luma (finished luma) node stream start stop =
    run_checksum (record node { device_luma = some luma }) stream start stop

-- `stream_` as an argument of a call: the null stream is 0.
abbrev pub stream_of : EncoderLikeNode → ℕ
stream_of node = elim node.stream [ none ↦ 0 | some stream ↦ stream ]

module _ {Header : Type 0} (view : ImageReadHandle Header) (memory : Option Buffer) where
  unfoldable pub run_luma : EncoderLikeNode → ℕ → ℕ → ℕ → Callback
  run_luma node stream start stop = do
    result ←
        launch_rgba_to_luma_downscale2_kernel memory node.device_luma view.shape.second
          view.shape.first view.strides.first
    after_luma result node stream start stop

  -- `cudaMemsetAsync` and the first `cudaEventRecord`.
  unfoldable pub run_kernels : EncoderLikeNode → ℕ → ℕ → ℕ → Callback
  run_kernels node stream start stop = do
    reset ← perform cuda_memset
    if not (is_ok reset) then abandon node skipped start stop else do
      recorded ← perform (cuda_event_record start)
      if not (is_ok recorded)
          then abandon node skipped start stop
          else run_luma
              (record node {
                device_checksum = elim node.device_checksum [ none ↦ none | some _ ↦ some 0 ];
              })
              stream start stop

  unfoldable pub with_events : EncoderLikeNode → ℕ → Callback
  with_events node stream = do
    start ← perform cuda_event_create
    if not (is_ok start) then pure (skipped, node) else do
      stop ← perform cuda_event_create
      if not (is_ok stop)
          then (do perform (cuda_event_destroy start.value); pure (skipped, node))
          else run_kernels node stream start.value stop.value

  unfoldable pub on_image : EncoderLikeNode → Callback
  on_image node =
      let counted = record node { received = (node.received + 1) % u64_mod } in
      if not (acceptable view) then pure (skipped, counted) else do
        ready ← ensure_buffers counted view.shape.first view.shape.second
        if not (ready.0) then pure (skipped, ready.1) else with_events ready.1 (stream_of ready.1)

-- The callback. What the reader makes of the message for a stream, and the memory that it maps, are
-- parameters.
unfoldable pub on_message :
    {Header : Type 0}
    → ℕ
    → (Option ℕ → Option (ImageReadHandle Header × Option Buffer))
    → EncoderLikeNode
    → Callback
on_message device_id read node = do
  ready ← ensure_cuda_state node device_id
  if not (ready.0) then pure (skipped, ready.1) else elim (read ready.1.stream) [
    | none ↦ pure (skipped, ready.1)
    | some (view, memory) ↦ on_image view memory ready.1
  ]
