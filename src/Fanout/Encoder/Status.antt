-- ===== src/Fanout/Encoder/Status.antt =====
-- What `on_image` of src/encoder_like_node.cpp publishes of an image.
use ros2_cuda_ipc.Base.{
  ℕ, ◌+◌, ◌-◌, ◌*◌, ◌/◌, ◌%◌, ◌≤◌, ◌<◌, ◌≡◌, refl, sym, subst, inl, inr, true, false, none, some,
  Option, ◌∷◌, ltb, Option-cases, Bool-cases, arith, u32_mod, u64_max, u64_mod,
}
use ros2_cuda_ipc.Subscriber.ReadHandle.{byte_size}
use ros2_cuda_ipc.Image.{ImageReadHandle}
use ros2_cuda_ipc.Image.Accept.{IsTyped}
use ros2_cuda_ipc.Fanout.{Buffer}
use ros2_cuda_ipc.Fanout.Encoder.{
  EncoderLikeNode, is_some, is_supported_rgba8_layout, ensure_buffers, acceptable,
}
use ros2_cuda_ipc.Fanout.Encoder.Callback.{
  Outcome, abandon, after_luma, run_luma, run_kernels, with_events, stream_of, on_image,
}
use ros2_cuda_ipc.Fanout.Encoder.Image.{acceptable-HasPixels}
use ros2_cuda_ipc.Fanout.Encoder.Published.{Publishes, checksum_of, after_luma-Publishes}
use ros2_cuda_ipc.Fanout.Encoder.Sound.{
  HasRoom, IsSound, ensure_buffers-Ready, ensure_buffers-received,
}
use ros2_cuda_ipc.Fanout.Kernels.{i32_max}
use ros2_cuda_ipc.Fanout.Launch.{launch_rgba_to_luma_downscale2_kernel}
use ros2_cuda_ipc.Fanout.Launch.Laws.{LeavesPlane, launch_rgba_to_luma_downscale2_kernel_lem}
use ros2_cuda_ipc.Fanout.Luma.{IsBytes, downscaled}
use native.Mathlib.Nat.{mul-pos}
use ros2_cuda_ipc.Fanout.Runtime.{
  Runtime, RuntimeLog, RunsGrids, failures, ◌>>=◌, ◌>>◌, is_ok, cuda_memset, cuda_event_record,
  cuda_event_create,
}

-- An image that the node is to process, of a size that its `int`s and its checksum grid can hold.
pub record IsProcessable {Header : Type 0} (view : ImageReadHandle Header) (input : Buffer)
    : Type 0 where
  pub typed : IsTyped view.shape view.strides
  pub mapped : input.size ≡ byte_size view.read
  pub size_max : input.size ≤ u64_max
  pub bytes : IsBytes input
  pub wide : view.shape.second ≤ i32_max
  pub high : view.shape.first ≤ i32_max
  pub pixels_max : view.shape.second / 2 * (view.shape.first / 2) ≤ u32_mod - 256
  pub accepted : acceptable view ≡ true

module _ (d : Runtime) (runs : RunsGrids d) {Header : Type 0} (view : ImageReadHandle Header)
    (input : Buffer) (good : IsProcessable view input) (n : ℕ) where
  abbrev cols : ℕ
  cols = view.shape.second

  abbrev rows : ℕ
  rows = view.shape.first

  abbrev stride : ℕ
  stride = view.strides.first

  abbrev luma_of : ℕ → ℕ → ℕ
  luma_of x y = downscaled input stride x y

  abbrev Right : ℕ → (Outcome × EncoderLikeNode) × RuntimeLog → Type 0
  Right received result =
      Publishes received (cols / 2) (rows / 2) (checksum_of (cols / 2) (rows / 2) luma_of) n result

  -- The node has a plane for the image.
  abbrev Fits : EncoderLikeNode → Type 0
  Fits node =
      IsSound node
      × (is_some node.device_luma ≡ true)
      × (node.output_width ≡ cols / 2)
      × (node.output_height ≡ rows / 2)

  large : (2 ≤ cols) × (2 ≤ rows) × (0 < stride)
  unfolding acceptable is_supported_rgba8_layout
  large =
      let ok = good.accepted in
      let two : ltb cols 2 ≡ false = ground (arith, ok) in
      let two' : ltb rows 2 ≡ false = ground (arith, ok) in
      let some_cols : 2 ≤ cols = ground (arith, two) in
      let row : cols * 4 % u64_mod ≤ stride = ground (arith, ok) in
      let short = good.wide in
      (some_cols, ground (arith, two'), omega (arith, some_cols, row, short))

  launched_luma :
      (o : Option Buffer) (b : Buffer) (l : RuntimeLog)
      → o ≡ some b
      → cols / 2 * (rows / 2) ≤ b.size
      → LeavesPlane
          (cols / 2)
          (rows / 2)
          luma_of
          b
          l
          (launch_rgba_to_luma_downscale2_kernel (some input) o cols rows stride d l)
  launched_luma o b l e room =
      let (two, two', step) = large in
      let has =
        acceptable-HasPixels view input good.typed (omega (arith, good.mapped, good.size_max))
          good.mapped good.accepted in
      rw (e) (
        launch_rgba_to_luma_downscale2_kernel_lem d runs input b cols rows stride l two good.wide
          two' good.high step has good.bytes room)

  run_luma-Right :
      (node : EncoderLikeNode) (stream start stop : ℕ) (l : RuntimeLog)
      → n ≡ failures l
      → Fits node
      → node.device_checksum ≡ some 0
      → Right node.received (run_luma view (some input) node stream start stop d l)
  unfolding run_luma
  run_luma-Right node stream start stop l q (sound, plane, w, h) c =
      elim (Option-cases node.device_luma) [
        | inl e ↦ ground (arith, e, plane)
        | inr (b, e) ↦
            let (two, two', step) = large in
            let room =
              subst (λ o. HasRoom o node.output_width node.output_height node.output_pixel_count) e
                sound.2 in
            let launched =
              launch_rgba_to_luma_downscale2_kernel (some input) node.device_luma cols rows stride d
                l in
            let publishes : ℕ → ℕ → Type 0 = λ W H.
              0 < W
              → 0 < W * H
              → W * H ≤ u32_mod - 256
              → LeavesPlane W H luma_of b l launched
              → Publishes node.received W H (checksum_of W H luma_of) n
                  (after_luma launched.0 node stream start stop d launched.1) in
            subst (λ W. publishes W (rows / 2)) w
              (subst (λ H. publishes node.output_width H) h
                (after_luma-Publishes d runs n stream start stop launched.0 node luma_of b l
                  launched.1 q sound c e))
              (omega (arith, two)) (mul-pos (omega (arith, two)) (omega (arith, two')))
              good.pixels_max
              (launched_luma node.device_luma b l e (
                subst (λ W. W * (rows / 2) ≤ b.size) w
                  (subst (λ H. node.output_width * H ≤ b.size) h (omega (arith, room.0)))))
      ]

  -- The node with its checksum set to 0.
  abbrev zeroed : EncoderLikeNode → EncoderLikeNode
  zeroed node = record node {
    device_checksum = elim node.device_checksum [ none ↦ none | some _ ↦ some 0 ];
  }

  zeroed-Fits :
      (node : EncoderLikeNode)
      → Fits node
      → Fits (zeroed node) × ((zeroed node).device_checksum ≡ some 0)
  zeroed-Fits node fits =
      let c : is_some node.device_checksum ≡ true = ground (arith, fits) in ground (arith, fits, c)

  run_kernels-Right :
      (node : EncoderLikeNode) (stream start stop : ℕ) (l : RuntimeLog)
      → n ≡ failures l
      → Fits node
      → Right node.received (run_kernels view (some input) node stream start stop d l)
  unfolding run_kernels abandon
  run_kernels-Right node stream start stop l q fits =
      let (fits', c') = zeroed-Fits node fits in
      let a = d.reply l cuda_memset in
      let l' = (cuda_memset, a) ∷ l in
      let a' = d.reply l' (cuda_event_record start) in
      elim (Bool-cases (is_ok a)) [
        | inr e ↦ rw (◌>>=◌, e) (fits.0, inl (refl, ground (arith, q, e)))
        | inl e ↦ elim (Bool-cases (is_ok a')) [
          | inr f ↦ rw (◌>>=◌, e, f) (fits.0, inl (refl, ground (arith, q, e, f)))
          | inl f ↦
              rw (◌>>=◌, e, f)
                (run_luma-Right (zeroed node) stream start stop ((cuda_event_record start, a') ∷ l')
                  (ground (arith, q, e, f)) fits' c')
        ]
      ]

  with_events-Right :
      (node : EncoderLikeNode) (stream : ℕ) (l : RuntimeLog)
      → n ≡ failures l
      → Fits node
      → Right node.received (with_events view (some input) node stream d l)
  unfolding with_events
  with_events-Right node stream l q fits =
      let a = d.reply l cuda_event_create in
      let l' = (cuda_event_create, a) ∷ l in
      let a' = d.reply l' cuda_event_create in
      elim (Bool-cases (is_ok a)) [
        | inr e ↦ rw (◌>>=◌, e) (fits.0, inl (refl, ground (arith, q, e)))
        | inl e ↦ elim (Bool-cases (is_ok a')) [
          | inr f ↦ rw (◌>>=◌, ◌>>◌, e, f) (fits.0, inl (refl, ground (arith, q, e, f)))
          | inl f ↦
              rw (◌>>=◌, e, f)
                (run_kernels-Right node stream a.value a'.value ((cuda_event_create, a') ∷ l')
                  (ground (arith, q, e, f)) fits)
        ]
      ]

-- Whatever the runtime answers, and in whatever order the threads of each launch run: of an image that
-- passes the node's tests, whose rows and columns are values of `int` and whose half-size plane has at
-- most 2 ^ 32 - 256 pixels, read by a sound node that has a stream, the status with the checksum of its half-size luma plane is published, unless
-- a call failed; no thread faults, and the node is sound afterwards.
pub on_image-Publishes :
    (d : Runtime)
    → RunsGrids d
    → {Header : Type 0} (view : ImageReadHandle Header) (input : Buffer) (node : EncoderLikeNode)
      (l : RuntimeLog)
    → IsProcessable view input
    → is_some node.stream ≡ true
    → IsSound node
    → Publishes
        ((node.received + 1) % u64_mod)
        (view.shape.second / 2)
        (view.shape.first / 2)
        (checksum_of
          (view.shape.second / 2)
          (view.shape.first / 2)
          (downscaled input view.strides.first))
        (failures l)
        (on_image view (some input) node d l)
unfolding on_image
on_image-Publishes d runs view input node l good s sound =
    let counted : EncoderLikeNode = record node { received = (node.received + 1) % u64_mod } in
    let rows = view.shape.first in
    let cols = view.shape.second in
    let ready = ensure_buffers counted rows cols d l in
    let (two, two', step) = large d runs view input good (failures l) in
    let (same, plane) =
      ensure_buffers-Ready d counted rows cols (failures l) l refl two' two s sound in
    let ok = good.accepted in
    elim plane [
      | inl (f, more) ↦ rw (ok, ◌>>=◌, f) (same, inl (refl, more))
      | inr (k, there, w, h, count) ↦
          rw (ok, ◌>>=◌, k)
            (subst
              (λ r.
                Publishes r (cols / 2) (rows / 2)
                  (checksum_of (cols / 2) (rows / 2) (downscaled input view.strides.first))
                  (failures l)
                  (with_events view (some input) ready.0.1 (stream_of ready.0.1) d ready.1))
              (ensure_buffers-received d counted rows cols l)
              (with_events-Right d runs view input good (failures l) ready.0.1 (stream_of ready.0.1)
                ready.1 (sym count) (same, there, w, h)))
    ]
