-- ===== src/Fanout/Encoder/Published.antt =====
-- What the stages of `on_image` of src/encoder_like_node.cpp come to, one by one.
use ros2_cuda_ipc.Base.{
  ℕ, ◌+◌, ◌-◌, ◌*◌, ◌/◌, ◌%◌, ◌≤◌, ◌<◌, ◌≡◌, refl, sym, subst, ap, ◌∙◌, ◌⊎◌, inl, inr, true, some,
  Option, arith, u32_mod, u64_mod,
}
use ros2_cuda_ipc.Fanout.{Buffer}
use ros2_cuda_ipc.Fanout.Checksum.{weighted_sum}
use ros2_cuda_ipc.Fanout.Encoder.{EncoderLikeNode, is_some}
use ros2_cuda_ipc.Fanout.Encoder.Callback.{
  Outcome, skipped, published, abandon, publish_status, copy_checksum, wait_for_kernels,
  after_checksum, after_luma, run_checksum,
}
use ros2_cuda_ipc.Fanout.Encoder.Sound.{HasRoom, IsSound}
use ros2_cuda_ipc.Fanout.Launch.{Launched, failed, faulted, finished, launch_checksum_u8_kernel}
use ros2_cuda_ipc.Fanout.Launch.Laws.{LeavesNumber, LeavesPlane, launch_checksum_u8_kernel_lem}
use ros2_cuda_ipc.Fanout.Linear.{sum_congr}
use ros2_cuda_ipc.Fanout.Runtime.{Runtime, RuntimeLog, RunsGrids, failures}
use native.Mathlib.Nat.{div-add-mod', div-lt_iff_lt-mul, mod-lt}

-- The node is sound afterwards, and either a call failed since the log had `n` failures and nothing was
-- published, or exactly this was.
abbrev pub Publishes : ℕ → ℕ → ℕ → ℕ → ℕ → (Outcome × EncoderLikeNode) × RuntimeLog → Type 0
Publishes received width height checksum n ((outcome, node), l') =
    IsSound node
    × (((outcome ≡ skipped) × (n < failures l'))
        ⊎ (outcome ≡ published received width height checksum))

-- The checksum of a plane.
unfoldable pub checksum_of : ℕ → ℕ → (ℕ → ℕ → ℕ) → ℕ
checksum_of width height value =
    weighted_sum (λ i. value (i % width) (i / width)) (width * height) % u64_mod

checksum_of-at :
    (width height : ℕ) (value : ℕ → ℕ → ℕ) (at : ℕ → ℕ)
    → 0 < width
    → ((x y : ℕ) → x < width → y < height → at (y * width + x) ≡ value x y)
    → weighted_sum at (width * height) % u64_mod ≡ checksum_of width height value
unfolding weighted_sum checksum_of
checksum_of-at width height value at pos same =
    ap (λ n. n % u64_mod)
      (sum_congr (width * height) _ _ (λ i p.
        let in_row : i / width < height = (div-lt_iff_lt-mul pos).1 (omega (arith, p)) in
        ap (λ v. v * (i % 251 + 1))
          (sym (ap at (div-add-mod' i width))
            ∙ same (i % width) (i / width) (mod-lt i pos) in_row)))

module _ (d : Runtime) (runs : RunsGrids d) (n : ℕ) (stream start stop : ℕ) where
  wait_for_kernels-Publishes :
      (node : EncoderLikeNode) (checksum : ℕ) (l : RuntimeLog)
      → n ≡ failures l
      → IsSound node
      → node.device_checksum ≡ some checksum
      → Publishes node.received node.output_width node.output_height checksum n
          (wait_for_kernels node stream start stop d l)
  unfolding wait_for_kernels copy_checksum publish_status abandon
  wait_for_kernels-Publishes node checksum l q sound e = ground (arith, q, sound, e)

  after_checksum-Publishes :
      (result : Launched ℕ) (node : EncoderLikeNode) (checksum : ℕ) (l l' : RuntimeLog)
      → n ≡ failures l
      → IsSound node
      → is_some node.device_checksum ≡ true
      → LeavesNumber checksum l (result, l')
      → Publishes node.received node.output_width node.output_height checksum n
          (after_checksum result node stream start stop d l')
  unfolding after_checksum abandon
  after_checksum-Publishes (failed e) node checksum l l' q sound c r =
      (sound, inl (refl, ground (arith, q, r)))
  after_checksum-Publishes faulted node checksum l l' q sound c r = ground (arith, r)
  after_checksum-Publishes (finished v) node checksum l l' q sound c r =
      wait_for_kernels-Publishes (record node { device_checksum = some v }) checksum l'
        (ground (arith, q, r)) (ground (arith, sound, c)) (ground (arith, r))

  launched_checksum :
      (o : Option Buffer) (k : Option ℕ) (b : Buffer) (count m : ℕ) (l : RuntimeLog)
      → o ≡ some b
      → k ≡ some 0
      → count ≡ m
      → 0 < m
      → m ≤ b.size
      → m ≤ u32_mod - 256
      → LeavesNumber (weighted_sum b.at m % u64_mod) l (launch_checksum_u8_kernel o count k d l)
  launched_checksum o k b count m l e c q pos room most =
      rw (e, c, q) (launch_checksum_u8_kernel_lem d runs b m l pos room most)

  run_checksum-Publishes :
      (node : EncoderLikeNode) (b : Buffer) (l : RuntimeLog)
      → n ≡ failures l
      → IsSound node
      → node.device_checksum ≡ some 0
      → node.device_luma ≡ some b
      → 0 < node.output_width * node.output_height
      → node.output_width * node.output_height ≤ u32_mod - 256
      → Publishes node.received node.output_width node.output_height
          (weighted_sum b.at (node.output_width * node.output_height) % u64_mod)
          n
          (run_checksum node stream start stop d l)
  unfolding run_checksum
  run_checksum-Publishes node b l q sound c e pos most =
      let room =
        subst (λ o. HasRoom o node.output_width node.output_height node.output_pixel_count) e
          sound.2 in
      let count = node.output_pixel_count in
      let launched = launch_checksum_u8_kernel node.device_luma count node.device_checksum d l in
      after_checksum-Publishes launched.0 node _ l launched.1 q sound (ap is_some c) (
        launched_checksum node.device_luma node.device_checksum b count _ l e c room.1 pos
          (omega (arith, room.0)) most)

  pub after_luma-Publishes :
      (result : Launched Buffer) (node : EncoderLikeNode) (value : ℕ → ℕ → ℕ) (b : Buffer)
      (l l' : RuntimeLog)
      → n ≡ failures l
      → IsSound node
      → node.device_checksum ≡ some 0
      → node.device_luma ≡ some b
      → 0 < node.output_width
      → 0 < node.output_width * node.output_height
      → node.output_width * node.output_height ≤ u32_mod - 256
      → LeavesPlane node.output_width node.output_height value b l (result, l')
      → Publishes node.received node.output_width node.output_height
          (checksum_of node.output_width node.output_height value)
          n
          (after_luma result node stream start stop d l')
  unfolding after_luma abandon
  after_luma-Publishes (failed e) node value b l l' q sound c h wide pos most r = elim r [
    | inl (e', f, more) ↦ (sound, inl (refl, omega (arith, q, more)))
    | inr (o, f, s, at, k) ↦ ground (arith, f)
  ]
  after_luma-Publishes faulted node value b l l' q sound c h wide pos most r = elim r [
    | inl (e', f, more) ↦ ground (arith, f)
    | inr (o, f, s, at, k) ↦ ground (arith, f)
  ]
  after_luma-Publishes (finished o) node value b l l' q sound c h wide pos most r =
      let before =
        subst (λ o. HasRoom o node.output_width node.output_height node.output_pixel_count) h
          sound.2 in
      let node' : EncoderLikeNode = record node { device_luma = some o } in
      elim r [
        | inl (e, f, more) ↦ ground (arith, f)
        | inr (o', f, size, at, same_count) ↦
            let same : o ≡ o' = ground (arith, f) in
            let room = ap (λ a. a.size) same ∙ size ∙ before.0 in
            subst
              (λ m.
                Publishes node.received node.output_width node.output_height m n
                  (run_checksum node' stream start stop d l'))
              (checksum_of-at node.output_width node.output_height value o.at wide
                (λ x y u v. ap (λ a. a.at (y * node.output_width + x)) same ∙ at x y u v))
              (run_checksum-Publishes node' o l' (omega (arith, q, same_count))
                (sound.0, ground (arith, sound, c), (room, before.1)) c refl pos most)
      ]
