-- ===== src/Fanout/Launch/Laws.antt =====
-- What the launchers of src/cuda/kernels.cu return when the arrays are large enough.
use ros2_cuda_ipc.Base.{
  ℕ, ◌+◌, ◌-◌, ◌*◌, ◌/◌, ◌%◌, ◌≤◌, ◌<◌, ◌≡◌, refl, ap, ◌∙◌, ◌⊎◌, inl, inr, false, not, ◌||◌, ◌==◌,
  some, List, Option, Bool-cases, arith, u32_mod, u64_mod,
}
use ros2_cuda_ipc.Fanout.{Buffer, Grid, Thread, run, IsSchedule}
use ros2_cuda_ipc.Fanout.Checksum.{weighted_sum, run-weighted_sum}
use ros2_cuda_ipc.Fanout.Kernels.{
  i32_max, positive, checksum_u8_kernel, rgba_to_luma_downscale2_kernel, linear_grid, plane_grid,
}
use ros2_cuda_ipc.Fanout.Launch.{
  Launched, failed, finished, ended, launch, launch_checksum_u8_kernel,
  launch_rgba_to_luma_downscale2_kernel,
}
use ros2_cuda_ipc.Fanout.Luma.{HasPixels, IsBytes, downscaled, run-downscaled}
use ros2_cuda_ipc.Fanout.Runtime.{
  failures, Runtime, RuntimeLog, RunsGrids, ◌>>=◌, is_ok, launch_kernel,
}

-- A launch is refused, which the log shows, or runs a schedule of its grid.
abbrev pub Ran :
    {S : Type 0}
    → (Thread → S → Option S)
    → Grid
    → S
    → RuntimeLog
    → Launched S × RuntimeLog
    → Type 0
Ran step g s l (result, l') =
    ((e : ℕ) × (result ≡ failed e) × (failures l < failures l'))
    ⊎ ((ts : List Thread) × IsSchedule g ts
        × (result ≡ ended (run step ts s))
        × (failures l' ≡ failures l))

-- A launch is refused, or leaves this.
abbrev pub LeavesNumber : ℕ → RuntimeLog → Launched ℕ × RuntimeLog → Type 0
LeavesNumber n l (result, l') =
    ((e : ℕ) × (result ≡ failed e) × (failures l < failures l'))
    ⊎ ((result ≡ finished n) × (failures l' ≡ failures l))

abbrev pub LeavesPlane :
    ℕ → ℕ → (ℕ → ℕ → ℕ) → Buffer → RuntimeLog → Launched Buffer × RuntimeLog → Type 0
LeavesPlane width height value before l (result, l') =
    ((e : ℕ) × (result ≡ failed e) × (failures l < failures l'))
    ⊎ ((o : Buffer) × (result ≡ finished o)
        × (o.size ≡ before.size)
        × ((x y : ℕ) → x < width → y < height → o.at (y * width + x) ≡ value x y)
        × (failures l' ≡ failures l))

module _ (d : Runtime) (runs : RunsGrids d) where
  launch-Ran :
      {S : Type 0} (step : Thread → S → Option S) (g : Grid) (s : S) (l : RuntimeLog)
      → Ran step g s l (launch step g s d l)
  unfolding launch
  launch-Ran step g s l =
      let a = d.reply l (launch_kernel g) in
      elim (Bool-cases (is_ok a)) [
        | inl k ↦ rw (◌>>=◌, k) (inr (d.schedule _ g, runs _ g, refl, ground (arith, k)))
        | inr k ↦ rw (◌>>=◌, k) (inl (a.code, refl, ground (arith, k)))
      ]

  pub launch_checksum_u8_kernel_lem :
      (b : Buffer) (count : ℕ) (l : RuntimeLog)
      → 0 < count
      → count ≤ b.size
      → count ≤ u32_mod - 256
      → LeavesNumber
          (weighted_sum b.at count % u64_mod)
          l
          (launch_checksum_u8_kernel (some b) count (some 0) d l)
  unfolding launch_checksum_u8_kernel
  launch_checksum_u8_kernel_lem b count l pos room most =
      let e : (count == 0) ≡ false = ground (arith, pos) in
      rw (e)
        (elim (launch-Ran (checksum_u8_kernel (linear_grid count) b count) (linear_grid count) 0
          l) [
            | inl refusal ↦ inl refusal
            | inr (ts, s, r, f) ↦ inr (
              r ∙ ap ended (run-weighted_sum b count room (omega (arith, most)) ts pos most s),
              f,
            )
          ])

  pub launch_rgba_to_luma_downscale2_kernel_lem :
      (input b : Buffer) (width height stride : ℕ) (l : RuntimeLog)
      → 2 ≤ width
      → width ≤ i32_max
      → 2 ≤ height
      → height ≤ i32_max
      → 0 < stride
      → HasPixels width height stride input
      → IsBytes input
      → width / 2 * (height / 2) ≤ b.size
      → LeavesPlane
          (width / 2)
          (height / 2)
          (downscaled input stride)
          b
          l
          (launch_rgba_to_luma_downscale2_kernel (some input) (some b) width height stride d l)
  unfolding launch_rgba_to_luma_downscale2_kernel
  launch_rgba_to_luma_downscale2_kernel_lem input b width height stride l two wide two' high
        step_pos has bytes room =
      let g = plane_grid (width / 2) (height / 2) in
      let step = rgba_to_luma_downscale2_kernel g input width height stride in
      let e : (not (positive width) || not (positive height) || stride == 0) ≡ false =
        ground (arith, two, two', wide, high, step_pos) in
      let f : (not (positive (width / 2)) || not (positive (height / 2))) ≡ false =
        ground (arith, two, two', wide, high) in
      rw (e, f)
        (elim (launch-Ran step g b l) [
          | inl refusal ↦ inl refusal
          | inr (ts, s, r, same) ↦
              let (o, done, size, at, rest) =
                run-downscaled width height stride input has bytes wide high b ts room s in
              inr (o, r ∙ ap ended done, size, at, same)
        ])
