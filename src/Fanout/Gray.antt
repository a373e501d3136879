-- ===== src/Fanout/Gray.antt =====
-- The plane that a launch of rgba_to_normalized_gray_kernel leaves, for any conversion to `float`.
use ros2_cuda_ipc.Base.{
  ℕ, ◌+◌, ◌*◌, ◌%◌, ◌≤◌, ◌<◌, ◌≡◌, refl, true, false, some, List, arith, u64_mod,
}
use ros2_cuda_ipc.Fanout.{
  Array, Buffer, Grid, Thread, global_x, global_y, in_grid, run, IsSchedule, written,
}
use ros2_cuda_ipc.Fanout.Kernels.{i32_max, plane_grid, rgba_to_normalized_gray_kernel}
use ros2_cuda_ipc.Fanout.Luma.{
  IsBytes, HasPixels, luma, rgba_to_luma_u8-luma, int_lt-ltb, int_lt-true,
}
use ros2_cuda_ipc.Fanout.Memory.{store-inside}
use ros2_cuda_ipc.Fanout.Plane.{on_plane, on_plane-lt, HoldsPlane, run-HoldsPlane}
use native.Mathlib.Nat.{mul-le-mul}

module _ {Float : Type 0} (normalized : ℕ → Float) (width height stride : ℕ) (input : Buffer)
    (has : HasPixels width height stride input) (bytes : IsBytes input) (wide : width ≤ i32_max)
    (high : height ≤ i32_max) where
  abbrev grid : Grid
  grid = plane_grid width height

  abbrev value : ℕ → ℕ → Float
  value x y = normalized (luma input stride x y)

  module _ (t : Thread) (output : Array Float) (e : in_grid grid t ≡ true) where
    kernel_outside :
        on_plane width height grid t ≡ false
        → rgba_to_normalized_gray_kernel normalized grid input width height stride t output
          ≡ some output
    unfolding rgba_to_normalized_gray_kernel
    kernel_outside o =
        rw
          (
            int_lt-ltb (global_x grid t) width (ground (arith, e, wide)) wide,
            int_lt-ltb (global_y grid t) height (ground (arith, e, high)) high,
          )
          (ground (arith, o))

    kernel_inside :
        on_plane width height grid t ≡ true
        → width * height ≤ output.size
        → rgba_to_normalized_gray_kernel normalized grid input width height stride t output
          ≡ some (
              written output
                (global_y grid t * width + global_x grid t)
                (value (global_x grid t) (global_y grid t)))
    unfolding rgba_to_normalized_gray_kernel
    kernel_inside i room =
        let x = global_x grid t in
        let y = global_y grid t in
        let in_x : x < width = ground (arith, i) in
        let in_y : y < height = ground (arith, i) in
        let address = on_plane-lt width height grid t i in
        let area = mul-le-mul {n₁ = width} {m₁ = height} {n₂ = i32_max} {m₂ = i32_max} wide high in
        let exact : (y * width + x) % u64_mod ≡ y * width + x = omega (arith, address, area) in
        rw
          (
            int_lt-true x width wide in_x,
            int_lt-true y height high in_y,
            rgba_to_luma_u8-luma width height stride input has bytes x y in_x in_y,
            exact,
            store-inside output (y * width + x) (omega (arith, address, room)) (value x y),
          )
          refl

  -- Any order of the threads leaves the plane of the converted lumas and faults at no access.
  pub run-normalized :
      (output : Array Float) (ts : List Thread)
      → width * height ≤ output.size
      → IsSchedule grid ts
      → HoldsPlane width height value output
          (run (rgba_to_normalized_gray_kernel normalized grid input width height stride) ts output)
  run-normalized output ts room s =
      run-HoldsPlane (rgba_to_normalized_gray_kernel normalized grid input width height stride)
        width height value wide high (λ t b e i r. kernel_inside t b e i r)
        (λ t b e o. kernel_outside t b e o) output ts room s
