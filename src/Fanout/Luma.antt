-- ===== src/Fanout/Luma.antt =====
-- The luma plane that a launch of rgba_to_luma_downscale2_kernel leaves, against a plain description.
use ros2_cuda_ipc.Base.{
  ℕ, ◌+◌, ◌*◌, ◌/◌, ◌%◌, ◌≤◌, ◌<◌, ◌≡◌, ap, true, false, some, ltb, List, arith, u64_max, u64_mod,
}
use ros2_cuda_ipc.Fanout.{
  Buffer, Grid, Thread, global_x, global_y, in_grid, run, IsSchedule, written,
}
use ros2_cuda_ipc.Fanout.Kernels.{
  int_lt, i32_max, pixel_at, rgba_to_luma_u8, rgba_to_luma_downscale2_kernel, plane_grid,
}
use ros2_cuda_ipc.Fanout.Memory.{load-inside, store-inside}
use ros2_cuda_ipc.Fanout.Plane.{on_plane, on_plane-lt, HoldsPlane, run-HoldsPlane}
use native.Mathlib.Nat.{mul-le-mul, mod-eq_of_lt}

pub int_lt-true : (a b : ℕ) → b ≤ i32_max → a < b → int_lt a b ≡ true
unfolding int_lt
int_lt-true a b p q = ground (arith, p, q)

abbrev pub IsBytes : Buffer → Type 0
IsBytes b = (a : ℕ) → b.at a < 256

-- Every pixel of an image of four channels lies in the allocation.
pub record HasPixels (width height stride : ℕ) (b : Buffer) : Type 0 where
  pub size_max : b.size ≤ u64_max
  pub inside : (x y : ℕ) → x < width → y < height → y * stride + x * 4 + 4 ≤ b.size

-- The luma of the pixel, and the mean luma of two by two pixels.
unfoldable pub luma : Buffer → ℕ → ℕ → ℕ → ℕ
luma b stride x y =
    let p = y * stride + x * 4 in (77 * b.at p + 150 * b.at (p + 1) + 29 * b.at (p + 2)) / 256

unfoldable pub downscaled : Buffer → ℕ → ℕ → ℕ → ℕ
downscaled b stride x y =
    (luma b stride (x * 2) (y * 2)
      + luma b stride (x * 2 + 1) (y * 2)
      + luma b stride (x * 2) (y * 2 + 1)
      + luma b stride (x * 2 + 1) (y * 2 + 1))
    / 4

pub int_lt-ltb : (a b : ℕ) → a ≤ i32_max → b ≤ i32_max → int_lt a b ≡ ltb a b
unfolding int_lt
int_lt-ltb a b p q = ground (arith, p, q)

module _ (width height stride : ℕ) (b : Buffer) (has : HasPixels width height stride b)
    (bytes : IsBytes b) where
  pub rgba_to_luma_u8-luma :
      (x y : ℕ)
      → x < width
      → y < height
      → rgba_to_luma_u8 b (pixel_at stride x y) ≡ some (luma b stride x y)
  unfolding rgba_to_luma_u8 luma
  rgba_to_luma_u8-luma x y p q =
      let inside = has.inside x y p q in
      let exact : pixel_at stride x y ≡ y * stride + x * 4 = omega (arith, has.size_max, inside) in
      rw
        (
          exact,
          load-inside b (y * stride + x * 4) (omega (arith, inside)),
          load-inside b (y * stride + x * 4 + 1) (omega (arith, inside)),
          load-inside b (y * stride + x * 4 + 2) (omega (arith, inside)),
        )
        (ap some (
          omega (
            arith,
            bytes (y * stride + x * 4),
            bytes (y * stride + x * 4 + 1),
            bytes (y * stride + x * 4 + 2),
          )))

  pub luma-lt : (x y : ℕ) → luma b stride x y < 256
  unfolding luma
  luma-lt x y = let p = y * stride + x * 4 in omega (arith, bytes p, bytes (p + 1), bytes (p + 2))

  pub downscaled-lt : (x y : ℕ) → downscaled b stride x y < 256
  unfolding downscaled
  downscaled-lt x y = omega (
    arith,
    luma-lt (x * 2) (y * 2),
    luma-lt (x * 2 + 1) (y * 2),
    luma-lt (x * 2) (y * 2 + 1),
    luma-lt (x * 2 + 1) (y * 2 + 1),
  )

-- What one thread of the grid does.
module _ (width height stride : ℕ) (input : Buffer) (has : HasPixels width height stride input)
    (bytes : IsBytes input) (wide : width ≤ i32_max) (high : height ≤ i32_max) where
  abbrev grid : Grid
  grid = plane_grid (width / 2) (height / 2)

  module _ (t : Thread) (e : in_grid grid t ≡ true) where
    kernel_outside :
        (output : Buffer)
        → on_plane (width / 2) (height / 2) grid t ≡ false
        → rgba_to_luma_downscale2_kernel grid input width height stride t output ≡ some output
    unfolding rgba_to_luma_downscale2_kernel
    kernel_outside output o =
        rw
          (
            int_lt-ltb (global_x grid t) (width / 2) (ground (arith, e, wide))
                (omega (arith, wide)),
            int_lt-ltb (global_y grid t) (height / 2) (ground (arith, e, high))
                (omega (arith, high)),
          )
          (ground (arith, o))

    kernel_inside :
        (output : Buffer)
        → on_plane (width / 2) (height / 2) grid t ≡ true
        → width / 2 * (height / 2) ≤ output.size
        → rgba_to_luma_downscale2_kernel grid input width height stride t output
          ≡ some (
              written output
                (global_y grid t * (width / 2) + global_x grid t)
                (downscaled input stride (global_x grid t) (global_y grid t)))
    unfolding rgba_to_luma_downscale2_kernel downscaled
    kernel_inside output i room =
        let x = global_x grid t in
        let y = global_y grid t in
        let in_x : x < width / 2 = ground (arith, i) in
        let in_y : y < height / 2 = ground (arith, i) in
        let pixel = rgba_to_luma_u8-luma width height stride input has bytes in
        let address = on_plane-lt (width / 2) (height / 2) grid t i in
        let area : width / 2 * (height / 2) ≤ i32_max * i32_max =
          mul-le-mul {n₁ = width / 2} {m₁ = height / 2} {n₂ = i32_max} {m₂ = i32_max}
            (omega (arith, wide)) (omega (arith, high)) in
        let exact : (y * (width / 2) + x) % u64_mod ≡ y * (width / 2) + x =
          omega (arith, address, area) in
        rw
          (
            int_lt-true x (width / 2) (omega (arith, wide)) in_x,
            int_lt-true y (height / 2) (omega (arith, high)) in_y,
            int_lt-true (x * 2 + 1) width wide (omega (arith, in_x)),
            int_lt-true (y * 2 + 1) height high (omega (arith, in_y)),
            pixel (x * 2) (y * 2) (omega (arith, in_x)) (omega (arith, in_y)),
            pixel (x * 2 + 1) (y * 2) (omega (arith, in_x)) (omega (arith, in_y)),
            pixel (x * 2) (y * 2 + 1) (omega (arith, in_x)) (omega (arith, in_y)),
            pixel (x * 2 + 1) (y * 2 + 1) (omega (arith, in_x)) (omega (arith, in_y)),
            exact,
            store-inside output (y * (width / 2) + x) (omega (arith, address, room)),
          )
          (ap (λ v. some (written output (y * (width / 2) + x) v))
            (mod-eq_of_lt (downscaled-lt width height stride input has bytes x y)))

  -- Any order of the threads leaves the plane of the mean lumas and faults at no access.
  pub run-downscaled :
      (output : Buffer) (ts : List Thread)
      → width / 2 * (height / 2) ≤ output.size
      → IsSchedule grid ts
      → HoldsPlane
          (width / 2)
          (height / 2)
          (downscaled input stride)
          output
          (run (rgba_to_luma_downscale2_kernel grid input width height stride) ts output)
  run-downscaled output ts room s =
      run-HoldsPlane (rgba_to_luma_downscale2_kernel grid input width height stride) (width / 2)
        (height / 2) (downscaled input stride) (omega (arith, wide)) (omega (arith, high))
        (λ t b e i r. kernel_inside t e b i r) (λ t b e o. kernel_outside t e b o) output ts room s
