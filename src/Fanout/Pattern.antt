-- ===== src/Fanout/Pattern.antt =====
-- The image that a launch of generate_rgba_pattern_kernel leaves.
use ros2_cuda_ipc.Base.{
  ℕ, ◌+◌, ◌-◌, ◌*◌, ◌/◌, ◌%◌, ◌≤◌, ◌<◌, ◌≡◌, refl, sym, subst, ◌∙◌, ap, ◌⊎◌, inl, inr, Bool, true,
  false, ◌&&◌, Option, some, ltb, leb, ◌==◌, if◌then◌else◌, List, Bool-cases, arith,
}
use ros2_cuda_ipc.Fanout.{
  Buffer, Grid, Thread, global_x, global_y, in_grid, run, IsSchedule, written,
}
use ros2_cuda_ipc.Fanout.Kernels.{
  i32_max, pixel_at, plane_grid, red_of, green_of, blue_of, generate_rgba_pattern_kernel,
}
use ros2_cuda_ipc.Fanout.Luma.{int_lt-ltb, int_lt-true, HasPixels}
use ros2_cuda_ipc.Fanout.Memory.{store-inside}
use ros2_cuda_ipc.Fanout.Plane.{on_plane, pixel_thread, pixel_thread_lem}
use ros2_cuda_ipc.Fanout.Schedule.{IsSchedule-All, IsSchedule-any, any-false, Changed, run-Changed}
use native.Mathlib.Nat.{mul-add-mod_self_right, mul-add-div_right, mod-eq_of_lt, div-eq_of_lt}

-- The byte of a channel of a pixel.
unfoldable pub pattern : ℕ → ℕ → ℕ → ℕ → ℕ
pattern frame_index x y c =
    if c == 0
    then red_of x frame_index
    else if c == 1
    then green_of y frame_index
    else if c == 2
    then blue_of x y frame_index
    else 255

module _ (width height stride frame_index : ℕ) (wide : width ≤ i32_max) (high : height ≤ i32_max)
    (rows_apart : width * 4 ≤ stride) where
  abbrev grid : Grid
  grid = plane_grid width height

  abbrev pixel : Thread → ℕ
  pixel t = global_y grid t * stride + global_x grid t * 4

  abbrev writes : Thread → ℕ → Bool
  writes t a = on_plane width height grid t && leb (pixel t) a && ltb a (pixel t + 4)

  abbrev want : ℕ → ℕ
  want a = pattern frame_index (a % stride / 4) (a / stride) (a % stride % 4)

  step : Thread → Buffer → Option Buffer
  step t b = generate_rgba_pattern_kernel grid width height stride frame_index t b

  -- The four stores of a thread.
  abbrev painted : Thread → Buffer → Buffer
  painted t b =
      let p = pixel t in
      let x = global_x grid t in
      let y = global_y grid t in
      written
        (written (written (written b p (red_of x frame_index)) (p + 1) (green_of y frame_index))
          (p + 2) (blue_of x y frame_index))
        (p + 3) 255

  module _ (t : Thread) (e : in_grid grid t ≡ true) where
    kernel_outside : (b : Buffer) → on_plane width height grid t ≡ false → step t b ≡ some b
    unfolding step generate_rgba_pattern_kernel
    kernel_outside b o =
        rw
          (
            int_lt-ltb (global_x grid t) width (ground (arith, e, wide)) wide,
            int_lt-ltb (global_y grid t) height (ground (arith, e, high)) high,
          )
          (ground (arith, o))

    kernel_inside :
        (b : Buffer)
        → on_plane width height grid t ≡ true
        → HasPixels width height stride b
        → step t b ≡ some (painted t b)
    unfolding step generate_rgba_pattern_kernel
    kernel_inside b i has =
        let x = global_x grid t in
        let y = global_y grid t in
        let in_x : x < width = ground (arith, i) in
        let in_y : y < height = ground (arith, i) in
        let room = has.inside x y in_x in_y in
        let exact : pixel_at stride x y ≡ pixel t = omega (arith, has.size_max, room) in
        let b₁ = written b (pixel t) (red_of x frame_index) in
        let b₂ = written b₁ (pixel t + 1) (green_of y frame_index) in
        let b₃ = written b₂ (pixel t + 2) (blue_of x y frame_index) in
        rw
          (
            int_lt-true x width wide in_x,
            int_lt-true y height high in_y,
            exact,
            store-inside b (pixel t) (omega (arith, room)) (red_of x frame_index),
            store-inside b₁ (pixel t + 1) (omega (arith, room)) (green_of y frame_index),
            store-inside b₂ (pixel t + 2) (omega (arith, room)) (blue_of x y frame_index),
            store-inside b₃ (pixel t + 3) (omega (arith, room)) 255,
          )
          refl

  -- The row and the offset in it of a byte of a pixel.
  place :
      (x y c : ℕ)
      → x < width
      → c < 4
      → ((y * stride + x * 4 + c) % stride ≡ x * 4 + c) × ((y * stride + x * 4 + c) / stride ≡ y)
  place x y c p q =
      let short : x * 4 + c < stride = omega (arith, p, q, rows_apart) in
      let assoc : y * stride + x * 4 + c ≡ y * stride + (x * 4 + c) = omega arith in
      (
        ap (λ n. n % stride) assoc
            ∙ mul-add-mod_self_right y stride (x * 4 + c)
            ∙ mod-eq_of_lt short,
        ap (λ n. n / stride) assoc
            ∙ mul-add-div_right (omega (arith, short)) y (x * 4 + c)
            ∙ omega (arith, div-eq_of_lt short),
      )

  want_at :
      (x y c : ℕ) → x < width → c < 4 → want (y * stride + x * 4 + c) ≡ pattern frame_index x y c
  want_at x y c p q =
      let (left, down) = place x y c p q in
      let column : (x * 4 + c) / 4 ≡ x = omega (arith, q) in
      let channel : (x * 4 + c) % 4 ≡ c = omega (arith, q) in rw (left, down, column, channel) refl

  painted_at :
      (t : Thread) (b : Buffer) (c : ℕ)
      → on_plane width height grid t ≡ true
      → c < 4
      → (painted t b).at (pixel t + c) ≡ want (pixel t + c)
  unfolding pattern
  painted_at t b c i q =
      let hit = want_at (global_x grid t) (global_y grid t) c (ground (arith, i)) q in
      rw (hit) (ground (arith, q))

  painted_elsewhere :
      (t : Thread) (b : Buffer) (a : ℕ)
      → (leb (pixel t) a && ltb a (pixel t + 4)) ≡ false
      → (painted t b).at a ≡ b.at a
  painted_elsewhere t b a h = ground (arith, h)

  element :
      (t : Thread) (b : Buffer)
      → on_plane width height grid t ≡ true
      → (a : ℕ) → (painted t b).at a ≡ (if writes t a then want a else b.at a)
  element t b i a = elim (Bool-cases (leb (pixel t) a && ltb a (pixel t + 4))) [
    | inl h ↦
        let sum : pixel t + (a - pixel t) ≡ a = ground (arith, h) in
        let at = painted_at t b (a - pixel t) i (ground (arith, h)) in
        rw (i, h) (subst (λ n. (painted t b).at n ≡ want n) sum at)
    | inr h ↦ rw (i, h) (painted_elsewhere t b a h)
  ]

  step-Changed :
      (t : Thread) (b : Buffer)
      → in_grid grid t ≡ true
      → HasPixels width height stride b
      → Changed step writes want (writes t) b (step t b)
  step-Changed t b e has = elim (Bool-cases (on_plane width height grid t)) [
    | inl i ↦ (painted t b, kernel_inside t e b i has, refl, λ a. element t b i a)
    | inr o ↦ (b, kernel_outside t e b o, refl, λ a. ground (arith, o))
  ]

  -- The bytes between the rows and after them belong to no pixel.
  nobody :
      (a : ℕ) → (width * 4 ≤ a % stride) ⊎ (height ≤ a / stride) → (t : Thread) → writes t a ≡ false
  nobody a far t = elim (Bool-cases (writes t a)) [
    | inl h ↦
        let sum : pixel t + (a - pixel t) ≡ a = ground (arith, h) in
        let (left, down) =
          place (global_x grid t) (global_y grid t) (a - pixel t) (ground (arith, h))
            (ground (arith, h)) in
        let left' = ap (λ n. n % stride) (sym sum) ∙ left in
        let down' = ap (λ n. n / stride) (sym sum) ∙ down in
        absurd
          (elim far [ inl p ↦ ground (arith, h, left', p) | inr p ↦ ground (arith, h, down', p) ])
    | inr h ↦ h
  ]

  pixel_thread-writes :
      (x y c : ℕ)
      → x < width
      → y < height
      → c < 4
      → writes (pixel_thread x y) (y * stride + x * 4 + c) ≡ true
  pixel_thread-writes x y c p q r =
      let (in_it, same_x, same_y) = pixel_thread_lem width height wide high x y p q in
      rw (same_x, same_y) (ground (arith, p, q, r))

  -- Any order of the threads paints every channel of every pixel, faults at no access, and leaves the
  -- bytes that belong to no pixel.
  pub run-pattern :
      (b : Buffer) (ts : List Thread)
      → HasPixels width height stride b
      → IsSchedule grid ts
      → (o : Buffer) × (run (generate_rgba_pattern_kernel grid width height stride frame_index) ts b
          ≡ some o)
        × (o.size ≡ b.size)
        × ((x y c : ℕ)
            → x < width
            → y < height
            → c < 4
            → o.at (y * stride + x * 4 + c) ≡ pattern frame_index x y c)
        × ((a : ℕ) → (width * 4 ≤ a % stride) ⊎ (height ≤ a / stride) → o.at a ≡ b.at a)
  unfolding step
  run-pattern b ts has s =
      let act : (t : Thread) (c : Buffer)
          → in_grid grid t ≡ true
          → c.size ≡ b.size
          → Changed step writes want (writes t) c (step t c) =
        λ t c e q. step-Changed t c e (record {
          size_max = omega (arith, has.size_max, q);
          inside = λ x y m n. omega (arith, has.inside x y m n, q);
        }) in
      let (o, done, size, units) =
        run-Changed step writes want (λ t. in_grid grid t ≡ true) b.size act ts b
          (IsSchedule-All grid ts s) refl in
      (
        o,
        done,
        size,
        λ x y c p q r.
            units (y * stride + x * 4 + c)
            ∙ rw
                (IsSchedule-any grid ts (λ t. writes t (y * stride + x * 4 + c)) (pixel_thread x y)
                  s (pixel_thread_lem width height wide high x y p q).0
                  (pixel_thread-writes x y c p q r))
                (want_at x y c p r),
        λ a far. units a ∙ rw (any-false (λ t. writes t a) ts (nobody a far)) refl,
      )
