-- ===== src/Fanout/Plane.antt =====
-- Kernels that write one element of a plane per thread: what any order of the threads leaves.
use ros2_cuda_ipc.Base.{
  ℕ, ◌+◌, ◌*◌, ◌/◌, ◌%◌, ◌≤◌, ◌<◌, ◌≡◌, refl, sym, ◌∙◌, inl, inr, Bool, true, false, ◌&&◌, Option,
  some, ltb, ◌==◌, List, Bool-cases, ==_iff, if◌then◌else◌, ==_self, arith,
}
use ros2_cuda_ipc.Fanout.{
  Array, Grid, Thread, global_x, global_y, in_grid, run, IsSchedule, written,
}
use ros2_cuda_ipc.Fanout.Kernels.{i32_max, plane_grid}
use ros2_cuda_ipc.Fanout.Schedule.{IsSchedule-All, IsSchedule-any, any-false, Changed, run-Changed}
use native.Mathlib.Nat.{mul-add-mod_self_right, mul-add-div_right, mod-eq_of_lt, div-eq_of_lt}

-- Does the thread stand for an element of the plane?
abbrev pub on_plane : ℕ → ℕ → Grid → Thread → Bool
on_plane width height g t = ltb (global_x g t) width && ltb (global_y g t) height

-- The launch ends without a fault, each element of the plane has its value, and nothing else changed.
abbrev pub HoldsPlane : {V : Type 0} → ℕ → ℕ → (ℕ → ℕ → V) → Array V → Option (Array V) → Type 0
HoldsPlane {V} width height value before after =
    (o : Array V) × (after ≡ some o)
    × (o.size ≡ before.size)
    × ((x y : ℕ) → x < width → y < height → o.at (y * width + x) ≡ value x y)
    × ((a : ℕ) → width * height ≤ a → o.at a ≡ before.at a)

pub on_plane-lt :
    (width height : ℕ) (g : Grid) (t : Thread)
    → on_plane width height g t ≡ true
    → global_y g t * width + global_x g t < width * height
on_plane-lt width height g t i =
    let x = global_x g t in
    let y = global_y g t in
    let in_x : x < width = ground (arith, i) in
    let in_y : y < height = ground (arith, i) in grind arith

-- The element of an address.
column : (width x y : ℕ) → x < width → (y * width + x) % width ≡ x
column width x y h = mul-add-mod_self_right y width x ∙ mod-eq_of_lt h

row : (width x y : ℕ) → x < width → (y * width + x) / width ≡ y
row width x y h = mul-add-div_right (omega (arith, h)) y x ∙ omega (arith, div-eq_of_lt h)

-- The thread of an element, which is in the grid.
abbrev pub pixel_thread : ℕ → ℕ → Thread
pixel_thread x y = record {
  block_x = x / 16;
  block_y = y / 16;
  thread_x = x % 16;
  thread_y = y % 16;
}

pub pixel_thread_lem :
    (width height : ℕ)
    → width ≤ i32_max
    → height ≤ i32_max
    → (x y : ℕ) → x < width
    → y < height
    → (in_grid (plane_grid width height) (pixel_thread x y) ≡ true)
      × (global_x (plane_grid width height) (pixel_thread x y) ≡ x)
      × (global_y (plane_grid width height) (pixel_thread x y) ≡ y)
pixel_thread_lem width height wide high x y p q =
    (ground (arith, p, q, wide, high), omega (arith, p, wide), omega (arith, q, high))

module _ {V : Type 0} (step : Thread → Array V → Option (Array V)) (width height : ℕ)
    (value : ℕ → ℕ → V) (wide : width ≤ i32_max) (high : height ≤ i32_max) where
  abbrev grid : Grid
  grid = plane_grid width height

  abbrev writes : Thread → ℕ → Bool
  writes t a = on_plane width height grid t && a == global_y grid t * width + global_x grid t

  abbrev want : ℕ → V
  want a = value (a % width) (a / width)

  want_at : (x y : ℕ) → x < width → want (y * width + x) ≡ value x y
  want_at x y h = rw (column width x y h, row width x y h) refl

  element :
      (t : Thread) (b : Array V)
      → on_plane width height grid t ≡ true
      → (a : ℕ)
      → (written b
            (global_y grid t * width + global_x grid t)
            (value (global_x grid t) (global_y grid t))).at
          a
        ≡ (if writes t a then want a else b.at a)
  element t b i a =
      let at = global_y grid t * width + global_x grid t in
      elim (Bool-cases (a == at)) [
        | inl q ↦
            rw ((==_iff a at).0 q, i)
              (rw (==_self at)
                (sym (want_at (global_x grid t) (global_y grid t) (ground (arith, i)))))
        | inr q ↦ rw (i, q) refl
      ]

  pixel_thread-writes :
      (x y : ℕ) → x < width → y < height → writes (pixel_thread x y) (y * width + x) ≡ true
  pixel_thread-writes x y p q =
      let (in_it, same_x, same_y) = pixel_thread_lem width height wide high x y p q in
      rw (same_x, same_y, ==_self (y * width + x)) (ground (arith, p, q))

  nobody : (a : ℕ) → width * height ≤ a → (t : Thread) → writes t a ≡ false
  nobody a far t = elim (Bool-cases (on_plane width height grid t)) [
    | inl i ↦
        let near = on_plane-lt width height grid t i in
        let apart : (a == (global_y grid t * width + global_x grid t)) ≡ false =
          ground (arith, near, far) in
        rw (i) apart
    | inr o ↦ rw (o) refl
  ]

  module _
      (inside : (t : Thread) (b : Array V)
        → in_grid grid t ≡ true
        → on_plane width height grid t ≡ true
        → width * height ≤ b.size
        → step t b
          ≡ some (
              written b
                (global_y grid t * width + global_x grid t)
                (value (global_x grid t) (global_y grid t))))
      (outside : (t : Thread) (b : Array V)
        → in_grid grid t ≡ true
        → on_plane width height grid t ≡ false
        → step t b ≡ some b) where
    step-Changed :
        (t : Thread) (b : Array V)
        → in_grid grid t ≡ true
        → width * height ≤ b.size
        → Changed step writes want (writes t) b (step t b)
    step-Changed t b e room = elim (Bool-cases (on_plane width height grid t)) [
      | inl i ↦ (
        written b (global_y grid t * width + global_x grid t)
            (value (global_x grid t) (global_y grid t)),
        inside t b e i room,
        refl,
        λ a. element t b i a,
      )
      | inr o ↦ (b, outside t b e o, refl, λ a. ground (arith, o))
    ]

    pub run-HoldsPlane :
        (b : Array V) (ts : List Thread)
        → width * height ≤ b.size
        → IsSchedule grid ts
        → HoldsPlane width height value b (run step ts b)
    run-HoldsPlane b ts room s =
        let (o, done, size, units) =
          run-Changed step writes want (λ t. in_grid grid t ≡ true) b.size
            (λ t c e q. step-Changed t c e (omega (arith, room, q))) ts b (IsSchedule-All grid ts s)
            refl in
        (
          o,
          done,
          size,
          λ x y p q.
              units (y * width + x)
              ∙ rw
                  (IsSchedule-any grid ts (λ t. writes t (y * width + x)) (pixel_thread x y) s
                    (pixel_thread_lem width height wide high x y p q).0
                    (pixel_thread-writes x y p q))
                  (want_at x y p),
          λ a far. units a ∙ rw (any-false (λ t. writes t a) ts (nobody a far)) refl,
        )
