-- ===== src/Image/Layout.antt =====
-- The bytes that a strided image touches, in unbounded arithmetic.
use ros2_cuda_ipc.Base.{ℕ, ◌+◌, ◌-◌, ◌*◌, ◌≤◌, ◌<◌, ◌≡◌, true, arith, u32_max, u64_max}
use ros2_cuda_ipc.Image.{Triple, needed_bytes, fits}
use native.Mathlib.Nat.{mul-le-mul, mul-le-mul_right, mod-eq_of_lt}

-- A shape and strides that the message's integer types can hold, with no empty dimension.
pub record IsArray (shape strides : Triple) : Type 0 where
  pub first_pos : 0 < shape.first
  pub second_pos : 0 < shape.second
  pub third_pos : 0 < shape.third
  pub first_max : shape.first ≤ u32_max
  pub second_max : shape.second ≤ u32_max
  pub third_max : shape.third ≤ u32_max
  pub first_stride_max : strides.first ≤ u64_max
  pub second_stride_max : strides.second ≤ u64_max
  pub third_stride_max : strides.third ≤ u64_max

-- The byte offset of an element.
abbrev pub offset : Triple → ℕ → ℕ → ℕ → ℕ
offset strides i j k = i * strides.first + j * strides.second + k * strides.third

-- Every element of the array ends within `available` bytes.
abbrev pub Within : Triple → Triple → ℕ → ℕ → Type 0
Within shape strides size available =
    (i j k : ℕ)
    → i < shape.first
    → j < shape.second
    → k < shape.third
    → offset strides i j k + size ≤ available

offset_mono :
    (strides : Triple) (i j k i' j' k' : ℕ)
    → i ≤ i'
    → j ≤ j'
    → k ≤ k'
    → offset strides i j k ≤ offset strides i' j' k'
offset_mono strides i j k i' j' k' a b c = omega (
  arith,
  mul-le-mul_right strides.first a,
  mul-le-mul_right strides.second b,
  mul-le-mul_right strides.third c,
)

-- 128 bits hold the sum, so that the code's arithmetic is exact.
pub needed_bytes-exact :
    (shape strides : Triple) (size : ℕ)
    → IsArray shape strides
    → size ≤ 8
    → needed_bytes shape strides size
      ≡ offset strides (shape.first - 1) (shape.second - 1) (shape.third - 1) + size
unfolding needed_bytes
needed_bytes-exact shape strides size a s = mod-eq_of_lt (
    omega (
      arith,
      mul-le-mul {n₁ = shape.first - 1} {m₁ = strides.first} {n₂ = u32_max} {m₂ = u64_max}
          (omega (arith, a.first_max)) a.first_stride_max,
      mul-le-mul {n₁ = shape.second - 1} {m₁ = strides.second} {n₂ = u32_max} {m₂ = u64_max}
          (omega (arith, a.second_max)) a.second_stride_max,
      mul-le-mul {n₁ = shape.third - 1} {m₁ = strides.third} {n₂ = u32_max} {m₂ = u64_max}
          (omega (arith, a.third_max)) a.third_stride_max,
      s,
    ))

-- The test of the code accepts exactly the arrays whose every element lies within the bytes.
pub fits→Within :
    (shape strides : Triple) (size available : ℕ)
    → IsArray shape strides
    → size ≤ 8
    → fits shape strides size available ≡ true
    → Within shape strides size available
unfolding fits
fits→Within shape strides size available a s f i j k x y z =
    let exact = needed_bytes-exact shape strides size a s in
    let below : needed_bytes shape strides size ≤ available = ground (arith, f) in
    omega (
      arith,
      exact,
      below,
      offset_mono strides i j k (shape.first - 1) (shape.second - 1) (shape.third - 1)
          (omega (arith, x)) (omega (arith, y)) (omega (arith, z)),
    )

pub Within→fits :
    (shape strides : Triple) (size available : ℕ)
    → IsArray shape strides
    → size ≤ 8
    → available ≤ u64_max
    → Within shape strides size available
    → fits shape strides size available ≡ true
unfolding fits
Within→fits shape strides size available a s most w =
    let exact = needed_bytes-exact shape strides size a s in
    let last =
      w (shape.first - 1) (shape.second - 1) (shape.third - 1) (omega (arith, a.first_pos))
        (omega (arith, a.second_pos)) (omega (arith, a.third_pos)) in
    let below : needed_bytes shape strides size ≤ available = omega (arith, exact, last) in
    ground (arith, below, most)
