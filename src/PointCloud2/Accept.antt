-- ===== src/PointCloud2/Accept.antt =====
-- What `from_message` of pointcloud2_read_handle.cpp accepts, and the way through the wire message.
use ros2_cuda_ipc.Base.{
  ap, ℕ, suc, ◌+◌, ◌-◌, ◌*◌, ◌≤◌, ◌<◌, ◌≡◌, refl, ◌∙◌, true, some, List, [], ◌∷◌, map, All, arith,
  u32_max, u64_mod,
}
use ros2_cuda_ipc.Transport.{BufferDescriptor}
use ros2_cuda_ipc.Subscriber.ReadHandle.{ReadHandle, byte_size}
use ros2_cuda_ipc.Subscriber.ReadHandle
use ros2_cuda_ipc.PointCloud2.{
  Field, PointCloud2ReadHandle, to_field, from_field, element_size, field_fits, fields_fit,
  needed_bytes, valid, accepts, from_message, fill_gpu_pointcloud2_message,
}
use native.Mathlib.Nat.{mul-le-mul, mul-le-mul_left, mul-le-mul_right, mod-eq_of_lt}

-- What the integer types of the message say.
pub record IsTyped (height width point_step row_step : ℕ) (fields : List Field) : Type 0 where
  pub height_max : height ≤ u32_max
  pub width_max : width ≤ u32_max
  pub point_step_max : point_step ≤ u32_max
  pub row_step_max : row_step ≤ u32_max
  pub count_max : All (λ f. f.count ≤ u32_max) fields

-- A field lies within its point.
abbrev pub InPoint : ℕ → Field → Type 0
InPoint point_step f =
    (0 < element_size f.datatype) × (f.offset + element_size f.datatype * f.count ≤ point_step)

element_size-max : (n : ℕ) → element_size n ≤ 8
unfolding element_size
element_size-max n = ground arith

field_fits-InPoint :
    (point_step : ℕ) (f : Field)
    → f.count ≤ u32_max
    → field_fits point_step f ≡ true
    → InPoint point_step f
unfolding field_fits
field_fits-InPoint p f c h =
    let small : element_size f.datatype * f.count < u64_mod = omega (
      arith,
      mul-le-mul {n₁ = element_size f.datatype} {m₁ = f.count} {n₂ = 8} {m₂ = u32_max}
          (element_size-max f.datatype) c,
    ) in
    let exact = mod-eq_of_lt small in ground (arith, h, exact)

fields_fit-InPoint :
    (point_step : ℕ) (l : List Field)
    → All (λ f. f.count ≤ u32_max) l
    → fields_fit point_step l ≡ true
    → All (InPoint point_step) l
unfolding fields_fit
fields_fit-InPoint p [] c h = tt
fields_fit-InPoint p (f ∷ l) (c, cs) h =
    (field_fits-InPoint p f c (ground (arith, h)), fields_fit-InPoint p l cs (ground (arith, h)))

-- Every value of the field, of every point of the cloud, lies within the bytes.
abbrev pub InCloud : ℕ → ℕ → ℕ → ℕ → ℕ → Field → Type 0
InCloud height width point_step row_step available f =
    (i j n : ℕ)
    → i < height
    → j < width
    → n < f.count
    → i * row_step + j * point_step + f.offset + element_size f.datatype * suc n ≤ available

InPoint-InCloud :
    (height width point_step row_step available : ℕ) (f : Field)
    → (height - 1) * row_step + width * point_step ≤ available
    → InPoint point_step f
    → InCloud height width point_step row_step available f
InPoint-InCloud height width p r available f room (s, k) i j n x y z =
    let row : i ≤ height - 1 = omega (arith, x) in
    let column : suc j ≤ width = omega (arith, y) in
    let value : suc n ≤ f.count = omega (arith, z) in
    omega (
      arith,
      room,
      k,
      mul-le-mul_right r row,
      mul-le-mul_right p column,
      mul-le-mul_left (element_size f.datatype) value,
    )

All-map : {P Q : Field → Type 0} (l : List Field) → ((f : Field) → P f → Q f) → All P l → All Q l
All-map [] h a = tt
All-map (f ∷ l) h (a, rest) = (h f a, All-map l h rest)

-- 128 bits hold the sum, so that the code's arithmetic is exact.
needed_bytes-exact :
    (height width point_step row_step : ℕ)
    → height ≤ u32_max
    → width ≤ u32_max
    → point_step ≤ u32_max
    → row_step ≤ u32_max
    → needed_bytes height width point_step row_step ≡ (height - 1) * row_step + width * point_step
unfolding needed_bytes
needed_bytes-exact h w p r a b c d =
    mod-eq_of_lt (
      omega (
        arith,
        mul-le-mul {n₁ = r} {m₁ = h - 1} {n₂ = u32_max} {m₂ = u32_max} d (omega (arith, a)),
        mul-le-mul {n₁ = p} {m₁ = w} {n₂ = u32_max} {m₂ = u32_max} c b,
      ))
    ∙ grind arith

map-to_field-from_field : (l : List Field) → map to_field (map from_field l) ≡ l
map-to_field-from_field [] = refl
map-to_field-from_field (f ∷ l) = ap (λ k. f ∷ k) (map-to_field-from_field l)

module _ {Header : Type 0} where
  -- A point cloud that is accepted has a valid read, and every value of every field of every point
  -- lies within its own point and within the bytes of the publication. The arithmetic of the tests
  -- loses nothing.
  pub accepts-InCloud :
      (h : PointCloud2ReadHandle Header)
      → IsTyped h.height h.width h.point_step h.row_step h.fields
      → accepts h ≡ true
      → (ReadHandle.valid h.read ≡ true)
        × All (InPoint h.point_step) h.fields
        × All (InCloud h.height h.width h.point_step h.row_step (byte_size h.read)) h.fields
  unfolding accepts valid
  accepts-InCloud h t a =
      let exact =
        needed_bytes-exact h.height h.width h.point_step h.row_step t.height_max t.width_max
          t.point_step_max t.row_step_max in
      let room : needed_bytes h.height h.width h.point_step h.row_step ≤ byte_size h.read =
        ground (arith, a) in
      let points = fields_fit-InPoint h.point_step h.fields t.count_max (ground (arith, a)) in
      (
        ground (arith, a),
        points,
        All-map h.fields
            (λ f.
              InPoint-InCloud h.height h.width h.point_step h.row_step (byte_size h.read) f
                (omega (arith, exact, room)))
            points,
      )

  -- A point cloud that passes the tests comes back from the wire message that the publisher fills
  -- with its metadata, unchanged.
  pub from_message-fill_pointcloud2 :
      (descriptor : BufferDescriptor) (h : PointCloud2ReadHandle Header)
      → accepts h ≡ true
      → from_message (fill_gpu_pointcloud2_message descriptor h) h.read ≡ some h
  unfolding from_message fill_gpu_pointcloud2_message
  from_message-fill_pointcloud2 descriptor h a = rw (map-to_field-from_field h.fields, a) refl
