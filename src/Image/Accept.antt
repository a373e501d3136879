-- ===== src/Image/Accept.antt =====
-- Which messages `from_message` of image_read_handle.cpp accepts, and the way through the wire message.
use ros2_cuda_ipc.Base.{
  ap, ◌≤◌, ◌<◌, ◌≡◌, refl, ◌≢◌, ◌⊎◌, inl, inr, true, none, some, arith, u32_max, u64_max,
  if◌then◌else◌, Bool-cases,
}
use ros2_cuda_ipc.Transport.{BufferDescriptor}
use ros2_cuda_ipc.Subscriber.ReadHandle.{ReadHandle, byte_size}
use ros2_cuda_ipc.Subscriber.ReadHandle
use ros2_cuda_ipc.Image.{
  DType, to_dtype, from_dtype, Triple, GpuImage, ImageReadHandle, elem_size_bytes, fits, valid,
  sanity_check, from_message, fill_gpu_image_message,
}
use ros2_cuda_ipc.Image.Layout.{IsArray, Within, fits→Within, Within→fits}

-- What the integer types of the message say.
pub record IsTyped (shape strides : Triple) : Type 0 where
  pub first_max : shape.first ≤ u32_max
  pub second_max : shape.second ≤ u32_max
  pub third_max : shape.third ≤ u32_max
  pub first_stride_max : strides.first ≤ u64_max
  pub second_stride_max : strides.second ≤ u64_max
  pub third_stride_max : strides.third ≤ u64_max

pub array :
    (shape strides : Triple)
    → IsTyped shape strides
    → 0 < shape.first
    → 0 < shape.second
    → 0 < shape.third
    → IsArray shape strides
array shape strides t a b c = record {
  first_pos = a;
  second_pos = b;
  third_pos = c;
  first_max = t.first_max;
  second_max = t.second_max;
  third_max = t.third_max;
  first_stride_max = t.first_stride_max;
  second_stride_max = t.second_stride_max;
  third_stride_max = t.third_stride_max;
}

pub elem_size_bytes-max : (x : DType) → elem_size_bytes x ≤ 8
unfolding elem_size_bytes
elem_size_bytes-max x = ground arith

to_dtype-from_dtype : (x : DType) → elem_size_bytes x ≢ 0 → to_dtype (from_dtype x) ≡ x
unfolding to_dtype from_dtype elem_size_bytes
to_dtype-from_dtype x h = ground (arith, h)

-- The image that a reader should get: a valid read, a known element type, no empty dimension, and
-- every element within the bytes of the publication.
abbrev pub Readable : DType → Triple → Triple → ReadHandle → Type 0
Readable x shape strides read =
    (ReadHandle.valid read ≡ true)
    × (elem_size_bytes x ≢ 0)
    × (0 < shape.first)
    × (0 < shape.second)
    × (0 < shape.third)
    × Within shape strides (elem_size_bytes x) (byte_size read)

module _ {Header : Type 0} where
  pub sanity_check-Readable :
      (h : ImageReadHandle Header)
      → IsTyped h.shape h.strides
      → sanity_check h ≡ true
      → Readable h.dtype h.shape h.strides h.read
  unfolding sanity_check valid
  sanity_check-Readable h t c =
      let a : 0 < h.shape.first = ground (arith, c) in
      let b : 0 < h.shape.second = ground (arith, c) in
      let e : 0 < h.shape.third = ground (arith, c) in
      let f : fits h.shape h.strides (elem_size_bytes h.dtype) (byte_size h.read) ≡ true =
        ground (arith, c) in
      (
        ground (arith, c),
        ground (arith, c),
        a,
        b,
        e,
        fits→Within h.shape h.strides (elem_size_bytes h.dtype) (byte_size h.read)
            (array h.shape h.strides t a b e) (elem_size_bytes-max h.dtype) f,
      )

  Readable-sanity_check :
      (h : ImageReadHandle Header)
      → IsTyped h.shape h.strides
      → byte_size h.read ≤ u64_max
      → Readable h.dtype h.shape h.strides h.read
      → sanity_check h ≡ true
  unfolding sanity_check valid
  Readable-sanity_check h t most (v, s, a, b, e, w) =
      let f =
        Within→fits h.shape h.strides (elem_size_bytes h.dtype) (byte_size h.read)
          (array h.shape h.strides t a b e) (elem_size_bytes-max h.dtype) most w in
      ground (arith, v, s, a, b, e, f)

  -- The image that the message and the read make.
  abbrev pub image_of : GpuImage Header → ReadHandle → ImageReadHandle Header
  image_of message read = record {
    header = message.header;
    read = read;
    shape = message.shape;
    strides = message.strides;
    dtype = to_dtype message.dtype;
    encoding = message.encoding;
  }

  -- A message and a read are accepted exactly when the read is valid, the element type is known, no
  -- dimension is empty, and every element lies within the bytes of the publication; the image then
  -- has the message's metadata and owns the read. The 128-bit arithmetic of the test loses nothing.
  pub from_message-Readable :
      (message : GpuImage Header) (read : ReadHandle)
      → IsTyped message.shape message.strides
      → byte_size read ≤ u64_max
      → ((from_message message read ≡ some (image_of message read))
          × Readable (to_dtype message.dtype) message.shape message.strides read)
        ⊎ ((from_message message read ≡ none)
            × ¬ Readable (to_dtype message.dtype) message.shape message.strides read)
  unfolding from_message
  from_message-Readable message read t most =
      let h = image_of message read in
      elim (Bool-cases (sanity_check h)) [
        | inl c ↦ inl (ap (λ b. if b then some h else none) c, sanity_check-Readable h t c)
        | inr c ↦ inr (
          ap (λ b. if b then some h else none) c,
          λ r. ground (arith, c, Readable-sanity_check h t most r),
        )
      ]

  sanity_check-known :
      (h : ImageReadHandle Header) → sanity_check h ≡ true → elem_size_bytes h.dtype ≢ 0
  unfolding sanity_check
  sanity_check-known h c = ground (arith, c)

  -- An image that passes its own check comes back from the wire message that the publisher fills with
  -- its metadata, unchanged.
  pub from_message-fill :
      (descriptor : BufferDescriptor) (h : ImageReadHandle Header)
      → sanity_check h ≡ true
      → from_message (fill_gpu_image_message descriptor h) h.read ≡ some h
  unfolding from_message fill_gpu_image_message
  from_message-fill descriptor h c =
      rw (to_dtype-from_dtype h.dtype (sanity_check-known h c), c) refl
