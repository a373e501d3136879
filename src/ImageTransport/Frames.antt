-- ===== src/ImageTransport/Frames.antt =====
-- The frames that the node publishes.
use ros2_cuda_ipc.Base.{
  ℕ, Bool, ◌*◌, ◌/◌, ◌%◌, ◌≤◌, ◌<◌, ◌≡◌, refl, ◌⊎◌, inl, inr, true, false, if◌then◌else◌, ◌∷◌,
  Option, none, some, Bool-cases, Option-cases, leb, ltb, ◌==◌, arith, u32_max, u64_max, u64_mod,
}
use ros2_cuda_ipc.Image.{ImageReadHandle, sanity_check, valid}
use ros2_cuda_ipc.Subscriber.ReadHandle
use ros2_cuda_ipc.Subscriber.ReadHandle.{byte_size}
use ros2_cuda_ipc.Fanout.{Buffer}
use ros2_cuda_ipc.Fanout.Runtime.{
  Runtime, RuntimeLog, failures, cuda_malloc_host, cuda_memcpy_to_host, cuda_stream_synchronize,
  is_ok, ◌>>=◌,
}
use ros2_cuda_ipc.ImageTransport.{
  GpuImageTransportNode, Frame, Outcome, skipped, published, release_pinned_host, allocate_pinned,
  ensure_pinned_capacity, copied_from, fill_frame, publish_frame, copy_and_publish, on_image,
  infer_encoding,
}
use native.Mathlib.Nat.{le-div_iff_mul-le, mul-le-mul, mod-eq_of_lt}
use Prim.Native.String.{String, len}

-- The capacity is that of the pinned memory, and 0 without any.
abbrev pub IsPinned : GpuImageTransportNode → Type 0
IsPinned node = elim node.pinned_host_buffer [
  | none ↦ node.pinned_host_capacity ≡ 0
  | some host ↦ host.size ≡ node.pinned_host_capacity
]

module _ {Header : Type 0} (view : ImageReadHandle Header) where
  -- The rows of the image, with their padding, lie within the publication.
  pub HasRows : Type 0
  HasRows =
      (sanity_check view ≡ true)
      × (0 < view.strides.first)
      × (view.strides.first ≤ u32_max)
      × (view.strides.first * view.shape.first ≤ byte_size view.read)

  pub LacksRows : Type 0
  LacksRows =
      (sanity_check view ≡ false)
      ⊎ (view.strides.first ≡ 0)
      ⊎ (u32_max < view.strides.first)
      ⊎ (byte_size view.read < view.strides.first * view.shape.first)

  -- A frame of the image, with the bytes of its rows.
  pub record IsFrame (device : ℕ → ℕ) (frame : Frame Header) : Type 0 where
    pub header_same : frame.header ≡ view.header
    pub height_same : frame.height ≡ view.shape.first
    pub width_same : frame.width ≡ view.shape.second
    pub step_same : frame.step ≡ view.strides.first
    pub rows_long : frame.bytes.size ≡ view.strides.first * view.shape.first
    pub bytes_same : (i : ℕ) → i < frame.bytes.size → frame.bytes.at i ≡ device i

  -- The two ends of a callback: the image is published, or it is skipped for a reason.
  abbrev pub Ended :
      (ℕ → ℕ) → RuntimeLog → (Outcome Header × GpuImageTransportNode) × RuntimeLog → Type 0
  Ended device l ((outcome, node), l') =
      IsPinned node
      × ((HasRows × (frame : Frame Header) × (outcome ≡ published frame) × IsFrame device frame)
          ⊎ ((outcome ≡ skipped) × ((failures l < failures l') ⊎ LacksRows)))

  -- No frame whose rows fit is refused by the tests for a size that overflows.
  rows_small : (h s : ℕ) → h ≤ u32_max → s ≤ u32_max → s * h ≤ u64_max
  rows_small h s a b =
      let area = mul-le-mul {n₁ = s} {m₁ = h} {n₂ = u32_max} {m₂ = u32_max} b a in
      omega (arith, area)

  rows_counted : (h s : ℕ) → 0 < h → s * h ≤ u64_max → s ≤ u64_max / h
  rows_counted h s p c = (le-div_iff_mul-le p).1 c

  rows_kept : (h s : ℕ) → s * h ≤ u64_max → s * h % u64_mod ≡ s * h
  rows_kept h s c = mod-eq_of_lt (omega (arith, c))

  sanity_check-positive : sanity_check view ≡ true → 0 < view.shape.first
  unfolding sanity_check valid
  sanity_check-positive c = ground (arith, c)

  sanity_check-valid : sanity_check view ≡ true → ReadHandle.valid view.read ≡ true
  unfolding sanity_check valid
  sanity_check-valid c = ground (arith, c)

  refused-LacksRows : sanity_check view ≡ false → LacksRows
  unfolding LacksRows
  refused-LacksRows c = inl c

  -- A read of no bytes has no rows.
  empty-LacksRows : sanity_check view ≡ true → byte_size view.read == 0 ≡ true → LacksRows
  unfolding LacksRows
  empty-LacksRows c z = elim (Bool-cases (view.strides.first == 0)) [
    | inl p ↦ inr (inl (ground (arith, p)))
    | inr p ↦
        let area =
          mul-le-mul {n₁ = 1} {m₁ = 1} {n₂ = view.strides.first} {m₂ = view.shape.first}
            (ground (arith, p)) (sanity_check-positive c) in
        inr (inr (inr (ground (arith, area, z))))
  ]

  module _ (to_string : ℕ → String) where
    frame_of : Buffer → Frame Header
    frame_of host = record {
      header = view.header;
      height = view.shape.first;
      width = view.shape.second;
      encoding = if len view.encoding == 0 then infer_encoding to_string view else view.encoding;
      is_bigendian = false;
      step = view.strides.first;
      bytes = record { size = view.strides.first * view.shape.first; at = host.at };
    }

    publish_frame-rows :
        (host : Buffer)
        → HasRows
        → 0 < view.shape.first
        → view.shape.first ≤ u32_max
        → byte_size view.read ≤ host.size
        → publish_frame to_string view (byte_size view.read) (some host) ≡ published (frame_of host)
    unfolding publish_frame fill_frame frame_of HasRows
    publish_frame-rows host (c, p, w, b) q u fits =
        let small = rows_small view.shape.first view.strides.first u w in
        let counted = rows_counted view.shape.first view.strides.first q small in
        let kept = rows_kept view.shape.first view.strides.first small in
        ground (arith, p, w, b, q, fits, small, counted, kept)

    publish_frame-lacks :
        (host : Option Buffer)
        → sanity_check view ≡ true
        → view.shape.first ≤ u32_max
        → ((publish_frame to_string view (byte_size view.read) host ≡ skipped) × LacksRows)
          ⊎ HasRows
    unfolding publish_frame HasRows LacksRows
    publish_frame-lacks host c u =
        let q = sanity_check-positive c in
        let area = view.strides.first * view.shape.first in
        elim (Bool-cases (view.strides.first == 0)) [
          | inl z ↦ inl (ground (arith, z), inr (inl (ground (arith, z))))
          | inr p ↦ elim (Bool-cases (ltb u32_max view.strides.first)) [
            | inl z ↦ inl (ground (arith, z, p), inr (inr (inl (ground (arith, z)))))
            | inr w ↦ elim (Bool-cases (ltb (byte_size view.read) area)) [
              | inl z ↦
                  let small =
                    rows_small view.shape.first view.strides.first u (ground (arith, w)) in
                  let counted = rows_counted view.shape.first view.strides.first q small in
                  let kept = rows_kept view.shape.first view.strides.first small in
                  inl (
                    ground (arith, p, w, z, q, small, counted, kept),
                    inr (inr (inr (ground (arith, z)))),
                  )
              | inr b ↦ inr (c, ground (arith, p), ground (arith, w), ground (arith, b))
            ]
          ]
        ]

-- Room for a copy is there, or a call has failed.
abbrev pub Room : ℕ → RuntimeLog → (Bool × GpuImageTransportNode) × RuntimeLog → Type 0
Room bytes l ((ok, node), l') =
    IsPinned node
    × (failures l ≤ failures l')
    × (((ok ≡ true) × (host : Buffer) × (node.pinned_host_buffer ≡ some host) × (bytes ≤ host.size))
        ⊎ ((ok ≡ false) × (failures l < failures l')))

module _ (d : Runtime) (bytes : ℕ) where
  allocate_pinned-Room :
      (node : GpuImageTransportNode) (l : RuntimeLog)
      → IsPinned node
      → Room bytes l (allocate_pinned bytes node d l)
  unfolding allocate_pinned
  allocate_pinned-Room node l w = elim (Bool-cases (is_ok (d.reply l (cuda_malloc_host bytes)))) [
    | inl p ↦ rw (◌>>=◌, p) (refl, ground arith, inl (refl, _, refl, ground arith))
    | inr p ↦ rw (◌>>=◌, p) (w, ground arith, inr (refl, ground (arith, p)))
  ]

  release_pinned_host-IsPinned :
      (node : GpuImageTransportNode) (l : RuntimeLog)
      → IsPinned node
      → let (node', l') = release_pinned_host node d l in
        IsPinned node' × (failures l ≤ failures l')
  unfolding release_pinned_host
  release_pinned_host-IsPinned node l w = elim (Option-cases node.pinned_host_buffer) [
    | inl e ↦ rw (e) (ground (arith, w, e))
    | inr (host, e) ↦ rw (e) (refl, ground arith)
  ]

  ensure_pinned_capacity-Room :
      (node : GpuImageTransportNode) (l : RuntimeLog)
      → IsPinned node
      → 0 < bytes
      → Room bytes l (ensure_pinned_capacity bytes node d l)
  unfolding ensure_pinned_capacity
  ensure_pinned_capacity-Room node l w p =
      let some_bytes : bytes == 0 ≡ false = ground (arith, p) in
      elim (Bool-cases (leb bytes node.pinned_host_capacity)) [
        | inl q ↦ elim (Option-cases node.pinned_host_buffer) [
          | inl e ↦ ground (arith, w, e, q, p)
          | inr (host, e) ↦
              rw (some_bytes, q) (w, ground arith, inl (refl, host, e, ground (arith, w, e, q)))
        ]
        | inr q ↦
            let (pinned, more) = release_pinned_host-IsPinned node l w in
            let released = release_pinned_host node d l in
            let room = allocate_pinned-Room released.0 released.1 pinned in
            rw (some_bytes, q)
              (
                room.0,
                omega (arith, more, room.1),
                elim room.2 [
                  | inl there ↦ inl there
                  | inr (refused, fewer) ↦ inr (refused, omega (arith, more, fewer))
                ],
              )
      ]

module _ {Header : Type 0} (to_string : ℕ → String) (view : ImageReadHandle Header) (device : ℕ → ℕ)
    (d : Runtime) where
  -- The pinned memory after a copy.
  abbrev copied : Buffer → Buffer
  copied host = record {
    size = host.size;
    at = λ i. if ltb i (byte_size view.read) then device i else host.at i;
  }

  copied_from-some :
      (host : Buffer)
      → byte_size view.read ≤ host.size
      → copied_from device (byte_size view.read) (some host) ≡ some (copied host)
  unfolding copied_from
  copied_from-some host fits = ground (arith, fits)

  frame_of-IsFrame :
      (host : Buffer) → HasRows view → IsFrame view device (frame_of view to_string (copied host))
  unfolding frame_of HasRows
  frame_of-IsFrame host (c, p, w, b) = record {
    header_same = refl;
    height_same = refl;
    width_same = refl;
    step_same = refl;
    rows_long = refl;
    bytes_same = λ i h. ground (arith, h, b);
  }

  copy_and_publish-Ended :
      (node : GpuImageTransportNode) (host : Buffer) (l : RuntimeLog)
      → IsPinned node
      → node.pinned_host_buffer ≡ some host
      → byte_size view.read ≤ host.size
      → sanity_check view ≡ true
      → view.shape.first ≤ u32_max
      → Ended view device l (copy_and_publish to_string view device (byte_size view.read) node d l)
  unfolding copy_and_publish
  copy_and_publish-Ended node host l w e fits c u =
      let m = d.reply l cuda_memcpy_to_host in
      let l' = (cuda_memcpy_to_host, m) ∷ l in
      let waited = d.reply l' (cuda_stream_synchronize node.stream) in
      let same = copied_from-some host fits in
      elim (Bool-cases (is_ok m)) [
        | inr p ↦ rw (◌>>=◌, p) (w, inr (refl, inl (ground (arith, p))))
        | inl p ↦ elim (Bool-cases (is_ok waited)) [
          | inr q ↦ rw (◌>>=◌, p, q) (w, inr (refl, inl (ground (arith, p, q))))
          | inl q ↦ elim (publish_frame-lacks view to_string (some (copied host)) c u) [
            | inl (s, lacks) ↦ rw (◌>>=◌, p, q, e, same) (ground (arith, w, e), inr (s, inr lacks))
            | inr rows ↦
                rw (◌>>=◌, p, q, e, same)
                  (
                    ground (arith, w, e),
                    inl (
                      rows,
                      frame_of view to_string (copied host),
                      publish_frame-rows view to_string (copied host) rows
                          (sanity_check-positive view c) u fits,
                      frame_of-IsFrame host rows,
                    ),
                  )
          ]
        ]
      ]

  -- Calls that were refused before are counted too.
  later :
      (l k : RuntimeLog) (result : (Outcome Header × GpuImageTransportNode) × RuntimeLog)
      → failures l ≤ failures k
      → Ended view device k result
      → Ended view device l result
  later l k ((o, node), k') more (w, inl frame) = (w, inl frame)
  later l k ((o, node), k') more (w, inr (s, inr lacks)) = (w, inr (s, inr lacks))
  later l k ((o, node), k') more (w, inr (s, inl fewer)) =
      (w, inr (s, inl (omega (arith, more, fewer))))

  -- An image whose height is a 32-bit number, given to a node whose pinned memory has its capacity:
  -- either its rows fit and the frame that is published has exactly their bytes as they lie in
  -- device memory; or nothing is published, and a call was refused, the image fails its check, or its
  -- step is 0, has more than 32 bits, or times the height exceeds the bytes of the read. No access to
  -- the pinned memory is out of bounds, and the node's memory keeps its capacity.
  pub on_image-Ended :
      (node : GpuImageTransportNode) (l : RuntimeLog)
      → IsPinned node
      → view.shape.first ≤ u32_max
      → Ended view device l (on_image to_string view device node d l)
  unfolding on_image
  on_image-Ended node l w u =
      let bytes = byte_size view.read in
      let ready = ensure_pinned_capacity bytes node d l in
      elim (Bool-cases (sanity_check view)) [
        | inr c ↦ elim (Bool-cases (ReadHandle.valid view.read)) [
          | inr v ↦ rw (v) (w, inr (refl, inr (refused-LacksRows view c)))
          | inl v ↦ rw (v, c) (w, inr (refl, inr (refused-LacksRows view c)))
        ]
        | inl c ↦
            let v = sanity_check-valid view c in
            elim (Bool-cases (bytes == 0)) [
              | inl z ↦ rw (v, c, z) (w, inr (refl, inr (empty-LacksRows view c z)))
              | inr z ↦
                  let room = ensure_pinned_capacity-Room d bytes node l w (ground (arith, z)) in
                  elim room.2 [
                    | inr (refused, fewer) ↦
                        rw (v, c, z, ◌>>=◌, refused) (room.0, inr (refl, inl fewer))
                    | inl (there, host, e, fits) ↦
                        rw (v, c, z, ◌>>=◌, there)
                          (later l ready.1
                            (copy_and_publish to_string view device bytes ready.0.1 d ready.1)
                            room.1
                            (copy_and_publish-Ended ready.0.1 host ready.1 room.0 e fits c u))
                  ]
            ]
      ]
