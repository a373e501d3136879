-- ===== src/Reader/Kept.antt =====
-- What a typed reader does with the reference of the read that it has mapped.
use ros2_cuda_ipc.Base.{
  ℕ, ◌≤◌, ◌<◌, ◌≡◌, refl, sym, ap, ◌∙◌, ◌⊎◌, inl, inr, Bool, true, Option, none, some, arith,
  u32_max, Option-cases, Bool-cases,
}
use ros2_cuda_ipc.Metadata.{Mapping, Store}
use ros2_cuda_ipc.Metadata.Ref.{BufferRef, release}
use ros2_cuda_ipc.Cuda.{Driver, Machine}
use ros2_cuda_ipc.Image.{to_dtype, GpuImage, ImageReadHandle, from_message, sanity_check}
use ros2_cuda_ipc.Image.Accept.{IsTyped, Readable, image_of, sanity_check-Readable}
use ros2_cuda_ipc.Reader.{checked, hand_over, read_image, read_pointcloud2}
use ros2_cuda_ipc.PointCloud2.{GpuPointCloud2}
use ros2_cuda_ipc.PointCloud2
use ros2_cuda_ipc.Subscriber.HandleCache.{HandleCache}
use ros2_cuda_ipc.Subscriber.Mapper.{map}
use ros2_cuda_ipc.Subscriber.Mapper.Read.{Held, map-Held}
use ros2_cuda_ipc.Subscriber.MetadataCache.{Cache}
use ros2_cuda_ipc.Subscriber.ReadHandle.{
  DeferredReleaseQueue, Impl, ReadHandle, drop_ref, item_of, pending, release_pending, release_read,
}
use ros2_cuda_ipc.Subscriber.ReadHandle.Release.{Submitted, recordings, release_read-Defers}

abbrev ref_of : ReadHandle → Option BufferRef
ref_of none = none
ref_of (some h) = h.buffer_ref

-- The completion event that a release has to wait for.
abbrev pub event_of : Impl → Option ℕ
event_of h = elim (pending h.completion) [ none ↦ none | some (_, e) ↦ some e ]

-- One reference to the generation is counted, which `ref` gives back.
abbrev pub Counted : Store → ℕ → BufferRef → Store → Type 0
Counted s uid ref s' = (ref.uid ≡ uid) × ((release s' ref).0 ≡ s)

-- The view has the read's reference; or there is no view and every shared block is as it was; or the
-- read was refused and its reference is still counted, with an item that went to the deferred worker
-- when its completion was recorded on the read's stream, to the failed ones, or, when the queue could
-- not take it, nowhere.
abbrev pub Passed :
    {View : Type 0}
    → Store
    → ℕ
    → (ReadHandle → Option View)
    → Bool
    → DeferredReleaseQueue
    → (Option View × DeferredReleaseQueue) × Machine
    → Type 0
Passed {View} s uid from accepted q ((view, q'), m') =
    ((h : Impl) × (ref : BufferRef) × (v : View) × (view ≡ some v)
      × (from (some h) ≡ some v)
      × (h.buffer_ref ≡ some ref)
      × (q' ≡ q)
      × Counted s uid ref m'.store)
    ⊎ ((view ≡ none) × (q' ≡ q) × (m'.store ≡ s))
    ⊎ ((h : Impl) × (ref : BufferRef) × (e : ℕ) × (view ≡ none)
        × (event_of h ≡ some e)
        × (from (some h) ≡ none)
        × (h.buffer_ref ≡ some ref)
        × Submitted accepted (item_of h) q q' (0 < recordings e h.consumer_stream m'.log)
        × Counted s uid ref m'.store)

module _ {View : Type 0} (from : ReadHandle → Option View) (accepted : Bool)
    (q : DeferredReleaseQueue) (s : Store) (uid : ℕ) (d : Driver) where
  release_now :
      (h : Impl) (ref : BufferRef) (m : Machine)
      → h.buffer_ref ≡ some ref
      → pending h.completion ≡ none
      → let result = release_read accepted h q d m in
        (result.0.1 ≡ q) × (result.1.store ≡ (release m.store ref).0)
  unfolding release_read release_pending drop_ref
  release_now h ref m b e = ground (arith, b, e)

  refused :
      (h : Impl) (ref : BufferRef) (m : Machine)
      → h.buffer_ref ≡ some ref
      → from (some h) ≡ none
      → Counted s uid ref m.store
      → Passed s uid from accepted q (checked {View = View} accepted q h none d m)
  unfolding checked
  refused h ref m b f c = elim (Option-cases (pending h.completion)) [
    | inl e ↦ let (same, back) = release_now h ref m b e in inr (inl (refl, same, back ∙ c.1))
    | inr ((context, e), p) ↦
        let (same, submitted, again) =
          release_read-Defers accepted true h q ref context e d m b p in
        let gone : Submitted accepted (item_of h) q (release_read accepted h q d m).0.1
            (0 < recordings e h.consumer_stream (release_read accepted h q d m).1.log) =
          elim submitted [ inl (e', r) ↦ inl (e', omega (arith, r)) | inr o ↦ inr o ] in
        inr (
          inr (
            h,
            ref,
            e,
            refl,
            ap (λ o. elim o [ none ↦ none | some (_, i) ↦ some i ]) p,
            f,
            b,
            gone,
            (c.0, ap (λ t. (release t ref).0) same ∙ c.1),
          ))
  ]

  -- Whatever the driver answers.
  pub hand_over-Passed :
      (read : ReadHandle) (m : Machine)
      → Held s uid read m.store
      → Passed s uid from accepted q (hand_over from accepted q read d m)
  unfolding hand_over checked
  hand_over-Passed none m held = elim held [
    | inl (i, ref, e, b, u, back) ↦ ground (arith, e)
    | inr (e, same) ↦ inr (inl (refl, refl, same))
  ]
  hand_over-Passed (some h) m held = elim held [
    | inr (e, same) ↦ ground (arith, e)
    | inl (i, ref, e, b, u, back) ↦
        let own : h.buffer_ref ≡ some ref = ap ref_of e ∙ b in
        elim (Option-cases (from (some h))) [
          | inl f ↦ rw (f) (refused h ref m own f (u, back))
          | inr (v, f) ↦ rw (f) (inl (h, ref, v, refl, f, own, refl, (u, back)))
        ]
  ]

module _ {Header : Type 0} (message : GpuImage Header) where
  from_message_sound :
      (read : ReadHandle) (v : ImageReadHandle Header)
      → IsTyped message.shape message.strides
      → from_message message read ≡ some v
      → (v ≡ image_of message read)
        × Readable (to_dtype message.dtype) message.shape message.strides read
  unfolding from_message
  from_message_sound read v typed e = elim (Bool-cases (sanity_check (image_of message read))) [
    | inl ok ↦ (ground (arith, ok, e), sanity_check-Readable (image_of message read) typed ok)
    | inr bad ↦ ground (arith, bad, e)
  ]

  from_Passed :
      (s : Store) (uid : ℕ) (accepted : Bool) (q : DeferredReleaseQueue)
      (result : (Option (ImageReadHandle Header) × DeferredReleaseQueue) × Machine)
      (v : ImageReadHandle Header)
      → IsTyped message.shape message.strides
      → Passed s uid (from_message message) accepted q result
      → result.0.0 ≡ some v
      → (read : ReadHandle) × (v ≡ image_of message read)
        × Readable (to_dtype message.dtype) message.shape message.strides read
  from_Passed s uid accepted q result v typed passed e = elim passed [
    | inl (h, ref, v', f, from, own, same_queue, counted) ↦
        let same : some v' ≡ some v = sym f ∙ e in
        let (made, readable) = from_message_sound (some h) v typed (from ∙ same) in
        (some h, made, readable)
    | inr (inl (f, same_queue, back)) ↦ ground (arith, e, f)
    | inr (inr (h, ref, i, f, event, from, own, gone, counted)) ↦ ground (arith, e, f)
  ]

-- Reading an image either gives a view with one counted reference to the message's generation, whose
-- every element lies within the bytes of the publication, or gives none. Then the shared blocks are as
-- they were; or the reference of the refused read is still counted, with its item queued for the
-- deferred worker after its completion was recorded, kept among the failed items, or, only when the
-- queue cannot take an item, in no list at all, so that the reference stays counted for good.
pub read_image-Passed :
    {Header : Type 0} (attach : ℕ → ℕ → Option Mapping) (spurious : ℕ) (others : Cache → Cache)
    (others' : HandleCache → HandleCache) (accepted : Bool) (message : GpuImage Header) (stream : ℕ)
    (q : DeferredReleaseQueue) (cache : Cache) (l : HandleCache) (d : Driver) (m : Machine)
    → ((i : ℕ) → (m.store i).refcount ≤ u32_max)
    → IsTyped message.shape message.strides
    → let ((result, cache', l'), m') =
        read_image attach spurious others others' accepted message stream q cache l d m in
      Passed m.store message.core.uid (from_message message) accepted q (result, m')
      × ((v : ImageReadHandle Header)
          → result.0 ≡ some v
          → (read : ReadHandle) × (v ≡ image_of message read)
            × Readable (to_dtype message.dtype) message.shape message.strides read)
unfolding read_image
read_image-Passed attach spurious others others' accepted message stream q cache l d m small typed =
    let mapped = map attach spurious message.core stream others others' cache l d m in
    let handed = hand_over (from_message message) accepted q mapped.0.0 d mapped.1 in
    let passed =
      hand_over-Passed (from_message message) accepted q m.store message.core.uid d mapped.0.0
        mapped.1 (map-Held attach spurious message.core stream others others' cache l d m small) in
    (
      passed,
      λ v e.
          from_Passed message m.store message.core.uid accepted q
            ((handed.0.0, handed.0.1), handed.1) v typed passed e,
    )

-- Reading a point cloud does the same with its reference.
pub read_pointcloud2-Passed :
    {Header : Type 0} (attach : ℕ → ℕ → Option Mapping) (spurious : ℕ) (others : Cache → Cache)
    (others' : HandleCache → HandleCache) (accepted : Bool) (message : GpuPointCloud2 Header)
    (stream : ℕ) (q : DeferredReleaseQueue) (cache : Cache) (l : HandleCache) (d : Driver)
    (m : Machine)
    → ((i : ℕ) → (m.store i).refcount ≤ u32_max)
    → let ((result, cache', l'), m') =
        read_pointcloud2 attach spurious others others' accepted message stream q cache l d m in
      Passed m.store message.core.uid (PointCloud2.from_message message) accepted q (result, m')
unfolding read_pointcloud2
read_pointcloud2-Passed attach spurious others others' accepted message stream q cache l d m small =
    let mapped = map attach spurious message.core stream others others' cache l d m in
    hand_over-Passed (PointCloud2.from_message message) accepted q m.store message.core.uid d
      mapped.0.0 mapped.1
      (map-Held attach spurious message.core stream others others' cache l d m small)
