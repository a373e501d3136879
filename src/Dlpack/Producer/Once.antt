-- ===== src/Dlpack/Producer/Once.antt =====
-- A DLPack producer hands its publication over at most once, and loses it on no error before that.
use ros2_cuda_ipc.Base.{
  ap, ℕ, ◌≡◌, refl, sym, subst, ◌∙◌, ◌⊎◌, inl, inr, Bool, true, false, not, ◌||◌, some, ◌==◌,
  Bool-cases,
}
use ros2_cuda_ipc.Cuda.{Driver, Machine}
use ros2_cuda_ipc.Importer.{ImportedResources}
use ros2_cuda_ipc.Subscriber.ReadHandle.{
  MappedPublication, Impl, ReadHandle, DeferredReleaseQueue, make_bound, bound,
}
use ros2_cuda_ipc.Subscriber.ReadHandle.Binding.{make_bound-Bound, Bound}
use ros2_cuda_ipc.Dlpack.{ImageTensorDescriptor, Projected, projected, refused}
use ros2_cuda_ipc.Dlpack.Producer.{
  State, available, consumed, closed, PyDlPackImage, Export, exported, mapping_error, value_error,
  buffer_error, deleted_twice, ended, hand_over, export_projected, export_publication, export_state,
  dlpack,
}

-- An object that has been spent exports nothing, however it is asked.
abbrev pub Spent : Driver → PyDlPackImage → Type 0
Spent d image =
    (accepted capsule_made versioned synchronize : Bool) (stream : ℕ) (q : DeferredReleaseQueue)
    (m : Machine)
    → dlpack accepted capsule_made versioned image q stream synchronize d m
      ≡ ((mapping_error, image, q), m)

-- How an export ends: the object is as it was, and so is every shared block; or the object was
-- available and the capsule is made and owns the publication's resources and reference, and the
-- object is consumed; or it was available and the capsule could not be made, the object is closed and
-- the context of the export is deleted twice.
abbrev pub Ended :
    Driver
    → Bool
    → Bool
    → PyDlPackImage
    → DeferredReleaseQueue
    → MappedPublication
    → Machine
    → (Export × PyDlPackImage × DeferredReleaseQueue) × Machine
    → Type 0
Ended d capsule_made versioned image q p m result =
    ((result.0.1 ≡ image)
      × (result.0.2 ≡ q)
      × (result.1.store ≡ m.store)
      × ((result.0.0 ≡ mapping_error) ⊎ (result.0.0 ≡ value_error) ⊎ (result.0.0 ≡ buffer_error)))
    ⊎ ((t : ImageTensorDescriptor) × (h : Impl) × (capsule_made ≡ true)
        × (image.state ≡ available)
        × (result.0 ≡ (exported versioned t h, ended consumed image, q))
        × Spent d (ended consumed image)
        × (result.1.store ≡ m.store)
        × (h.buffer_ref ≡ p.buffer_ref)
        × (h.resource ≡ p.resource))
    ⊎ ((capsule_made ≡ false)
        × (image.state ≡ available)
        × (result.0.0 ≡ deleted_twice)
        × (result.0.1 ≡ ended closed image)
        × Spent d (ended closed image))

consumed-Spent : (d : Driver) (image : PyDlPackImage) → Spent d (ended consumed image)
unfolding dlpack export_state
consumed-Spent d image a c v s n q m = refl

closed-Spent : (d : Driver) (image : PyDlPackImage) → Spent d (ended closed image)
unfolding dlpack export_state
closed-Spent d image a c v s n q m = refl

State-cases : (s : State) → (s ≡ available) ⊎ (s ≡ consumed) ⊎ (s ≡ closed)
State-cases available = inl refl
State-cases consumed = inr (inl refl)
State-cases closed = inr (inr refl)

module _ (accepted capsule_made versioned : Bool) (image : PyDlPackImage) (q : DeferredReleaseQueue)
    (p : MappedPublication) (r : ImportedResources) (own : p.resource ≡ some r)
    (has : image.publication ≡ some p) (d : Driver) where
  module _ (free : image.state ≡ available) where
    hand_over-Ended :
        (t : ImageTensorDescriptor) (stream : ℕ) (m : Machine)
        (result : (ReadHandle × MappedPublication) × Machine)
        → Bound p r stream m result
        → Ended d capsule_made versioned image q p m
            (hand_over accepted capsule_made versioned image q t result.0.0 result.0.1 d result.1)
    unfolding hand_over
    hand_over-Ended t stream m result (same, inl e) =
        subst
          (λ z.
            Ended d capsule_made versioned image q p m
              (hand_over accepted capsule_made versioned image q t z.0 z.1 d result.1))
          (sym e) (inl (ap (λ o. record image { publication = o }) (sym has), refl, same, inl refl))
    hand_over-Ended t stream m result (same, inr (c, e, _, _)) =
        subst
          (λ z.
            Ended d capsule_made versioned image q p m
              (hand_over accepted capsule_made versioned image q t z.0 z.1 d result.1))
          (sym e) (made capsule_made)
      where
        read : Impl
        read = record {
          resource = p.resource;
          buffer_ref = p.buffer_ref;
          byte_size = p.byte_size;
          device_id = p.device_id;
          consumer_stream = stream;
          completion = c;
        }

        made :
            (b : Bool)
            → Ended d b versioned image q p m (
                hand_over accepted b versioned image q t
                  (bound p stream c).0
                  (bound p stream c).1
                  d
                  result.1)
        made true = inr (inl (t, read, refl, free, refl, consumed-Spent d image, same, refl, refl))
        made false = inr (inr (refl, free, refl, refl, closed-Spent d image))

    export_projected-Ended :
        (x : Projected ImageTensorDescriptor) (stream : ℕ) (m : Machine)
        → Ended d capsule_made versioned image q p m
            (export_projected accepted capsule_made versioned image q p stream x d m)
    unfolding export_projected
    export_projected-Ended (refused e) stream m = inl (refl, refl, refl, inr (inr refl))
    export_projected-Ended (projected t) stream m =
        hand_over-Ended t stream m (make_bound p stream d m) (make_bound-Bound stream d p r own m)

    export_publication-Ended :
        (stream : ℕ) (synchronize : Bool) (m : Machine)
        → Ended d capsule_made versioned image q p m (
            export_publication accepted capsule_made versioned image q stream synchronize
              (some p)
              d
              m)
    unfolding export_publication
    export_publication-Ended stream synchronize m =
        elim (Bool-cases (not synchronize || stream == 0)) [
          | inl no_stream ↦ rw no_stream (inl (refl, refl, refl, inr (inl refl)))
          | inr there ↦ rw there (export_projected-Ended _ stream m)
        ]

  -- Exporting an object that has a publication either fails and leaves the object, the queue and every
  -- shared block as they were, so that the export can be tried again; or gives a capsule that owns the
  -- resources and the reference of the publication, and the object is consumed; or, only if the
  -- capsule cannot be made, closes the object and deletes the context of the export twice. An object
  -- that is not available, as any is after a capsule was asked for, exports nothing.
  pub dlpack-Ended :
      (stream : ℕ) (synchronize : Bool) (m : Machine)
      → Ended d capsule_made versioned image q p m
          (dlpack accepted capsule_made versioned image q stream synchronize d m)
  unfolding dlpack export_state
  dlpack-Ended stream synchronize m = elim (State-cases image.state) [
    | inl e ↦
        let whole : dlpack accepted capsule_made versioned image q stream synchronize d m
            ≡ export_publication accepted capsule_made versioned image q stream synchronize (some p)
                d m =
          ap (λ s. export_state accepted capsule_made versioned image q stream synchronize s d m) e
          ∙ ap
              (λ o.
                export_publication accepted capsule_made versioned image q stream synchronize o d m)
              has in
        subst (Ended d capsule_made versioned image q p m) (sym whole)
          (export_publication-Ended e stream synchronize m)
    | inr (inl e) ↦
        subst (Ended d capsule_made versioned image q p m)
          (sym (
            ap (λ s. export_state accepted capsule_made versioned image q stream synchronize s d m)
              e))
          (inl (refl, refl, refl, inl refl))
    | inr (inr e) ↦
        subst (Ended d capsule_made versioned image q p m)
          (sym (
            ap (λ s. export_state accepted capsule_made versioned image q stream synchronize s d m)
              e))
          (inl (refl, refl, refl, inl refl))
  ]
