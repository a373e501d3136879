-- ===== src/Subscriber/ReadHandle/Binding.antt =====
-- Who owns a publication while it is bound to a consumer's stream, and what the stream waits for.
use ros2_cuda_ipc.Base.{
  ap, ℕ, suc, ◌+◌, ◌≡◌, refl, sym, ◌∙◌, ◌≢◌, subst, ◌⊎◌, inl, inr, Bool, true, false, ◌&&◌, not,
  Option, none, some, [], ◌∷◌, arith, ◌==◌, if◌then◌else◌, Bool-cases,
}
use ros2_cuda_ipc.Cuda.{Call, cu_stream_wait_event, Answer, Log, Driver, Machine, is_ok}
use ros2_cuda_ipc.Cuda.Context.{CudaDeviceContext, initialize}
use ros2_cuda_ipc.Importer.{ImportedResources}
use ros2_cuda_ipc.Subscriber.ReadHandle.{
  CompletionEvent, MappedPublication, ReadHandle, drop_completion, validate_stream, wait_ready,
  enqueue_ready_event, create_completion_event, is_some, publication_valid, bound, bind_completion,
  make_bound,
}

-- How often the stream has been made to wait for the event.
abbrev pub waits_on : ℕ → ℕ → Call → Answer → Bool
waits_on stream e (cu_stream_wait_event i j) a = i == stream && j == e && is_ok a
waits_on stream e _ a = false

abbrev pub stream_waits : ℕ → ℕ → Log → ℕ
stream_waits stream e [] = 0
stream_waits stream e ((c, a) ∷ l) =
    (if waits_on stream e c a then 1 else 0) + stream_waits stream e l

-- No shared block and no stream is changed.
abbrev pub Quiet : ℕ → ℕ → Machine → Machine → Type 0
Quiet stream e m m' =
    (m'.store ≡ m.store) × (stream_waits stream e m'.log ≡ stream_waits stream e m.log)

module _ (stream e : ℕ) (d : Driver) (m : Machine) where
  validate_stream-Quiet :
      (resource : Option ImportedResources)
      → Quiet stream e m (validate_stream resource stream d m).1
  unfolding validate_stream initialize
  validate_stream-Quiet none = (refl, refl)
  validate_stream-Quiet (some r) = ground arith

  create_completion_event-Quiet :
      (c : Option CudaDeviceContext) → Quiet stream e m (create_completion_event c d m).1
  unfolding create_completion_event initialize
  create_completion_event-Quiet none = (refl, refl)
  create_completion_event-Quiet (some c) = ground arith

  drop_completion-Quiet : (c : Option CompletionEvent) → Quiet stream e m (drop_completion c d m).1
  unfolding drop_completion initialize
  drop_completion-Quiet none = (refl, refl)
  drop_completion-Quiet (some c) = ground arith

  wait_ready_lem :
      (r : ImportedResources)
      → let (ready, m') = wait_ready r stream d m in
        (m'.store ≡ m.store)
        × (ready ≡ true
            → e ≡ r.event
            → stream_waits stream e m'.log ≡ suc (stream_waits stream e m.log))
  unfolding wait_ready initialize
  wait_ready_lem r = ground arith

enqueue_ready_event_lem :
    (stream : ℕ) (d : Driver) (m : Machine) (r : ImportedResources)
    → let (ready, m') = enqueue_ready_event (some r) stream d m in
      (m'.store ≡ m.store)
      × (ready ≡ true
          → r.event ≢ 0
          → stream_waits stream r.event m'.log ≡ suc (stream_waits stream r.event m.log))
unfolding enqueue_ready_event
enqueue_ready_event_lem stream d m r =
    let checked = (validate_stream (some r) stream d m).1 in
    ground (
      arith,
      validate_stream-Quiet stream r.event d m (some r),
      wait_ready_lem stream r.event d checked r,
    )

-- What binding a publication with the resources `r` comes to.
abbrev pub Bound :
    MappedPublication
    → ImportedResources
    → ℕ
    → Machine
    → (ReadHandle × MappedPublication) × Machine
    → Type 0
Bound p r stream m result =
    (result.1.store ≡ m.store)
    × ((result.0 ≡ (none, p))
        ⊎ ((c : Option CompletionEvent) × (result.0 ≡ bound p stream c)
            × (is_some r.context ≡ true → is_some c ≡ true)
            × (r.event ≢ 0
                → stream_waits stream r.event result.1.log
                  ≡ suc (stream_waits stream r.event m.log))))

module _ (stream : ℕ) (d : Driver) (p : MappedPublication) (r : ImportedResources)
    (own : p.resource ≡ some r) where
  bind_completion-Bound :
      (c : Option CompletionEvent) (m : Machine)
      → Bound p r stream m (bind_completion p stream c d m)
  unfolding bind_completion
  bind_completion-Bound c m =
      let ready = enqueue_ready_event (some r) stream d m in
      elim (Bool-cases (is_some r.context && not (is_some c))) [
        | inl missing ↦
            let whole : bind_completion p stream c d m ≡ ((none, p), m) =
              ground (arith, own, missing) in
            subst (Bound p r stream m) (sym whole) (refl, inl refl)
        | inr there ↦ elim (Bool-cases ready.0) [
          | inl ok ↦
              let whole : bind_completion p stream c d m ≡ (bound p stream c, ready.1) =
                rw (own, there, ok) refl in
              let (same, waits) = enqueue_ready_event_lem stream d m r in
              subst (Bound p r stream m) (sym whole)
                (same, inr (c, refl, ground (arith, there), waits ok))
          | inr failed ↦
              let whole : bind_completion p stream c d m
                  ≡ ((none, p), (drop_completion c d ready.1).1) =
                rw (own, there, failed) refl in
              subst (Bound p r stream m) (sym whole) (
                (drop_completion-Quiet stream 0 d ready.1 c).0
                    ∙ (enqueue_ready_event_lem stream d m r).0,
                inl refl,
              )
        ]
      ]

  -- Binding a publication to a stream changes no shared block, and either leaves the publication as it
  -- was and gives no handle, or moves the resources and the reference into the handle and leaves the
  -- publication empty. In the second case the stream has been made to wait for the ready event, and
  -- a publication with a context has a completion event for the release.
  pub make_bound-Bound : (m : Machine) → Bound p r stream m (make_bound p stream d m)
  unfolding make_bound
  make_bound-Bound m =
      let checked = validate_stream (some r) stream d m in
      let made = create_completion_event r.context d checked.1 in
      let (same, unwaited) = validate_stream-Quiet stream r.event d m (some r) in
      let (same', unwaited') = create_completion_event-Quiet stream r.event d checked.1 r.context in
      elim (Bool-cases (publication_valid p)) [
        | inr invalid ↦
            let whole : make_bound p stream d m ≡ ((none, p), m) = ground (arith, invalid) in
            subst (Bound p r stream m) (sym whole) (refl, inl refl)
        | inl accepted ↦ elim (Bool-cases checked.0) [
          | inr other ↦
              let whole : make_bound p stream d m ≡ ((none, p), checked.1) =
                rw (accepted, own, other) refl in
              subst (Bound p r stream m) (sym whole) (same, inl refl)
          | inl ok ↦
              let whole : make_bound p stream d m ≡ bind_completion p stream made.0 d made.1 =
                rw (accepted, own, ok) refl in
              subst (Bound p r stream m) (sym whole) (
                let (kept, outcome) = bind_completion-Bound made.0 made.1 in
                (
                  kept ∙ same' ∙ same,
                  elim outcome [
                    | inl nothing ↦ inl nothing
                    | inr (c, e, there, waits) ↦
                        inr (c, e, there, λ event. waits event ∙ ap suc (unwaited' ∙ unwaited))
                  ],
                ))
        ]
      ]
