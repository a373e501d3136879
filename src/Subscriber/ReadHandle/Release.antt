-- ===== src/Subscriber/ReadHandle/Release.antt =====
-- When a read gives its reference back.
use ros2_cuda_ipc.Base.{
  ap, ℕ, suc, ◌+◌, ◌≡◌, refl, sym, ◌⊎◌, inl, inr, Bool, true, false, ◌&&◌, Option, none, some, List,
  [], ◌∷◌, ◌++◌, arith, ◌==◌, if◌then◌else◌,
}
use ros2_cuda_ipc.Metadata.Ref.{BufferRef, release}
use ros2_cuda_ipc.Cuda.{
  Call, cu_event_synchronize, cu_event_record, Answer, Log, Driver, Machine, is_ok,
}
use ros2_cuda_ipc.Cuda.Context.{CudaDeviceContext, push_current, initialize}
use ros2_cuda_ipc.Subscriber.ReadHandle.{
  CompletionEvent, DeferredItem, DeferredReleaseQueue, Impl, drop_completion, drop_ref, pending,
  finish_current, finish_pending, finish, run_item, release_pending, submit, release_read,
  record_completion, item_of,
}

-- How often a wait for the event has succeeded.
abbrev pub waits_for : ℕ → Call → Answer → Bool
waits_for e (cu_event_synchronize i) a = i == e && is_ok a
waits_for e _ a = false

abbrev pub completions : ℕ → Log → ℕ
completions e [] = 0
completions e ((c, a) ∷ l) = (if waits_for e c a then 1 else 0) + completions e l

-- How often the event has been recorded on the stream.
abbrev pub records_on : ℕ → ℕ → Call → Answer → Bool
records_on e stream (cu_event_record i j) a = i == e && j == stream && is_ok a
records_on e stream _ a = false

abbrev pub recordings : ℕ → ℕ → Log → ℕ
recordings e stream [] = 0
recordings e stream ((c, a) ∷ l) =
    (if records_on e stream c a then 1 else 0) + recordings e stream l

pub drop_completion-store :
    (c : Option CompletionEvent) (d : Driver) (m : Machine)
    → (drop_completion c d m).1.store ≡ m.store
unfolding drop_completion initialize
drop_completion-store none d m = refl
drop_completion-store (some c) d m = ground arith

-- The end of a completion does not wait for anything.
drop_completion-completions :
    (c : Option CompletionEvent) (e : ℕ) (d : Driver) (m : Machine)
    → completions e (drop_completion c d m).1.log ≡ completions e m.log
unfolding drop_completion initialize
drop_completion-completions none e d m = refl
drop_completion-completions (some c) e d m = ground arith

push_current-completions :
    (c : CudaDeviceContext) (e : ℕ) (d : Driver) (m : Machine)
    → (completions e (push_current c d m).1.log ≡ completions e m.log)
      × ((push_current c d m).1.store ≡ m.store)
unfolding push_current initialize
push_current-completions c e d m = ground arith

-- How the worker ends an item whose completion is the event `e`.
abbrev pub Finished : DeferredItem → ℕ → Driver → Machine → Bool × Machine → Type 0
Finished item e d m result =
    ((result.0 ≡ true)
      × (result.1.store ≡ (drop_ref item.buffer_ref d m).1.store)
      × (completions e result.1.log ≡ suc (completions e m.log)))
    ⊎ ((result.0 ≡ false) × (result.1.store ≡ m.store))

pub drop_ref-store :
    (r : Option BufferRef) (d : Driver) (m m' : Machine)
    → m'.store ≡ m.store
    → ((drop_ref r d m').1.store ≡ (drop_ref r d m).1.store) × ((drop_ref r d m').1.log ≡ m'.log)
unfolding drop_ref
drop_ref-store none d m m' e = (e, refl)
drop_ref-store (some r) d m m' e = (ap (λ s. (release s r).0) e, refl)

finish_current_lem :
    (item : DeferredItem) (e : ℕ) (d : Driver) (m : Machine)
    → Finished item e d m (finish_current item e d m)
unfolding finish_current
finish_current_lem item e d m =
    let a : Answer = d m.log (cu_event_synchronize e) in
    let m1 : Machine = record m { log = (cu_event_synchronize e, a) ∷ m.log } in
    let m2 : Machine = (drop_completion item.completion d m1).1 in
    ground (
      arith,
      drop_completion-store item.completion d m1,
      drop_completion-completions item.completion e d m1,
      drop_ref-store item.buffer_ref d m m2 (drop_completion-store item.completion d m1),
    )

pub finish_pending_lem :
    (item : DeferredItem) (c : CudaDeviceContext) (e : ℕ) (d : Driver) (m : Machine)
    → Finished item e d m (finish_pending item (some (c, e)) d m)
unfolding finish_pending
finish_pending_lem item c e d m =
    let pushed = push_current c d m in
    ground (
      arith,
      push_current-completions c e d m,
      finish_current_lem item e d pushed.1,
      drop_ref-store item.buffer_ref d m pushed.1 (push_current-completions c e d m).1,
    )

-- The worker gives the reference of a read back only after a wait for the read's completion event
-- has succeeded, once. If the context cannot be made current, or the wait fails, the item is kept
-- among the failed ones and its reference stays counted.
pub run_item-Waits :
    (q : DeferredReleaseQueue) (item : DeferredItem) (rest : List DeferredItem)
    (c : CudaDeviceContext) (e : ℕ) (d : Driver) (m : Machine)
    → q.items ≡ item ∷ rest
    → pending item.completion ≡ some (c, e)
    → let (q', m') = run_item q d m in
      (q'.items ≡ rest)
      × (((q'.failed ≡ q.failed)
            × (m'.store ≡ (drop_ref item.buffer_ref d m).1.store)
            × (completions e m'.log ≡ suc (completions e m.log)))
          ⊎ ((q'.failed ≡ q.failed ++ (item ∷ [])) × (m'.store ≡ m.store)))
unfolding run_item finish
run_item-Waits q item rest c e d m i p =
    rw (i, run_item, p, finish) (ground (arith, finish_pending_lem item c e d m))

record_completion_lem :
    (c : CudaDeviceContext) (e stream : ℕ) (d : Driver) (m : Machine)
    → let result = record_completion c e stream d m in
      (result.1.store ≡ m.store)
      × (result.0 ≡ true → recordings e stream result.1.log ≡ suc (recordings e stream m.log))
unfolding record_completion initialize
record_completion_lem c e stream d m = ground arith

-- Where an item goes, with what is known of it when it was recorded.
abbrev pub Submitted :
    Bool → DeferredItem → DeferredReleaseQueue → DeferredReleaseQueue → Type 0 → Type 0
Submitted accepted item q q' Recorded =
    ((q' ≡ record q { items = q.items ++ (item ∷ []) }) × Recorded)
    ⊎ (q' ≡ record q { failed = q.failed ++ (item ∷ []) })
    ⊎ ((accepted ≡ false) × (q' ≡ q))

submit-Submitted :
    (Recorded : Type 0) (accepted recorded : Bool) (item : DeferredItem) (q : DeferredReleaseQueue)
    → (recorded ≡ true → Recorded)
    → Submitted accepted item q (submit accepted recorded item q) Recorded
unfolding submit
submit-Submitted R false recorded item q h = inr (inr (refl, refl))
submit-Submitted R true true item q h = inl (refl, h refl)
submit-Submitted R true false item q h = inr (inl refl)

-- Releasing a read that has a completion event gives no reference back. Its item goes to the worker
-- only when the event was recorded on the read's own stream; otherwise it stays with the failed ones,
-- or, if the queue cannot take it, nowhere. The handle has no reference left, so that releasing it
-- again does nothing.
pub release_read-Defers :
    (accepted again : Bool) (h : Impl) (q : DeferredReleaseQueue) (r : BufferRef)
    (c : CudaDeviceContext) (e : ℕ) (d : Driver) (m : Machine)
    → h.buffer_ref ≡ some r
    → pending h.completion ≡ some (c, e)
    → let ((h', q'), m') = release_read accepted h q d m in
      (m'.store ≡ m.store)
      × Submitted accepted
          (item_of h)
          q
          q'
          (recordings e h.consumer_stream m'.log ≡ suc (recordings e h.consumer_stream m.log))
      × (release_read again h' q' d m' ≡ ((h', q'), m'))
unfolding release_read release_pending
release_read-Defers accepted again h q r c e d m b p =
    let (same, recorded) = record_completion_lem c e h.consumer_stream d m in
    let submitted =
      submit-Submitted
        (recordings e h.consumer_stream (record_completion c e h.consumer_stream d m).1.log
          ≡ suc (recordings e h.consumer_stream m.log))
        accepted (record_completion c e h.consumer_stream d m).0 (item_of h) q recorded in
    rw (b, release_read, p) (same, rw (sym b) submitted, refl)
