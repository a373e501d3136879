-- ===== src/Subscriber/ReadHandle/Drain.antt =====
-- The deferred worker of read_handle.cpp comes to the end of its queue.
use ros2_cuda_ipc.Base.{
  ap, suc, ◌≡◌, refl, sym, ◌∙◌, ◌⊎◌, inl, inr, Bool, true, false, Option, none, some, List, [], ◌∷◌,
  ◌++◌, arith, length, Option-cases,
}
use mathlib.Core.List
use ros2_cuda_ipc.Metadata.{Store}
use ros2_cuda_ipc.Metadata.Ref.{BufferRef, release}
use ros2_cuda_ipc.Cuda.{Driver, Machine, ◌>>=◌}
use ros2_cuda_ipc.Subscriber.ReadHandle.{
  DeferredItem, DeferredReleaseQueue, drop_ref, pending, finish_pending, finish, run_item, run,
}
use ros2_cuda_ipc.Subscriber.ReadHandle.Release.{finish_pending_lem, drop_completion-store}

-- The shared blocks without the reference.
abbrev pub let_go : Option BufferRef → Store → Store
let_go none s = s
let_go (some r) s = (release s r).0

-- What becomes of a list of items that end, or fail, one after the other: the items that are left, and
-- the blocks without the references of the others.
abbrev pub failures : List Bool → List DeferredItem → List DeferredItem
failures (true ∷ ended) (item ∷ items) = failures ended items
failures (false ∷ ended) (item ∷ items) = item ∷ failures ended items
failures _ _ = []

abbrev pub after_all : List Bool → List DeferredItem → Store → Store
after_all (true ∷ ended) (item ∷ items) s = after_all ended items (let_go item.buffer_ref s)
after_all (false ∷ ended) (item ∷ items) s = after_all ended items s
after_all _ _ s = s

abbrev Ended : DeferredItem → Machine → Bool × Machine → Type 0
Ended item m result =
    ((result.0 ≡ true) × (result.1.store ≡ let_go item.buffer_ref m.store))
    ⊎ ((result.0 ≡ false) × (result.1.store ≡ m.store))

dropped :
    (r : Option BufferRef) (d : Driver) (m : Machine) → (drop_ref r d m).1.store ≡ let_go r m.store
unfolding drop_ref
dropped none d m = refl
dropped (some r) d m = refl

finish-Ended : (item : DeferredItem) (d : Driver) (m : Machine) → Ended item m (finish item d m)
unfolding finish finish_pending
finish-Ended item d m = elim (Option-cases (pending item.completion)) [
  | inl e ↦
      let gone = drop_ref item.buffer_ref d m in
      rw (e, finish, finish_pending)
        (inl (refl, drop_completion-store item.completion d gone.1 ∙ dropped item.buffer_ref d m))
  | inr ((c, event), e) ↦
      rw (e, finish)
        (ground (arith, finish_pending_lem item c event d m, dropped item.buffer_ref d m))
]

abbrev pub Drained :
    DeferredReleaseQueue
    → List DeferredItem
    → Machine
    → List Bool
    → DeferredReleaseQueue × Machine
    → Type 0
Drained q items m ended result =
    (length ended ≡ length items)
    × (result.0.items ≡ [])
    × (result.0.failed ≡ q.failed ++ failures ended items)
    × (result.1.store ≡ after_all ended items m.store)

abbrev pub queue_of : List DeferredItem → List DeferredItem → DeferredReleaseQueue
queue_of items failed = record { items = items; failed = failed }

drain :
    (items failed : List DeferredItem) (d : Driver) (m : Machine)
    → (ended : List Bool) × Drained
        (queue_of items failed)
        items
        m
        ended
        (run (length items) (queue_of items failed) d m)
unfolding run run_item
drain [] failed d m = ([], (refl, refl, sym (List.append-nil failed), refl))
drain (item ∷ items) failed d m =
    let one = finish item d m in
    elim (finish-Ended item d m) [
      | inl (e, s) ↦
          let (ended, ih) = drain items failed d one.1 in
          (
            true ∷ ended,
            rw (e, run, run_item, ◌>>=◌)
                (ap suc ih.0, ih.1, ih.2, ih.3 ∙ ap (after_all ended items) s),
          )
      | inr (e, s) ↦
          let (ended, ih) = drain items (failed ++ item ∷ []) d one.1 in
          (
            false ∷ ended,
            rw (e, run, run_item, ◌>>=◌)
                (
                  ap suc ih.0,
                  ih.1,
                  ih.2 ∙ List.append_assoc failed (item ∷ []) (failures ended items),
                  ih.3 ∙ ap (after_all ended items) s,
                ),
          )
    ]

-- With no new items, as many turns as there are items bring the worker to the end of its queue: every
-- item either ends, and its reference alone is given back, or is kept among the failed ones, in the
-- order of the queue.
pub run-Drained :
    (q : DeferredReleaseQueue) (d : Driver) (m : Machine)
    → (ended : List Bool) × Drained q q.items m ended (run (length q.items) q d m)
run-Drained q d m = drain q.items q.failed d m
