-- ===== src/Subscriber/ReadHandle.antt =====
-- ros2_cuda_ipc_core/src/subscriber/read_handle.cpp. A shared pointer to imported resources is the
-- resources, and a null one `none`: the process's handle cache holds each of them too, so that
-- letting go of one never runs its deleter. A `unique_ptr<BufferRef>` that is destroyed releases its
-- reference. Allocations succeed, except that the deferred queue may refuse an item.
pub mod Release
pub mod Drain
pub mod Binding
use ros2_cuda_ipc.Base.{
  ℕ, zero, suc, Bool, true, false, not, ◌&&◌, ◌||◌, Option, none, some, List, [], ◌∷◌, ◌++◌, ◌==◌,
  if◌then◌else◌,
}
use ros2_cuda_ipc.Metadata.Ref.{BufferRef, release}
use ros2_cuda_ipc.Cuda.{
  Call, cu_ctx_get_device, cu_event_create, cu_event_destroy, cu_event_record, cu_event_synchronize,
  cu_stream_get_ctx, cu_stream_wait_event, Answer, Machine, CudaResult, success, failure, M, pure,
  ◌>>=◌, ◌>>◌, perform, is_ok,
}
use ros2_cuda_ipc.Cuda.Context.{CudaDeviceContext, push, push_current, pop, within}
use ros2_cuda_ipc.Cuda.Event.{disable_timing}
use ros2_cuda_ipc.Importer.{ImportedResources}

pub record CompletionEvent : Type 0 where
  pub context : Option CudaDeviceContext
  pub event : ℕ

pub record DeferredItem : Type 0 where
  pub completion : Option CompletionEvent
  pub resource : Option ImportedResources
  pub buffer_ref : Option BufferRef

-- `DeferredReleaseQueue`, oldest item first.
pub record DeferredReleaseQueue : Type 0 where
  pub items : List DeferredItem
  pub failed : List DeferredItem

pub record MappedPublication : Type 0 where
  pub resource : Option ImportedResources
  pub buffer_ref : Option BufferRef
  pub byte_size : ℕ
  pub device_id : ℕ

-- `ReadHandle::Impl`, with the stream 0 for none. Its `deferred_item` is the storage of the item that
-- `release` makes.
pub record Impl : Type 0 where
  pub resource : Option ImportedResources
  pub buffer_ref : Option BufferRef
  pub byte_size : ℕ
  pub device_id : ℕ
  pub consumer_stream : ℕ
  pub completion : Option CompletionEvent

abbrev pub ReadHandle : Type 0
ReadHandle = Option Impl

-- `~CompletionEvent`.
unfoldable pub drop_completion : Option CompletionEvent → M (Unit {0})
unfolding push_current pop
drop_completion none = pure tt
drop_completion (some c) = if c.event == 0 then pure tt else elim c.context [
  | none ↦ pure tt
  | some context ↦ within context (λ _. tt) do perform (cu_event_destroy c.event); pure tt
]

-- The destructor of a `unique_ptr<BufferRef>`.
unfoldable pub drop_ref : Option BufferRef → M (Unit {0})
drop_ref none = pure tt
drop_ref (some r) = λ d m. (tt, record m { store = (release m.store r).0 })

-- A completion that there is something to wait for: its context and its event.
abbrev pub pending : Option CompletionEvent → Option (CudaDeviceContext × ℕ)
pending none = none
pending (some c) =
    if c.event == 0
    then none
    else elim c.context [ none ↦ none | some context ↦ some (context, c.event) ]

-- The part of `DeferredReleaseQueue::run` under the guard.
unfoldable pub finish_current : DeferredItem → ℕ → M Bool
finish_current item event = do
  waited ← perform (cu_event_synchronize event)
  if not (is_ok waited)
      then pure false
      else do drop_completion item.completion; drop_ref item.buffer_ref; pure true

-- `DeferredReleaseQueue::run`, on the item that it has taken, whose completion is given once more:
-- does the item end here? If not, the queue keeps it among the failed ones.
unfoldable pub finish_pending : DeferredItem → Option (CudaDeviceContext × ℕ) → M Bool
unfolding pop
finish_pending item none = do drop_ref item.buffer_ref; drop_completion item.completion; pure true
finish_pending item (some (context, event)) =
    within context (λ _. false) (finish_current item event)

unfoldable pub finish : DeferredItem → M Bool
finish item = finish_pending item (pending item.completion)

-- One turn of the loop of `run`; with no item the worker waits.
unfoldable pub run_item : DeferredReleaseQueue → M DeferredReleaseQueue
run_item q = elim q.items [
  | [] ↦ pure q
  | item ∷ rest ↦ do
    finished ← finish item
    pure (record { items = rest; failed = if finished then q.failed else q.failed ++ (item ∷ []) })
]

-- The loop of `run`, for a number of turns in which no other thread adds an item.
unfoldable pub run : ℕ → DeferredReleaseQueue → M DeferredReleaseQueue
run zero q = pure q
run (suc turns) q = do q' ← run_item q; run turns q'

-- `create_completion_event`.
unfoldable pub create_completion_event : Option CudaDeviceContext → M (Option CompletionEvent)
unfolding push_current pop
create_completion_event none = pure none
create_completion_event (some context) =
    within context (λ _. none)
      do
        event ← perform (cu_event_create disable_timing)
        pure (
            if is_ok event
            then some (record { context = some context; event = event.value })
            else none)

-- `CU_STREAM_LEGACY` and `CU_STREAM_PER_THREAD`.
abbrev pub is_default_stream : ℕ → Bool
is_default_stream stream = stream == 1 || stream == 2

abbrev pub context_of : Option ImportedResources → Option CudaDeviceContext
context_of none = none
context_of (some r) = r.context

-- The device of the current context, under a guard that is made here.
abbrev on_device : ℕ → M (CudaResult ℕ) → M Bool
on_device expected enter = do
  guard ← enter
  elim guard [
    | failure _ ↦ pure false
    | success _ ↦ do
      device ← perform cu_ctx_get_device
      pop
      pure (is_ok device && device.value == expected)
  ]

unfoldable pub validate_stream : Option ImportedResources → ℕ → M Bool
unfolding push_current pop push
validate_stream resource stream = elim (context_of resource) [
  | none ↦ pure true
  | some context ↦
      if is_default_stream stream then on_device context.device_id (push_current context) else do
        stream_context ← perform (cu_stream_get_ctx stream)
        if not (is_ok stream_context)
            then pure false
            else on_device context.device_id (push stream_context.value)
]

wait_event : ℕ → ℕ → M Bool
wait_event stream event = do
  waited ← perform (cu_stream_wait_event stream event)
  pure (is_ok waited)

-- The end of `enqueue_ready_event`: the guard is gone before the stream is made to wait.
unfoldable pub wait_ready : ImportedResources → ℕ → M Bool
unfolding push_current pop wait_event
wait_ready r stream = elim r.context [
  | none ↦ wait_event stream r.event
  | some context ↦ do
    guard ← push_current context
    elim guard [ failure _ ↦ pure false | success _ ↦ do pop; wait_event stream r.event ]
]

unfoldable pub enqueue_ready_event : Option ImportedResources → ℕ → M Bool
enqueue_ready_event resource stream = do
  accepted ← validate_stream resource stream
  if not accepted then pure false else elim resource [
    | none ↦ pure true
    | some r ↦ if r.event == 0 then pure true else wait_ready r stream
  ]

abbrev pub has_ptr : Option ImportedResources → Bool
has_ptr none = false
has_ptr (some r) = not (r.dev_ptr == 0)

abbrev pub is_some : {A : Type 0} → Option A → Bool
is_some none = false
is_some (some _) = true

-- `ReadHandleFactory::make_publication`, whose arguments are destroyed when it refuses.
unfoldable pub make_publication :
    Option ImportedResources → Option BufferRef → ℕ → ℕ → M (Option MappedPublication)
make_publication resource buffer_ref byte_size device_id =
    if has_ptr resource && is_some buffer_ref
    then pure (
        some (record {
          resource = resource;
          buffer_ref = buffer_ref;
          byte_size = byte_size;
          device_id = device_id;
        }))
    else (do drop_ref buffer_ref; pure none)

-- `MappedPublication::valid`.
unfoldable pub publication_valid : MappedPublication → Bool
publication_valid p = has_ptr p.resource && is_some p.buffer_ref

-- The ownership commit of `make_bound`: the handle, and the publication that is left.
abbrev pub bound : MappedPublication → ℕ → Option CompletionEvent → ReadHandle × MappedPublication
bound p stream completion = (
  some (record {
    resource = p.resource;
    buffer_ref = p.buffer_ref;
    byte_size = p.byte_size;
    device_id = p.device_id;
    consumer_stream = stream;
    completion = completion;
  }),
  record p { resource = none; buffer_ref = none },
)

-- `make_bound` once the completion event is made.
unfoldable pub bind_completion :
    MappedPublication → ℕ → Option CompletionEvent → M (ReadHandle × MappedPublication)
bind_completion p stream completion =
    if is_some (context_of p.resource) && not (is_some completion) then pure (none, p) else do
      ready ← enqueue_ready_event p.resource stream
      if ready
          then pure (bound p stream completion)
          else (do drop_completion completion; pure (none, p))

-- `ReadHandleFactory::make_bound`: the handle or nothing, and what is left of the publication.
unfoldable pub make_bound : MappedPublication → ℕ → M (ReadHandle × MappedPublication)
make_bound p stream = if not (publication_valid p) then pure (none, p) else do
  accepted ← validate_stream p.resource stream
  if not accepted then pure (none, p) else do
    completion ← create_completion_event (context_of p.resource)
    bind_completion p stream completion

-- `submit` of `release`. `accepted` says if the queue could take the item; if not, it is leaked.
unfoldable pub submit : Bool → Bool → DeferredItem → DeferredReleaseQueue → DeferredReleaseQueue
submit accepted recorded item q =
    if not accepted
    then q
    else if recorded
    then record q { items = q.items ++ (item ∷ []) }
    else record q { failed = q.failed ++ (item ∷ []) }

abbrev pub item_of : Impl → DeferredItem
item_of h = record { completion = h.completion; resource = h.resource; buffer_ref = h.buffer_ref }

abbrev pub emptied : Impl → Impl
emptied h = record h { resource = none; buffer_ref = none; completion = none }

-- Recording the completion on the consumer's stream.
unfoldable pub record_completion : CudaDeviceContext → ℕ → ℕ → M Bool
unfolding push_current pop
record_completion context event stream =
    within context (λ _. false)
      do recorded ← perform (cu_event_record event stream); pure (is_ok recorded)

-- `ReadHandle::Impl::release` of a handle that has a reference, whose completion is given once more.
unfoldable pub release_pending :
    Bool
    → Impl
    → DeferredReleaseQueue
    → Option (CudaDeviceContext × ℕ)
    → M (Impl × DeferredReleaseQueue)
release_pending accepted h q none = do drop_ref h.buffer_ref; pure (emptied h, q)
release_pending accepted h q (some (context, event)) = do
  recorded ← record_completion context event h.consumer_stream
  pure (record (emptied h) { consumer_stream = 0 }, submit accepted recorded (item_of h) q)

-- `ReadHandle::Impl::release`, which the destructor calls.
unfoldable pub release_read : Bool → Impl → DeferredReleaseQueue → M (Impl × DeferredReleaseQueue)
release_read accepted h q =
    if is_some h.buffer_ref
    then release_pending accepted h q (pending h.completion)
    else pure (h, q)

-- The accessors of `ReadHandle`; the device -1 of an empty handle is `none`.
unfoldable pub valid : ReadHandle → Bool
valid none = false
valid (some h) = has_ptr h.resource && is_some h.buffer_ref

unfoldable pub device_ptr : ReadHandle → ℕ
device_ptr none = 0
device_ptr (some h) = elim h.resource [ none ↦ 0 | some r ↦ r.dev_ptr ]

unfoldable pub byte_size : ReadHandle → ℕ
byte_size none = 0
byte_size (some h) = h.byte_size

unfoldable pub device_id : ReadHandle → Option ℕ
device_id none = none
device_id (some h) = some h.device_id
