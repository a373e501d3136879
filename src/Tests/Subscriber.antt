-- ===== src/Tests/Subscriber.antt =====
-- A read from its binding to the end of its reference.
use ros2_cuda_ipc.Subscriber.Mapper.{map_descriptor}
use ros2_cuda_ipc.Subscriber.Mapper.Kept.{Mapped, map_descriptor-Mapped}
use ros2_cuda_ipc.Transport.{BufferCore}
use ros2_cuda_ipc.Base.{Bool, List, arith}
use ros2_cuda_ipc.Base.{ℕ, Option, suc, ◌≡◌, refl, ◌⊎◌, true, some, none, [], ◌∷◌}
use ros2_cuda_ipc.Metadata.{BlockMetadata, Mapping, Store}
use ros2_cuda_ipc.Metadata.Ref.{BufferRef}
use ros2_cuda_ipc.Subscriber.MetadataCache.{get_or_attach}
use ros2_cuda_ipc.Subscriber.MetadataCache.Fresh.{Fetched, get_or_attach-Fetched}
use ros2_cuda_ipc.Cuda.{Driver, Machine}
use ros2_cuda_ipc.Cuda.Context.{CudaDeviceContext}
use ros2_cuda_ipc.Importer.{ImportedResources}
use ros2_cuda_ipc.Subscriber.ReadHandle.{
  CompletionEvent, DeferredReleaseQueue, MappedPublication, Impl, drop_ref, run_item, release_read,
  item_of, make_bound,
}
use ros2_cuda_ipc.Subscriber.ReadHandle.{run}
use ros2_cuda_ipc.Subscriber.ReadHandle.Drain.{Drained, run-Drained}
use ros2_cuda_ipc.Subscriber.ReadHandle.Release.{
  completions, recordings, Submitted, run_item-Waits, release_read-Defers,
}
use ros2_cuda_ipc.Subscriber.ReadHandle.Binding.{Bound, make_bound-Bound}

-- Every call succeeds and hands back 0, the number of the device.
abbrev pub willing : Driver
willing log c = record { code = 0; value = 0; bytes = []; attached = true }

abbrev one_reader : BlockMetadata
one_reader = record { uid = 8; refcount = 1; publish_timestamp_us = 500 }

abbrev pub machine : Machine
machine = record { log = []; store = λ _. one_reader; driver_status = none; backend_status = none }

abbrev context0 : CudaDeviceContext
context0 = record { device_id = 0; device = 4; context = 4 }

abbrev reference : BufferRef
reference = record {
  mapping = some (record { address = 1; shm_name = "/ros2_cuda_ipc_12_3"; block = 3 });
  block_meta = some 3;
  uid = 8;
}

abbrev resources : ImportedResources
resources = record {
  dev_ptr = 4096;
  event = 5;
  context = some context0;
  vmm_address = 4096;
  vmm_allocation = 4;
  allocation_size = 2097152;
}

abbrev publication : MappedPublication
publication = record {
  resource = some resources;
  buffer_ref = some reference;
  byte_size = 1000;
  device_id = 0;
}

-- On the legacy stream.
make_bound-Bound_example :
    Bound publication resources 1 machine (make_bound publication 1 willing machine)
make_bound-Bound_example = make_bound-Bound 1 willing publication resources refl machine

abbrev completion : CompletionEvent
completion = record { context = some context0; event = 9 }

abbrev handle : Impl
handle = record {
  resource = some resources;
  buffer_ref = some reference;
  byte_size = 1000;
  device_id = 0;
  consumer_stream = 1;
  completion = some completion;
}

abbrev pub empty_queue : DeferredReleaseQueue
empty_queue = record { items = []; failed = [] }

release_read-Defers_example :
    let ((h', q'), m') = release_read true handle empty_queue willing machine in
    (m'.store ≡ machine.store)
    × Submitted true
        (item_of handle)
        empty_queue
        q'
        (recordings 9 1 m'.log ≡ suc (recordings 9 1 []))
    × (release_read true h' q' willing m' ≡ ((h', q'), m'))
release_read-Defers_example =
    release_read-Defers true true handle empty_queue reference context0 9 willing machine refl refl

abbrev full_queue : DeferredReleaseQueue
full_queue = record { items = item_of handle ∷ []; failed = [] }

run_item-Waits_example :
    let (q', m') = run_item full_queue willing machine in
    (q'.items ≡ [])
    × (((q'.failed ≡ [])
          × (m'.store ≡ (drop_ref (some reference) willing machine).1.store)
          × (completions 9 m'.log ≡ suc (completions 9 [])))
        ⊎ ((q'.failed ≡ item_of handle ∷ []) × (m'.store ≡ machine.store)))
run_item-Waits_example =
    run_item-Waits full_queue (item_of handle) [] context0 9 willing machine refl refl

-- An empty cache, and an attempt to attach that finds the object.
abbrev shared : Mapping
shared = record { address = 1; shm_name = "/ros2_cuda_ipc_12_3"; block = 3 }

abbrev pub attach : ℕ → ℕ → Option Mapping
attach pid block = some shared

abbrev pub memory : Store
memory i = one_reader

get_or_attach-Fetched_example :
    Fetched
      (some shared)
      memory
      memory
      memory
      12
      3
      8
      (get_or_attach attach memory memory memory 12 3 8 (λ c. c) [])
get_or_attach-Fetched_example =
    get_or_attach-Fetched memory memory memory 12 3 8 attach (λ c. c) [] (λ c u. u) tt

abbrev pub message : BufferCore
message = record {
  vmm_socket_path = "/tmp/cuda_memory_pool_0.sock";
  event_handle = [];
  publisher_pid = 12;
  device_id = 0;
  block_id = 3;
  uid = 8;
  byte_size = 1000;
}

map_descriptor-Mapped_example :
    let result = map_descriptor attach 0 message (λ c. c) (λ c. c) [] [] willing machine in
    Mapped memory 8 result.0.0 result.1.store
map_descriptor-Mapped_example =
    map_descriptor-Mapped attach 0 message (λ c. c) (λ c. c) [] [] willing machine
      (λ i. omega arith)

run-Drained_example :
    (ended : List Bool) × Drained full_queue
      (item_of handle ∷ [])
      machine
      ended
      (run 1 full_queue willing machine)
run-Drained_example = run-Drained full_queue willing machine
