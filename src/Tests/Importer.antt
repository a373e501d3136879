-- ===== src/Tests/Importer.antt =====
-- The importer and the CUDA wrappers against concrete drivers.
use ros2_cuda_ipc.Base.{◌<◌, ◌≡◌, refl, true, false, some, none, [], arith}
use ros2_cuda_ipc.Metadata.{fresh_block}
use ros2_cuda_ipc.Cuda.{cu_ipc_open_event_handle, Driver, Machine}
use ros2_cuda_ipc.Cuda.Balance.{mapping, Keeps, Moves}
use ros2_cuda_ipc.Cuda.Context.{CudaDeviceContext, push_current}
use ros2_cuda_ipc.Cuda.Laws.{if_success}
use ros2_cuda_ipc.Transport.{BufferCore}
use ros2_cuda_ipc.Importer.{
  ImportedResources, import_resources, release_imported_resources, mapped_size,
}
use ros2_cuda_ipc.Importer.Laws.{
  if_some, of_import, of_release, import_resources-Keeps, release_imported_resources-Moves,
}
use ros2_cuda_ipc.Importer.Size.{mapped_size_short}

-- Every call succeeds and hands back 4; but no event can be opened.
abbrev willing : Driver
willing log c = record { code = 0; value = 4; bytes = []; attached = true }

abbrev no_events : Driver
no_events log (cu_ipc_open_event_handle _) = record {
  code = 400;
  value = 0;
  bytes = [];
  attached = false;
}
no_events log _ = record { code = 0; value = 4; bytes = []; attached = true }

abbrev machine : Machine
machine = record { log = []; store = λ _. fresh_block; driver_status = none; backend_status = none }

abbrev message : BufferCore
message = record {
  vmm_socket_path = "/tmp/cuda_memory_pool_0.sock";
  event_handle = [];
  publisher_pid = 12;
  device_id = 0;
  block_id = 3;
  uid = 8;
  byte_size = 1000;
}

abbrev context0 : CudaDeviceContext
context0 = record { device_id = 0; device = 4; context = 4 }

abbrev imported0 : ImportedResources
imported0 = record {
  dev_ptr = 4;
  event = 4;
  context = some context0;
  vmm_address = 4;
  vmm_allocation = 4;
  allocation_size = 1000;
}

import_resources-Keeps_example :
    let result = import_resources message no_events machine in
    Keeps (of_import mapping (if_some result.0)) mapping [] result.1.log
import_resources-Keeps_example = import_resources-Keeps no_events message machine mapping

release_imported_resources-Moves_example :
    let pushed = if_success (push_current context0 willing machine).0 in
    let result = release_imported_resources imported0 willing machine in
    Moves 0 (of_release mapping pushed) mapping [] result.1.log × (pushed ≡ 0 → result.0 ≡ false)
release_imported_resources-Moves_example =
    release_imported_resources-Moves willing machine imported0 context0 mapping refl (omega arith)
      (omega arith) (omega arith) (omega arith)

-- A granule of 2 MiB.

-- The largest size that a message can announce is mapped as one granule.
mapped_size_short_example : mapped_size 18446744073709551615 2097152 < 18446744073709551615
mapped_size_short_example =
    mapped_size_short 18446744073709551615 2097152 (omega arith) (omega arith) (omega arith)
      (omega arith) (omega arith)
