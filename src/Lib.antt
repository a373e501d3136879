-- ===== src/Lib.antt =====
-- ros2_cuda_ipc sends GPU buffers between ROS 2 processes without a copy. A publisher takes a
-- block of its pool, writes it on a CUDA stream and sends a message that names the block and a
-- generation of it, the uid. A subscriber counts itself in the block's shared metadata, maps the
-- memory, makes its own stream wait for the publisher's event, and counts itself out when its
-- stream is done.
--
-- The parts, and the files that model them (paths from the repository's root):
--   Metadata, Metadata/Ref: ros2_cuda_ipc_core/src/buffer_metadata/buffer_ref.cpp, each operation
--     of `BufferRef` as a function on the block; Metadata/Protocol has the same code as the atomic
--     instructions of any number of threads, one `thread_step` each, in any order (`run`).
--   Metadata/Object: ros2_cuda_ipc_core/src/buffer_metadata/buffer_metadata.cpp, the shared-memory
--     objects.
--   Cuda, Cuda/Context, Cuda/Event: ros2_cuda_ipc_core/src/detail. The driver and the operating
--     system are not in the repository: a `Driver` is any function from the calls so far and the
--     call to an answer, and the model logs every call. Cuda/Balance reads off the log what is
--     held.
--   Transport: the descriptor and the wire message,
--     ros2_cuda_ipc_core/src/transport/message_utils.cpp.
--   Importer: ros2_cuda_ipc_core/src/backend/memory_importer.cpp.
--   Backend, Backend/Server: ros2_cuda_ipc_core/src/backend/memory_backend.cpp, the GPU memory of
--     the blocks (`make_state` is the body of the loop of `allocate_vmm_fd_memory`) and
--     `UnixFdServer`. Laws counts what is held, Mapped follows the mappings.
--   Pool/Setup, Pool/Teardown: `initialise` and `destroy_blocks` of
--     ros2_cuda_ipc_core/src/publisher/gpu_buffer_pool.cpp. Setup/Laws, Allocated, Kept and
--     Initialise follow what is held; Store, Numbered, Ready and Live what the blocks are like.
--   Pool, Manager: ros2_cuda_ipc_core/src/publisher. `Pool.reserve_for_publish` is the round-robin
--     search, `Manager.prepare_publish` records the ready event, describes and commits.
--   Subscriber/ReadHandle: ros2_cuda_ipc_core/src/subscriber/read_handle.cpp, with the worker that
--     ends reads (`run_item` is one turn of its loop). Subscriber/MetadataCache:
--     ros2_cuda_ipc_core/src/subscriber/buffer_metadata_cache.cpp; Subscriber/HandleCache,
--     Subscriber/Mapper: ipc_handle_cache.cpp and buffer_mapper.cpp beside it. Importer/Memory:
--     what imports leave alone.
--   Image, PointCloud2: ros2_cuda_ipc_image and ros2_cuda_ipc_pointcloud2, the typed messages.
--   Reader: ros2_cuda_ipc_image/src/image_reader.cpp and
--     ros2_cuda_ipc_pointcloud2/src/pointcloud2_reader.cpp.
--   ImageTransport: utils/gpu_image_transport/src/gpu_image_transport_base.cpp and
--     gpu_image_transport.cpp.
--   Dlpack, Dlpack/Producer:
--     ros2_cuda_ipc_py/include/ros2_cuda_ipc_py/dlpack/image_tensor_descriptor.hpp, and from
--     ros2_cuda_ipc_py/src/native_module.cpp the check of a message and `PyDLPackImage`;
--     Dlpack/Capsule has the deleters and the destructor of its capsules.
--   Descriptor: the dictionary of an image message, made by
--     ros2_cuda_ipc_py/ros2_cuda_ipc_py/_descriptor.py and read by
--     ros2_cuda_ipc_py/src/native_module.cpp; Descriptor/Value has the Python values, Typed the
--     types of the fields, Values and Read what the native module makes of a dictionary.
--   Fanout: examples/multi_process_image_fanout/src/cuda/kernels.cu. Fanout/Kernels has one
--     function per kernel, which does what one thread does to device memory, where an access out
--     of bounds is a fault (`none`); `run` is a launch, the threads of a grid in some order;
--     Fanout/Launch has the launchers. Schedule and Plane hold for any order, Threads gives one;
--     Luma, Pattern, Gray and Checksum say what each kernel leaves, and Stats the kernels of the
--     statistics. Fanout/Runtime is the CUDA runtime, as any function from the calls so far to an
--     answer.
--   Fanout/Encoder, Fanout/Encoder/Callback:
--     examples/multi_process_image_fanout/src/encoder_like_node.cpp, the state of the node and
--     what it does with a message.
--   Base has the shared names, Boolean tests and lists; Tests applies the theorems at concrete
--     inputs.
--
-- Numbers are native naturals; the 32-, 64- and 128-bit arithmetic that can wrap around is written
-- with its modulus. There is no fuel: loops run over lists or over the number of blocks, the loop
-- of `acquire` over the number of its spurious failures, and the workers over the number of their
-- turns; ten and twenty digits print any number of 32 and of 64 bits. The memory is sequentially
-- consistent, which is stronger than the orders that the code asks for.
--
-- A thread of a kernel is one step: but for the atomic updates of a sum, a minimum or a maximum, no
-- thread reads what another one writes.
--
-- Not modelled: exceptions of the allocator and of threads; `fcntl`, logging and tracing; the
-- wrapper classes of the Python module, which are calls of the Python C interface; the other
-- example nodes, the compressed image transport, which calls OpenCV, and the experiments of
-- utils/cuda_ipc_poc.
mod Base
pub mod Metadata
pub mod Cuda
pub mod Transport
pub mod Importer
pub mod Backend
pub mod Pool
pub mod Subscriber
pub mod Fanout
pub mod Image
pub mod PointCloud2
pub mod Reader
pub mod ImageTransport
pub mod Dlpack
pub mod Descriptor
pub mod Manager
mod Tests
