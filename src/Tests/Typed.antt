-- ===== src/Tests/Typed.antt =====
-- An image of two rows, a point cloud of two points, and their way to DLPack.
use ros2_cuda_ipc.Base.{
  ◌≤◌, ◌≡◌, refl, ◌⊎◌, true, false, some, none, [], ◌∷◌, All, arith, if◌then◌else◌,
}
use ros2_cuda_ipc.Metadata.{fresh_block}
use ros2_cuda_ipc.Metadata.Ref.{BufferRef}
use ros2_cuda_ipc.Cuda.{Driver, Machine}
use ros2_cuda_ipc.Cuda.Context.{CudaDeviceContext}
use ros2_cuda_ipc.Transport.{BufferDescriptor, fill_buffer_core_message}
use ros2_cuda_ipc.Importer.{ImportedResources}
use ros2_cuda_ipc.Subscriber.ReadHandle.{
  Impl, ReadHandle, MappedPublication, DeferredReleaseQueue, byte_size,
}
use ros2_cuda_ipc.Subscriber.ReadHandle
use ros2_cuda_ipc.Image.{
  DType, u8, u16, to_dtype, elem_size_bytes, Triple, GpuImage, ImageReadHandle, from_message,
  fill_gpu_image_message, sanity_check,
}
use ros2_cuda_ipc.Image
use ros2_cuda_ipc.Image.Accept.{
  IsTyped, Readable, image_of, from_message-Readable, from_message-fill,
}
use ros2_cuda_ipc.PointCloud2.{Field, PointCloud2ReadHandle, accepts, fill_gpu_pointcloud2_message}
use ros2_cuda_ipc.PointCloud2
use ros2_cuda_ipc.PointCloud2.Accept.{InPoint, InCloud, accepts-InCloud}
use ros2_cuda_ipc.Dlpack.{
  ImageTensorDescriptor, ProjectError, projected, refused, project_to_tensor,
  validate_image_descriptor,
}
use ros2_cuda_ipc.Dlpack.Project.{
  Describes, project_to_tensor-Describes, validate_image_descriptor-from_message,
}
use ros2_cuda_ipc.Dlpack.Producer.{available, PyDlPackImage, dlpack}
use ros2_cuda_ipc.Dlpack.Producer.Once.{Ended, dlpack-Ended}
use Prim.Native.String.{String}

abbrev context0 : CudaDeviceContext
context0 = record { device_id = 0; device = 4; context = 4 }

abbrev reference : BufferRef
reference = record {
  mapping = some (record { address = 1; shm_name = "/ros2_cuda_ipc_12_3"; block = 3 });
  block_meta = some 3;
  uid = 8;
}

abbrev resources : ImportedResources
resources = record {
  dev_ptr = 4096;
  event = 5;
  context = some context0;
  vmm_address = 4096;
  vmm_allocation = 4;
  allocation_size = 2097152;
}

abbrev pub handle : Impl
handle = record {
  resource = some resources;
  buffer_ref = some reference;
  byte_size = 120;
  device_id = 0;
  consumer_stream = 1;
  completion = none;
}

abbrev descriptor : BufferDescriptor
descriptor = record {
  publisher_pid = 12;
  block_id = 3;
  uid = 8;
  device_id = 0;
  byte_size = 120;
  vmm_socket_path = "/tmp/cuda_memory_pool_0.sock";
  ready_event_handle = [];
}

-- Two rows of ten pixels of three 16-bit channels.
abbrev shape : Triple
shape = record { first = 2; second = 10; third = 3 }

abbrev strides : Triple
strides = record { first = 60; second = 6; third = 2 }

abbrev image : ImageReadHandle String
image = record {
  header = "camera";
  read = some handle;
  shape = shape;
  strides = strides;
  dtype = u16;
  encoding = "rgb16";
}

abbrev message : GpuImage String
message = record {
  header = "camera";
  dtype = 1;
  shape = shape;
  strides = strides;
  core = fill_buffer_core_message descriptor;
  encoding = "rgb16";
}

abbrev typed : IsTyped shape strides
typed = record {
  first_max = omega arith;
  second_max = omega arith;
  third_max = omega arith;
  first_stride_max = omega arith;
  second_stride_max = omega arith;
  third_stride_max = omega arith;
}

short : byte_size (some handle) ≤ 18446744073709551615
unfolding byte_size
short = omega arith

from_message-Readable_example :
    ((from_message message (some handle) ≡ some (image_of message (some handle)))
      × Readable (to_dtype 1) shape strides (some handle))
    ⊎ ((from_message message (some handle) ≡ none)
        × ¬ Readable (to_dtype 1) shape strides (some handle))
from_message-Readable_example = from_message-Readable message (some handle) typed short

checked : sanity_check image ≡ true
unfolding sanity_check Image.valid Image.fits Image.needed_bytes elem_size_bytes ReadHandle.valid
    byte_size
checked = refl

from_message-fill_example :
    from_message (fill_gpu_image_message descriptor image) (some handle) ≡ some image
from_message-fill_example = from_message-fill descriptor image checked

-- One row of two points of 16 bytes, with three floats in each.
abbrev xyz : Field
xyz = record { name = "xyz"; offset = 0; datatype = 7; count = 3 }

abbrev cloud : PointCloud2ReadHandle String
cloud = record {
  header = "lidar";
  read = some handle;
  height = 1;
  width = 2;
  point_step = 16;
  row_step = 32;
  is_dense = true;
  fields = xyz ∷ [];
}

cloud_accepted : accepts cloud ≡ true
unfolding accepts PointCloud2.valid PointCloud2.needed_bytes PointCloud2.fields_fit
    PointCloud2.field_fits PointCloud2.element_size ReadHandle.valid byte_size
cloud_accepted = refl

accepts-InCloud_example :
    (ReadHandle.valid (some handle) ≡ true)
    × All (InPoint 16) (xyz ∷ [])
    × All (InCloud 1 2 16 32 (byte_size (some handle))) (xyz ∷ [])
accepts-InCloud_example =
    accepts-InCloud cloud
      (record {
        height_max = omega arith;
        width_max = omega arith;
        point_step_max = omega arith;
        row_step_max = omega arith;
        count_max = (omega arith, tt);
      })
      cloud_accepted

project_to_tensor-Describes_example :
    let result = project_to_tensor u16 shape strides 4096 120 0 in
    ((t : ImageTensorDescriptor) × (result ≡ projected t)
      × Describes (elem_size_bytes u16) shape strides 4096 120 t)
    ⊎ ((e : ProjectError) × (result ≡ refused e))
project_to_tensor-Describes_example =
    project_to_tensor-Describes u16 shape strides 4096 120 0 typed (omega arith)

valid_read : ReadHandle.valid (some handle) ≡ true
unfolding ReadHandle.valid
valid_read = refl

announced : byte_size (some handle) ≡ (fill_buffer_core_message descriptor).byte_size
unfolding byte_size fill_buffer_core_message
announced = refl

validate_image_descriptor-from_message_example :
    from_message message (some handle)
    ≡ (if validate_image_descriptor message then some (image_of message (some handle)) else none)
validate_image_descriptor-from_message_example =
    validate_image_descriptor-from_message message (some handle) valid_read announced

abbrev willing : Driver
willing log c = record { code = 0; value = 0; bytes = []; attached = true }

abbrev machine : Machine
machine = record { log = []; store = λ _. fresh_block; driver_status = none; backend_status = none }

abbrev publication : MappedPublication
publication = record {
  resource = some resources;
  buffer_ref = some reference;
  byte_size = 120;
  device_id = 0;
}

abbrev producer : PyDlPackImage
producer = record {
  publication = some publication;
  state = available;
  byte_size = 120;
  device_id = 0;
  shape = shape;
  strides = strides;
  dtype = u16;
}

abbrev empty_queue : DeferredReleaseQueue
empty_queue = record { items = []; failed = [] }

dlpack-Ended_example :
    Ended willing true false producer empty_queue publication machine
      (dlpack true true false producer empty_queue 1 true willing machine)
dlpack-Ended_example =
    dlpack-Ended true true false producer empty_queue publication resources refl refl willing 1 true
      machine
