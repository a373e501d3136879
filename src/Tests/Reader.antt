-- ===== src/Tests/Reader.antt =====
-- Reading an image message of the block of Subscriber.
use ros2_cuda_ipc.Base.{◌≡◌, some, [], true, arith}
use ros2_cuda_ipc.Image.{to_dtype, Triple, GpuImage, ImageReadHandle, from_message}
use ros2_cuda_ipc.Image.Accept.{IsTyped, Readable, image_of}
use ros2_cuda_ipc.Reader.{read_image}
use ros2_cuda_ipc.Reader.Kept.{Passed, read_image-Passed}
use ros2_cuda_ipc.Subscriber.ReadHandle.{ReadHandle}
use ros2_cuda_ipc.Tests.Subscriber.{willing, machine, empty_queue, attach, memory, message}
use Prim.Native.String.{String}

abbrev shape : Triple
shape = record { first = 2; second = 10; third = 3 }

abbrev strides : Triple
strides = record { first = 60; second = 6; third = 2 }

abbrev image : GpuImage String
image = record {
  header = "camera";
  dtype = 1;
  shape = shape;
  strides = strides;
  core = message;
  encoding = "rgb16";
}

typed : IsTyped shape strides
typed = record {
  first_max = omega arith;
  second_max = omega arith;
  third_max = omega arith;
  first_stride_max = omega arith;
  second_stride_max = omega arith;
  third_stride_max = omega arith;
}

read_image-Passed_example :
    let ((result, cache', l'), m') =
      read_image attach 0 (λ c. c) (λ c. c) true image 3 empty_queue [] [] willing machine in
    Passed memory 8 (from_message image) true empty_queue (result, m')
    × ((v : ImageReadHandle String)
        → result.0 ≡ some v
        → (read : ReadHandle) × (v ≡ image_of image read)
          × Readable (to_dtype 1) shape strides read)
read_image-Passed_example =
    read_image-Passed attach 0 (λ c. c) (λ c. c) true image 3 empty_queue [] [] willing machine
      (λ i. omega arith) typed
