-- ===== src/Tests/ImageTransport.antt =====
-- The small image of Fanout, published by a node of utils/gpu_image_transport.
use ros2_cuda_ipc.Base.{◌%◌, refl, none, [], arith}
use ros2_cuda_ipc.ImageTransport.{GpuImageTransportNode, on_image}
use ros2_cuda_ipc.ImageTransport.Frames.{Ended, on_image-Ended}
use ros2_cuda_ipc.Tests.Fanout.{rgba, runtime}

abbrev node : GpuImageTransportNode
node = record { stream = 3; pinned_host_buffer = none; pinned_host_capacity = 0 }

on_image-Ended_example :
    Ended rgba (λ a. a % 256) [] (on_image (λ n. "4") rgba (λ a. a % 256) node runtime [])
on_image-Ended_example =
    on_image-Ended (λ n. "4") rgba (λ a. a % 256) runtime node [] refl (omega arith)
