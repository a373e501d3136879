-- ===== src/Fanout/Encoder/Image.antt =====
-- Which images `on_image` of src/encoder_like_node.cpp and of src/inference_like_node.cpp let through:
-- every pixel that the kernels read is inside of the publication.
use ros2_cuda_ipc.Base.{◌*◌, ◌≤◌, ◌≡◌, ap, true, arith, u64_max}
use ros2_cuda_ipc.Subscriber.ReadHandle.{byte_size}
use ros2_cuda_ipc.Image.{DType, elem_size_bytes, ImageReadHandle, sanity_check}
use ros2_cuda_ipc.Image.Accept.{IsTyped, sanity_check-Readable}
use ros2_cuda_ipc.Fanout.{Buffer}
use ros2_cuda_ipc.Fanout.Encoder.{acceptable, is_u8, is_supported_rgba8_layout}
use ros2_cuda_ipc.Fanout.Luma.{HasPixels}

one_byte : (x : DType) → is_u8 x ≡ true → elem_size_bytes x ≡ 1
unfolding elem_size_bytes
one_byte x h = ground arith

pub acceptable-HasPixels :
    {Header : Type 0} (view : ImageReadHandle Header) (memory : Buffer)
    → IsTyped view.shape view.strides
    → byte_size view.read ≤ u64_max
    → memory.size ≡ byte_size view.read
    → acceptable view ≡ true
    → HasPixels view.shape.second view.shape.first view.strides.first memory
unfolding acceptable is_supported_rgba8_layout
acceptable-HasPixels view memory typed most mapped ok =
    let checked : sanity_check view ≡ true = ground (arith, ok) in
    let (valid, known, first, second, third, within) = sanity_check-Readable view typed checked in
    let unit = one_byte view.dtype (ground (arith, ok)) in
    let channel : view.strides.third ≡ 1 = ground (arith, ok) in
    let pixel : view.strides.second ≡ 4 = ground (arith, ok) in
    let four : view.shape.third ≡ 4 = ground (arith, ok) in
    record {
      size_max = omega (arith, most, mapped);
      inside = λ x y p q. omega (
        arith,
        within y x 3 q p (omega (arith, four)),
        unit,
        ap (λ n. x * n) pixel,
        ap (λ n. 3 * n) channel,
        mapped,
      );
    }
