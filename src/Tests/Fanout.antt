-- ===== src/Tests/Fanout.antt =====
-- Small images for the kernels and the encoder node of examples/multi_process_image_fanout.
use ros2_cuda_ipc.Base.{
  ℕ, ◌+◌, ◌-◌, ◌*◌, ◌/◌, ◌%◌, ◌≤◌, ◌<◌, ◌≡◌, refl, ◌⊎◌, ◌↔◌, true, none, some, [], arith, u32_mod,
  u64_mod,
}
use ros2_cuda_ipc.Subscriber.ReadHandle.{byte_size}
use ros2_cuda_ipc.Subscriber.ReadHandle
use ros2_cuda_ipc.Image.{u8, Triple, ImageReadHandle, elem_size_bytes, sanity_check}
use ros2_cuda_ipc.Image
use ros2_cuda_ipc.Fanout.{Buffer, run}
use ros2_cuda_ipc.Fanout.Checksum.{weighted_sum, run-weighted_sum}
use ros2_cuda_ipc.Fanout.Encoder.{EncoderLikeNode, acceptable, is_supported_rgba8_layout}
use ros2_cuda_ipc.Fanout.Encoder.Accounts.{AccountsFor, lost}
use ros2_cuda_ipc.Fanout.Encoder.Accounts.Callback.{on_message-Accounts}
use ros2_cuda_ipc.Fanout.Encoder.Callback.{on_image, on_message}
use ros2_cuda_ipc.Fanout.Encoder.Invariant.{on_message-IsSound}
use ros2_cuda_ipc.Fanout.Encoder.Sound.{IsSound}
use ros2_cuda_ipc.Fanout.Encoder.Published.{Publishes, checksum_of}
use ros2_cuda_ipc.Fanout.Encoder.Status.{IsProcessable, on_image-Publishes}
use ros2_cuda_ipc.Fanout.Kernels.{
  checksum_u8_kernel, linear_grid, plane_grid, generate_rgba_pattern_kernel,
  rgba_to_luma_downscale2_kernel,
}
use ros2_cuda_ipc.Fanout.Linear.{sum, linear_grid-covers}
use ros2_cuda_ipc.Fanout.Luma.{IsBytes, HasPixels, downscaled, run-downscaled}
use ros2_cuda_ipc.Fanout.Pattern.{pattern, run-pattern}
use ros2_cuda_ipc.Fanout.Plane.{HoldsPlane}
use ros2_cuda_ipc.Fanout.Runtime.{Runtime, memory}
use ros2_cuda_ipc.Fanout.Stats.{
  Floats, DeviceInferenceStats, inference_stats_accumulate_kernel, host_init,
}
use ros2_cuda_ipc.Fanout.Stats.Order.{run-statistics}
use ros2_cuda_ipc.Fanout.Threads.{threads, threads-IsSchedule}
use ros2_cuda_ipc.Tests.Typed.{handle}
use Prim.Native.String.{String}

-- Four rows of four pixels, in rows of 20 bytes.
abbrev pixels : Buffer
pixels = record { size = 120; at = λ a. a % 256 }

abbrev blank : Buffer
blank = record { size = 120; at = λ a. 0 }

pixels-IsBytes : IsBytes pixels
pixels-IsBytes a = omega arith

pixels-HasPixels : HasPixels 4 4 20 pixels
pixels-HasPixels = record { size_max = omega arith; inside = λ x y p q. omega (arith, p, q) }

blank-HasPixels : HasPixels 4 4 20 blank
blank-HasPixels = record { size_max = omega arith; inside = λ x y p q. omega (arith, p, q) }

run-downscaled_example : HoldsPlane 2 2 (downscaled pixels 20) blank (
    run
      (rgba_to_luma_downscale2_kernel (plane_grid 2 2) pixels 4 4 20)
      (threads (plane_grid 2 2))
      blank)
run-downscaled_example =
    run-downscaled 4 4 20 pixels pixels-HasPixels pixels-IsBytes (omega arith) (omega arith) blank
      (threads (plane_grid 2 2)) (omega arith) (threads-IsSchedule (plane_grid 2 2))

run-weighted_sum_example :
    run (checksum_u8_kernel (linear_grid 100) pixels 100) (threads (linear_grid 100)) 0
    ≡ some (weighted_sum (λ a. a % 256) 100 % u64_mod)
run-weighted_sum_example =
    run-weighted_sum pixels 100 (omega arith) (omega arith) (threads (linear_grid 100))
      (omega arith) (omega arith) (threads-IsSchedule (linear_grid 100))

run-pattern_example :
    (o : Buffer) × (run
        (generate_rgba_pattern_kernel (plane_grid 4 4) 4 4 20 7)
        (threads (plane_grid 4 4))
        blank
      ≡ some o)
    × (o.size ≡ 120)
    × ((x y c : ℕ) → x < 4 → y < 4 → c < 4 → o.at (y * 20 + x * 4 + c) ≡ pattern 7 x y c)
    × ((a : ℕ) → (4 * 4 ≤ a % 20) ⊎ (4 ≤ a / 20) → o.at a ≡ 0)
run-pattern_example =
    run-pattern 4 4 20 7 (omega arith) (omega arith) (omega arith) blank (threads (plane_grid 4 4))
      blank-HasPixels (threads-IsSchedule (plane_grid 4 4))

linear_grid-covers_example :
    (4294967296 ≤ (linear_grid 4294967296).grid_x * 256) ↔ (4294967296 ≤ u32_mod - 256)
linear_grid-covers_example = linear_grid-covers 4294967296 (omega arith)

abbrev pub rgba : ImageReadHandle String
rgba = record {
  header = "camera";
  read = some handle;
  shape = record { first = 4; second = 4; third = 4 };
  strides = record { first = 20; second = 4; third = 1 };
  dtype = u8;
  encoding = "rgba8";
}

rgba-acceptable : acceptable rgba ≡ true
unfolding acceptable is_supported_rgba8_layout sanity_check Image.valid Image.fits
    Image.needed_bytes elem_size_bytes ReadHandle.valid byte_size
rgba-acceptable = refl

rgba-IsProcessable : IsProcessable rgba pixels
unfolding byte_size
rgba-IsProcessable = record {
  typed = record {
    first_max = omega arith;
    second_max = omega arith;
    third_max = omega arith;
    first_stride_max = omega arith;
    second_stride_max = omega arith;
    third_stride_max = omega arith;
  };
  mapped = refl;
  size_max = omega arith;
  bytes = pixels-IsBytes;
  wide = omega arith;
  high = omega arith;
  pixels_max = omega arith;
  accepted = rgba-acceptable;
}

abbrev pub runtime : Runtime
runtime = record {
  reply = λ l c. record { code = 0; value = 1 };
  contents = λ l a. 0;
  schedule = λ l g. threads g;
}

abbrev node : EncoderLikeNode
node = record {
  stream = some 1;
  device_luma = none;
  device_checksum = some 3;
  current_device_id = 0;
  output_width = 0;
  output_height = 0;
  output_pixel_count = 0;
  received = 9;
  host_checksum = 0;
}

on_image-Publishes_example :
    Publishes 10 2 2
      (checksum_of 2 2 (downscaled pixels 20))
      0
      (on_image rgba (some pixels) node runtime [])
on_image-Publishes_example =
    on_image-Publishes runtime (λ l g. threads-IsSchedule g) rgba pixels node [] rgba-IsProcessable
      refl (refl, refl, tt)

abbrev fresh_node : EncoderLikeNode
fresh_node = record node { stream = none; device_checksum = none }

on_message-Accounts_example :
    AccountsFor memory
      (0 + lost runtime fresh_node 0 [])
      (on_message 0 (λ s. some (rgba, some pixels)) fresh_node runtime [])
on_message-Accounts_example =
    on_message-Accounts runtime memory 0 0 (λ s. some (rgba, some pixels)) fresh_node []
      (omega arith, omega arith, refl)

on_message-IsSound_example :
    IsSound (on_message 0 (λ s. some (rgba, some pixels)) fresh_node runtime []).0.1
on_message-IsSound_example =
    on_message-IsSound runtime 0 (λ s. some (rgba, some pixels)) fresh_node [] (refl, refl, tt)

-- Numbers in place of floats.
abbrev numbers : Floats ℕ
numbers = record {
  zero = 0;
  add = λ a b. a + b;
  as_uint = λ a. a;
  divided = λ a n. a / n;
  quantized = λ a. a * 257;
}

run-statistics_example :
    (s : DeviceInferenceStats ℕ) × (run
        (inference_stats_accumulate_kernel numbers (linear_grid 100) pixels 100)
        (threads (linear_grid 100))
        (host_init numbers)
      ≡ some s)
    × ((i : ℕ) → i < 100 → (s.min_bits ≤ i % 256) × (i % 256 ≤ s.max_bits))
    × ((s.min_bits ≡ 2139095040) ⊎ ((i : ℕ) × (i < 100) × (s.min_bits ≡ i % 256)))
    × ((s.max_bits ≡ 0) ⊎ ((i : ℕ) × (i < 100) × (s.max_bits ≡ i % 256)))
    × (s.checksum ≡ sum 100 (λ i. i % 256 * 257 * (i % 251 + 1)) % u64_mod)
run-statistics_example =
    run-statistics numbers pixels 100 (omega arith) (threads (linear_grid 100)) (omega arith)
      (omega arith) (threads-IsSchedule (linear_grid 100))
