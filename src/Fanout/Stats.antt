-- ===== src/Fanout/Stats.antt =====
-- The statistics kernels and their launcher in src/cuda/kernels.cu, for any arithmetic on `float`.
pub mod Order
use ros2_cuda_ipc.Base.{
  ℕ, ◌+◌, ◌*◌, ◌%◌, Bool, not, ◌||◌, Option, none, some, List, leb, ltb, ◌==◌, if◌then◌else◌,
  u64_mod,
}
use ros2_cuda_ipc.Fanout.{Array, Grid, Thread, load}
use ros2_cuda_ipc.Fanout.Kernels.{linear_grid, linear_index, ◌>>=?◌}
use ros2_cuda_ipc.Fanout.Launch.{Launched, failed, faulted, finished, launch}
use ros2_cuda_ipc.Fanout.Runtime.{
  Rt, pure, ◌>>=◌, perform, is_ok, invalid_value, cuda_memcpy_to_device,
}
use Prim.Native.Nat.{min, max}

-- What the kernels use of `float`: 0, the sum, `__float_as_uint`, the mean of a count, and the
-- `uint64_t` of `__float2int_rn(value * 65535.0f)`.
pub record Floats (Float : Type 0) : Type 0 where
  pub zero : Float
  pub add : Float → Float → Float
  pub as_uint : Float → ℕ
  pub divided : Float → ℕ → Float
  pub quantized : Float → ℕ

-- `DeviceInferenceStats`. The two extremes are kept by their bits.
pub record DeviceInferenceStats (Float : Type 0) : Type 0 where
  pub mean : Float
  pub min_bits : ℕ
  pub max_bits : ℕ
  pub checksum : ℕ

-- The bits of infinity.
abbrev pub infinity : ℕ
infinity = 2139095040

module _ {Float : Type 0} (floats : Floats Float) where
  -- The four atomic operations of a thread are on four numbers, each of which every thread changes once.
  unfoldable pub inference_stats_accumulate_kernel :
      Grid
      → Array Float
      → ℕ
      → Thread
      → DeviceInferenceStats Float
      → Option (DeviceInferenceStats Float)
  inference_stats_accumulate_kernel g input element_count t stats =
      let index = linear_index g t in
      if leb element_count index
      then some stats
      else load input index >>=? λ value. some (record {
        mean = floats.add stats.mean value;
        min_bits = min stats.min_bits (floats.as_uint value);
        max_bits = max stats.max_bits (floats.as_uint value);
        checksum =
            (stats.checksum + floats.quantized value * (index % 251 + 1) % u64_mod) % u64_mod;
      })

  unfoldable pub inference_stats_finalize_kernel :
      ℕ → Thread → DeviceInferenceStats Float → Option (DeviceInferenceStats Float)
  inference_stats_finalize_kernel element_count t stats =
      if not (t.block_x == 0) || not (t.thread_x == 0)
      then some stats
      else if element_count == 0
      then some (record { mean = floats.zero; min_bits = 0; max_bits = 0; checksum = 0 })
      else some (record stats { mean = floats.divided stats.mean element_count })

  abbrev pub host_init : DeviceInferenceStats Float
  host_init = record { mean = floats.zero; min_bits = infinity; max_bits = 0; checksum = 0 }

  abbrev pub finalize_grid : Grid
  finalize_grid = record { grid_x = 1; grid_y = 1; block_x = 1; block_y = 1 }

  unfoldable pub finalize :
      ℕ → Launched (DeviceInferenceStats Float) → Rt (Launched (DeviceInferenceStats Float))
  finalize element_count (failed e) = pure (failed e)
  finalize element_count faulted = pure faulted
  finalize element_count (finished stats) =
      launch (inference_stats_finalize_kernel element_count) finalize_grid stats

  -- A null pointer is `none`.
  unfoldable pub launch_inference_stats_kernel :
      Option (Array Float)
      → ℕ
      → Option (DeviceInferenceStats Float)
      → Rt (Launched (DeviceInferenceStats Float))
  launch_inference_stats_kernel (some input) element_count (some stats) =
      let grid = linear_grid element_count in
      if element_count == 0 then pure (failed invalid_value) else do
        copied ← perform cuda_memcpy_to_device
        if not (is_ok copied) then pure (failed copied.code) else do
          accumulated ←
              launch (inference_stats_accumulate_kernel grid input element_count) grid host_init
          finalize element_count accumulated
  launch_inference_stats_kernel input element_count stats = pure (failed invalid_value)
