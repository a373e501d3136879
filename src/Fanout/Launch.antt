-- ===== src/Fanout/Launch.antt =====
-- The launchers of src/cuda/kernels.cu. A null pointer is `none`.
pub mod Laws
pub mod Sizes
use ros2_cuda_ipc.Base.{ℕ, ◌/◌, Bool, not, ◌||◌, Option, none, some, ◌==◌, if◌then◌else◌}
use ros2_cuda_ipc.Fanout.{Array, Buffer, Grid, Thread, run}
use ros2_cuda_ipc.Fanout.Kernels.{
  positive, plane_grid, linear_grid, rgba_to_luma_downscale2_kernel, checksum_u8_kernel,
  generate_rgba_pattern_kernel, rgba_to_normalized_gray_kernel,
}
use ros2_cuda_ipc.Fanout.Runtime.{Rt, pure, ◌>>=◌, perform, is_ok, launch_kernel, invalid_value}

-- An error that the launcher returns, a fault of a thread, or what the kernel leaves.
pub data Launched (S : Type 0) : Type 0 where
  failed : ℕ → Launched S
  faulted : Launched S
  finished : S → Launched S

abbrev pub ended : {S : Type 0} → Option S → Launched S
ended none = faulted
ended (some s) = finished s

-- `kernel<<<grid, block, 0, stream>>>(…); return cudaGetLastError();`
unfoldable pub launch : {S : Type 0} → (Thread → S → Option S) → Grid → S → Rt (Launched S)
launch step g s = do
  a ← perform (launch_kernel g)
  if not (is_ok a) then pure (failed a.code) else λ d l. (ended (run step (d.schedule l g) s), l)

unfoldable pub launch_generate_rgba_pattern_kernel :
    Option Buffer → ℕ → ℕ → ℕ → ℕ → Rt (Launched Buffer)
launch_generate_rgba_pattern_kernel none width height stride frame_index =
    pure (failed invalid_value)
launch_generate_rgba_pattern_kernel (some output) width height stride frame_index =
    let grid = plane_grid width height in
    if not (positive width) || not (positive height) || stride == 0
    then pure (failed invalid_value)
    else launch (generate_rgba_pattern_kernel grid width height stride frame_index) grid output

unfoldable pub launch_rgba_to_luma_downscale2_kernel :
    Option Buffer → Option Buffer → ℕ → ℕ → ℕ → Rt (Launched Buffer)
launch_rgba_to_luma_downscale2_kernel (some input) (some output) input_width input_height stride =
    let grid = plane_grid (input_width / 2) (input_height / 2) in
    if not (positive input_width) || not (positive input_height) || stride == 0
    then pure (failed invalid_value)
    else if not (positive (input_width / 2)) || not (positive (input_height / 2))
    then pure (failed invalid_value)
    else launch (rgba_to_luma_downscale2_kernel grid input input_width input_height stride) grid
        output
launch_rgba_to_luma_downscale2_kernel input output input_width input_height stride =
    pure (failed invalid_value)

unfoldable pub launch_checksum_u8_kernel : Option Buffer → ℕ → Option ℕ → Rt (Launched ℕ)
launch_checksum_u8_kernel (some input) element_count (some checksum) =
    let grid = linear_grid element_count in
    if element_count == 0
    then pure (failed invalid_value)
    else launch (checksum_u8_kernel grid input element_count) grid checksum
launch_checksum_u8_kernel input element_count checksum = pure (failed invalid_value)

unfoldable pub launch_rgba_to_normalized_gray_kernel :
    {Float : Type 0}
    → (ℕ → Float)
    → Option Buffer
    → Option (Array Float)
    → ℕ
    → ℕ
    → ℕ
    → Rt (Launched (Array Float))
launch_rgba_to_normalized_gray_kernel normalized (some input) (some output) width height stride =
    let grid = plane_grid width height in
    if not (positive width) || not (positive height) || stride == 0
    then pure (failed invalid_value)
    else launch (rgba_to_normalized_gray_kernel normalized grid input width height stride) grid
        output
launch_rgba_to_normalized_gray_kernel normalized input output width height stride =
    pure (failed invalid_value)
