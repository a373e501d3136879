-- ===== src/Fanout/Kernels.antt =====
-- The kernels of src/cuda/kernels.cu and the grids of their launchers. An `int` is its bit pattern;
-- an address is an offset into the allocation that the pointer argument starts.
use ros2_cuda_ipc.Base.{
  ℕ, ◌+◌, ◌-◌, ◌*◌, ◌/◌, ◌%◌, Bool, not, ◌&&◌, ◌||◌, Option, none, some, ltb, leb, if◌then◌else◌,
  u32_mod, u64_mod,
}
use ros2_cuda_ipc.Fanout.{Array, Buffer, load, store, Grid, Thread, global_x, global_y}
use Prim.Native.Nat.{bit_xor}

-- `a < b` of two `int`s.
unfoldable pub int_lt : ℕ → ℕ → Bool
int_lt a b = ltb ((a + 2147483648) % u32_mod) ((b + 2147483648) % u32_mod)

abbrev pub i32_max : ℕ
i32_max = 2147483647

-- `0 < w` of an `int`.
abbrev pub positive : ℕ → Bool
positive w = ltb 0 w && leb w i32_max

infixl 5 ◌>>=?◌
abbrev pub ◌>>=?◌ : {A B : Type 0} → Option A → (A → Option B) → Option B
none >>=? f = none
some a >>=? f = f a

-- `kPatternBlockSize`, `kDefaultChannels`, and the block sizes.
abbrev pub pattern_block_size : ℕ
pattern_block_size = 32

abbrev pub channels : ℕ
channels = 4

abbrev pub pixel_block : ℕ
pixel_block = 16

abbrev pub checksum_block_size : ℕ
checksum_block_size = 256

-- The offset of a pixel.
abbrev pub pixel_at : ℕ → ℕ → ℕ → ℕ
pixel_at stride x y = (y * stride % u64_mod + x * channels) % u64_mod

unfoldable pub rgba_to_luma_u8 : Buffer → ℕ → Option ℕ
rgba_to_luma_u8 b pixel = load b pixel >>=? λ red. load b (pixel + 1) >>=? λ green.
    load b (pixel + 2) >>=? λ blue.
    some ((77 * red + 150 * green + 29 * blue) % u32_mod / 256 % 256)

unfoldable pub rgba_to_luma_downscale2_kernel :
    Grid → Buffer → ℕ → ℕ → ℕ → Thread → Buffer → Option Buffer
rgba_to_luma_downscale2_kernel g input input_width input_height stride t output =
    let output_x = global_x g t in
    let output_y = global_y g t in
    let output_width = input_width / 2 in
    let output_height = input_height / 2 in
    let input_x = output_x * 2 in
    let input_y = output_y * 2 in
    if not (int_lt output_x output_width) || not (int_lt output_y output_height)
    then some output
    else if not (int_lt (input_x + 1) input_width) || not (int_lt (input_y + 1) input_height)
    then some output
    else rgba_to_luma_u8 input (pixel_at stride input_x input_y) >>=? λ y00.
        rgba_to_luma_u8 input (pixel_at stride (input_x + 1) input_y) >>=? λ y01.
        rgba_to_luma_u8 input (pixel_at stride input_x (input_y + 1)) >>=? λ y10.
        rgba_to_luma_u8 input (pixel_at stride (input_x + 1) (input_y + 1)) >>=? λ y11.
        store output ((output_y * output_width + output_x) % u64_mod)
          ((y00 + y01 + y10 + y11) / 4 % 256)

-- The grid that covers a plane with blocks of 16 by 16.
abbrev pub plane_grid : ℕ → ℕ → Grid
plane_grid width height = record {
  grid_x = (width + pixel_block - 1) % u32_mod / pixel_block;
  grid_y = (height + pixel_block - 1) % u32_mod / pixel_block;
  block_x = pixel_block;
  block_y = pixel_block;
}

-- `checksum_u8_kernel`, on the number that `device_checksum` points to. `index` is a `size_t`.
abbrev pub linear_index : Grid → Thread → ℕ
linear_index g t = (t.block_x * g.block_x + t.thread_x) % u64_mod

unfoldable pub checksum_u8_kernel : Grid → Buffer → ℕ → Thread → ℕ → Option ℕ
checksum_u8_kernel g input element_count t checksum =
    let index = linear_index g t in
    if leb element_count index
    then some checksum
    else load input index >>=? λ v. some ((checksum + v * (index % 251 + 1) % u64_mod) % u64_mod)

-- The grid of `launch_checksum_u8_kernel`: the cast to `unsigned int` is `% u32_mod`.
abbrev pub linear_grid : ℕ → Grid
linear_grid element_count = record {
  grid_x = (element_count % u32_mod + checksum_block_size - 1) % u32_mod / checksum_block_size;
  grid_y = 1;
  block_x = checksum_block_size;
  block_y = 1;
}

-- `generate_rgba_pattern_kernel`: `& 0xffU` is `% 256`.
unfoldable pub red_of : ℕ → ℕ → ℕ
red_of x frame_index = (x + frame_index) % u64_mod % 256

unfoldable pub green_of : ℕ → ℕ → ℕ
green_of y frame_index = (y + 2 * frame_index) % u64_mod % 256

unfoldable pub blue_of : ℕ → ℕ → ℕ → ℕ
blue_of x y frame_index =
    (bit_xor (x / pattern_block_size) (y / pattern_block_size) * 37 + 3 * frame_index)
    % u64_mod
    % 256

unfoldable pub generate_rgba_pattern_kernel : Grid → ℕ → ℕ → ℕ → ℕ → Thread → Buffer → Option Buffer
generate_rgba_pattern_kernel g width height stride frame_index t output =
    let x = global_x g t in
    let y = global_y g t in
    let pixel = pixel_at stride x y in
    if not (int_lt x width) || not (int_lt y height)
    then some output
    else store output pixel (red_of x frame_index) >>=? λ red.
        store red (pixel + 1) (green_of y frame_index) >>=? λ green.
        store green (pixel + 2) (blue_of x y frame_index) >>=? λ blue. store blue (pixel + 3) 255

-- `rgba_to_normalized_gray_kernel`, for any conversion of the luma to a `float` in 0 to 1.
unfoldable pub rgba_to_normalized_gray_kernel :
    {Float : Type 0}
    → (ℕ → Float)
    → Grid
    → Buffer
    → ℕ
    → ℕ
    → ℕ
    → Thread
    → Array Float
    → Option (Array Float)
rgba_to_normalized_gray_kernel normalized g input width height stride t output =
    let x = global_x g t in
    let y = global_y g t in
    if not (int_lt x width) || not (int_lt y height)
    then some output
    else rgba_to_luma_u8 input (pixel_at stride x y) >>=? λ luma.
        store output ((y * width + x) % u64_mod) (normalized luma)
