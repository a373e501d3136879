-- ===== src/Importer/Size.antt =====
-- `align_up_size` of memory_importer.cpp: where it is exact, and where 64 bits are too few.
use ros2_cuda_ipc.Base.{ℕ, ◌+◌, ◌-◌, ◌*◌, ◌%◌, ◌/◌, ◌≤◌, ◌<◌, ◌≡◌, ◌≢◌, arith, u64_mod}
use ros2_cuda_ipc.Importer.{align_up_size, mapped_size}
use native.Mathlib.Nat.{mod-eq_of_lt, mod-lt, div-add-mod, mul-mod_right}

rounded : (v a : ℕ) → 0 < a → (v + a - v % a) % a ≡ 0
rounded v a h =
    let e : v + a - v % a ≡ a * (v / a + 1) = grind (arith, div-add-mod v a, mod-lt v h) in
    rw e (mul-mod_right a (v / a + 1))

-- Where the rounded value fits in 64 bits, it is the least multiple of the alignment that is not
-- below the value.
pub align_up_size_lem :
    (v a : ℕ)
    → 0 < a
    → v + a ≤ u64_mod
    → (v ≤ align_up_size v a) × (align_up_size v a < v + a) × (align_up_size v a % a ≡ 0)
unfolding align_up_size
align_up_size_lem v a h fits =
    ground (arith, rounded v a h, mod-lt v h, mod-eq_of_lt {n = v + a - v % a} {m = u64_mod})

-- Where it does not fit, the result wraps around and is smaller than the value.
pub align_up_size_wraps :
    (v a : ℕ)
    → a ≤ u64_mod
    → v < u64_mod
    → v % a ≢ 0
    → u64_mod ≤ v + a - v % a
    → align_up_size v a < v
unfolding align_up_size
align_up_size_wraps v a k h r w = ground arith

-- So a message may announce more bytes than the importer maps: the size that wraps to 0 is replaced
-- by one granule, and any other is what is left above 2^64.
pub mapped_size_short :
    (byte_size granularity : ℕ)
    → granularity < byte_size
    → granularity ≤ u64_mod
    → byte_size < u64_mod
    → byte_size % granularity ≢ 0
    → u64_mod ≤ byte_size + granularity - byte_size % granularity
    → mapped_size byte_size granularity < byte_size
unfolding mapped_size
mapped_size_short n g a k h r w = ground (arith, align_up_size_wraps n g k h r w)

-- When the announced size leaves room for one granule in 64 bits, the mapping covers it, and is not
-- empty.
pub mapped_size_covers :
    (byte_size granularity : ℕ)
    → 0 < granularity
    → byte_size + granularity ≤ u64_mod
    → (byte_size ≤ mapped_size byte_size granularity) × (0 < mapped_size byte_size granularity)
unfolding mapped_size
mapped_size_covers n g h fits = ground (arith, align_up_size_lem n g h fits)
