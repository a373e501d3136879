-- ===== src/Descriptor/RoundTrip.antt =====
-- The way of an image message from Python to the native module.
use ros2_cuda_ipc.Base.{
  ℕ, suc, ◌+◌, ◌≤◌, ◌≡◌, refl, ap, subst, some, List, [], ◌∷◌, arith, u32_max, u64_max, length, All,
  ==_iff,
}
use ros2_cuda_ipc.Transport.{BufferCore}
use ros2_cuda_ipc.Image.{GpuImage}
use ros2_cuda_ipc.Descriptor.Value.{
  PyInt, pos, negsuc, PyValue, integer, sequence, dict, PyEntries, lookup, count_items,
}
use ros2_cuda_ipc.Descriptor.{
  decoded, Header, no_header, u8_max, required, as_dict, required_dict, unsigned_integer,
  signed_int32, string_value, of_items, read_items, fixed_sequence, triple_of,
  buffer_core_from_descriptor, optional_text, fill_stamp, fill_found, fill_header,
  gpu_image_from_descriptor, sequence_of, triple_descriptor, buffer_core_descriptor,
  header_descriptor, gpu_image_descriptor,
}
use ros2_cuda_ipc.Descriptor.Typed.{IsInt32, IsHeader, IsCore, IsMessage}
use Prim.Native.String.{String}

unsigned_lem :
    (max n : ℕ) (path : String)
    → n ≤ max
    → max ≤ u64_max
    → unsigned_integer max (integer (pos n)) path ≡ decoded n
unfolding unsigned_integer
unsigned_lem max n path p q = ground arith

signed_lem : (n : PyInt) (path : String) → IsInt32 n → signed_int32 (integer n) path ≡ decoded n
unfolding signed_int32
signed_lem (pos n) path p = ground arith
signed_lem (negsuc n) path p = ground arith

count_lem : (xs : List ℕ) → count_items (sequence_of xs) ≡ length xs
unfolding sequence_of
count_lem [] = refl
count_lem (x ∷ xs) = ap suc (count_lem xs)

items_lem :
    (max : ℕ) (xs : List ℕ) (path : String) (index : ℕ)
    → All (λ x. x ≤ max) xs
    → max ≤ u64_max
    → read_items max (sequence_of xs) path index ≡ decoded xs
unfolding read_items sequence_of
items_lem max [] path index p q = refl
items_lem max (x ∷ xs) path index p q =
    rw (unsigned_lem max x _ p.0 q, items_lem max xs path (index + 1) p.1 q) refl

sequence_lem :
    (max : ℕ) (xs : List ℕ) (path : String)
    → All (λ x. x ≤ max) xs
    → max ≤ u64_max
    → fixed_sequence max (length xs) (sequence (sequence_of xs)) path ≡ decoded xs
unfolding fixed_sequence of_items
sequence_lem max xs path p q =
    let same = (==_iff (count_items (sequence_of xs)) (length xs)).1 (count_lem xs) in
    rw (same, items_lem max xs path 0 p q) refl

core_lem :
    (c : BufferCore) → IsCore c → buffer_core_from_descriptor (buffer_core_descriptor c) ≡ decoded c
unfolding buffer_core_from_descriptor buffer_core_descriptor required string_value
core_lem c t =
    let handle =
      subst
        (λ n.
          fixed_sequence u8_max n (sequence (sequence_of c.event_handle)) "event_handle"
          ≡ decoded c.event_handle)
        t.handle_length
        (sequence_lem u8_max c.event_handle "event_handle" t.handle_bytes (omega arith)) in
    rw
      (
        handle,
        unsigned_lem u32_max c.publisher_pid "publisher_pid" t.publisher_pid_max (omega arith),
        unsigned_lem u32_max c.device_id "device_id" t.device_id_max (omega arith),
        unsigned_lem u32_max c.block_id "block_id" t.block_id_max (omega arith),
        unsigned_lem u64_max c.uid "uid" t.uid_max (omega arith),
        unsigned_lem u64_max c.byte_size "byte_size" t.byte_size_max (omega arith),
      )
      refl

stamp_lem :
    (h : Header) (frame_id : String)
    → IsHeader h
    → fill_stamp
        (header_descriptor h)
        (record no_header { frame_id = frame_id })
        (lookup "stamp" (header_descriptor h))
      ≡ decoded (record h { frame_id = frame_id })
unfolding fill_stamp required required_dict as_dict header_descriptor
stamp_lem h frame_id t =
    rw
      (
        signed_lem h.sec "header.stamp.sec" t.0,
        unsigned_lem u32_max h.nanosec "header.stamp.nanosec" t.1 (omega arith),
      )
      refl

frame_lem :
    (h : Header)
    → optional_text (header_descriptor h) "frame_id" "header.frame_id" ≡ decoded h.frame_id
unfolding optional_text string_value header_descriptor
frame_lem h = refl

found_lem :
    (h : Header) (d : PyEntries) (v : PyValue)
    → IsHeader h
    → required_dict d "header" ≡ decoded (header_descriptor h)
    → fill_found d (some v) ≡ decoded h
unfolding fill_found
found_lem h d v t e = rw (e, frame_lem h, stamp_lem h h.frame_id t) refl

header_lem :
    (m : GpuImage Header)
    → IsHeader m.header
    → fill_header (gpu_image_descriptor m) ≡ decoded m.header
unfolding fill_header gpu_image_descriptor required_dict required as_dict
header_lem m t =
    found_lem m.header (gpu_image_descriptor m) (dict (header_descriptor m.header)) t refl

-- A message whose fields have values of their types comes back unchanged from the dictionary that the
-- Python package makes of it.
pub from_descriptor-gpu_image_descriptor :
    (m : GpuImage Header)
    → IsMessage m
    → gpu_image_from_descriptor (gpu_image_descriptor m) ≡ decoded m
unfolding gpu_image_from_descriptor gpu_image_descriptor required required_dict as_dict
    optional_text string_value triple_of triple_descriptor
from_descriptor-gpu_image_descriptor m t =
    let a = t.array_values in
    let shape = m.shape.first ∷ m.shape.second ∷ m.shape.third ∷ [] in
    let strides = m.strides.first ∷ m.strides.second ∷ m.strides.third ∷ [] in
    rw
      (
        header_lem m t.header_values,
        unsigned_lem u8_max m.dtype "dtype" t.dtype_max (omega arith),
        sequence_lem u32_max shape "shape" (a.first_max, (a.second_max, (a.third_max, tt)))
            (omega arith),
        sequence_lem u64_max strides "strides"
            (a.first_stride_max, (a.second_stride_max, (a.third_stride_max, tt))) (omega arith),
        core_lem m.core t.core_values,
      )
      refl
