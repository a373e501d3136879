-- ===== src/Descriptor.antt =====
-- The dictionary that Python hands to the native module for an image message: how
-- ros2_cuda_ipc_py/_descriptor.py makes it of a ROS message, and how src/native_module.cpp reads it.
pub mod Value
pub mod Typed
pub mod Values
pub mod Read
pub mod RoundTrip
use ros2_cuda_ipc.Base.{
  ℕ, zero, suc, ◌+◌, Bool, true, false, not, ◌||◌, Option, none, some, List, [], ◌∷◌, ltb, ◌==◌,
  if◌then◌else◌, u32_max, u64_max,
}
use ros2_cuda_ipc.Transport.{BufferCore}
use ros2_cuda_ipc.Image.{Triple, GpuImage}
use ros2_cuda_ipc.Metadata.Object.{decimal}
use ros2_cuda_ipc.Descriptor.Value.{
  PyInt, pos, negsuc, PyValue, integer, text, sequence, dict, opaque, PyItems, nil, cons, PyEntries,
  empty, entry, lookup, items_of, count_items,
}
use Prim.Native.String.{String, ◌++◌ as ◌<>◌}

-- The Python exceptions that the native code raises, with the field that they name.
pub data PyError : Type 0 where
  key_error type_error value_error : String → PyError

pub data Decoded (A : Type 0) : Type 0 where
  decoded : A → Decoded A
  raised : PyError → Decoded A

infixl 5 ◌>>=◌
abbrev pub ◌>>=◌ : {A B : Type 0} → Decoded A → (A → Decoded B) → Decoded B
decoded a >>= f = f a
raised e >>= f = raised e

-- `std_msgs::msg::Header`, and the one that a message has at first.
pub record Header : Type 0 where
  pub frame_id : String
  pub sec : PyInt
  pub nanosec : ℕ

abbrev pub no_header : Header
no_header = record { frame_id = ""; sec = pos 0; nanosec = 0 }

-- The largest values of `uint8_t` and `int32_t`.
abbrev pub u8_max : ℕ
u8_max = 255

abbrev pub i32_max : ℕ
i32_max = 2147483647

-- `required` and `required_dict`.
unfoldable pub required : PyEntries → String → Decoded PyValue
required descriptor key = elim (lookup key descriptor) [
  | none ↦ raised (key_error key)
  | some v ↦ decoded v
]

unfoldable pub as_dict : PyValue → String → Decoded PyEntries
as_dict (dict d) key = decoded d
as_dict _ key = raised (type_error key)

unfoldable pub required_dict : PyEntries → String → Decoded PyEntries
required_dict descriptor key = do v ← required descriptor key; as_dict v key

-- `unsigned_integer`, with the largest value of its type.
unfoldable pub unsigned_integer : ℕ → PyValue → String → Decoded ℕ
unsigned_integer max (integer (pos n)) path =
    if ltb u64_max n
    then raised (value_error path)
    else if ltb max n
    then raised (value_error path)
    else decoded n
unsigned_integer max (integer (negsuc n)) path = raised (value_error path)
unsigned_integer max _ path = raised (type_error path)

-- `signed_int32`.
unfoldable pub signed_int32 : PyValue → String → Decoded PyInt
signed_int32 (integer (pos n)) path =
    if ltb i32_max n then raised (value_error path) else decoded (pos n)
signed_int32 (integer (negsuc n)) path =
    if ltb i32_max n then raised (value_error path) else decoded (negsuc n)
signed_int32 _ path = raised (type_error path)

-- `string_value`.
unfoldable pub string_value : PyValue → String → Decoded String
string_value (text s) path = decoded s
string_value _ path = raised (type_error path)

-- `fixed_sequence`: the loop over the items, from an index on, and the whole.
unfoldable pub read_items : ℕ → PyItems → String → ℕ → Decoded (List ℕ)
read_items max nil path index = decoded []
read_items max (cons v vs) path index = do
  x ← unsigned_integer max v (((path <> "[") <> decimal 20 index) <> "]")
  xs ← read_items max vs path (index + 1)
  decoded (x ∷ xs)

unfoldable pub of_items : ℕ → ℕ → Option PyItems → String → Decoded (List ℕ)
of_items max length none path = raised (type_error path)
of_items max length (some items) path =
    let read = read_items max items path 0 in
    if not (count_items items == length) then raised (value_error path) else read

unfoldable pub fixed_sequence : ℕ → ℕ → PyValue → String → Decoded (List ℕ)
fixed_sequence max length value path = of_items max length (items_of value) path

-- A `std::array` of three elements.
unfoldable pub triple_of : List ℕ → Triple
triple_of (a ∷ b ∷ c ∷ _) = record { first = a; second = b; third = c }
triple_of _ = record { first = 0; second = 0; third = 0 }

-- `buffer_core_from_descriptor`.
unfoldable pub buffer_core_from_descriptor : PyEntries → Decoded BufferCore
buffer_core_from_descriptor descriptor = do
  path_value ← required descriptor "vmm_socket_path"
  vmm_socket_path ← string_value path_value "vmm_socket_path"
  handle_value ← required descriptor "event_handle"
  event_handle ← fixed_sequence u8_max 64 handle_value "event_handle"
  pid_value ← required descriptor "publisher_pid"
  publisher_pid ← unsigned_integer u32_max pid_value "publisher_pid"
  device_value ← required descriptor "device_id"
  device_id ← unsigned_integer u32_max device_value "device_id"
  block_value ← required descriptor "block_id"
  block_id ← unsigned_integer u32_max block_value "block_id"
  uid_value ← required descriptor "uid"
  uid ← unsigned_integer u64_max uid_value "uid"
  size_value ← required descriptor "byte_size"
  byte_size ← unsigned_integer u64_max size_value "byte_size"
  decoded (record {
    vmm_socket_path = vmm_socket_path;
    event_handle = event_handle;
    publisher_pid = publisher_pid;
    device_id = device_id;
    block_id = block_id;
    uid = uid;
    byte_size = byte_size;
  })

-- `fill_header`, on the header of a new message.
unfoldable pub optional_text : PyEntries → String → String → Decoded String
optional_text descriptor key path = elim (lookup key descriptor) [
  | none ↦ decoded ""
  | some v ↦ string_value v path
]

unfoldable pub fill_stamp : PyEntries → Header → Option PyValue → Decoded Header
fill_stamp header_descriptor header none = decoded header
fill_stamp header_descriptor header (some _) = do
  stamp ← required_dict header_descriptor "stamp"
  sec_value ← required stamp "sec"
  sec ← signed_int32 sec_value "header.stamp.sec"
  nanosec_value ← required stamp "nanosec"
  nanosec ← unsigned_integer u32_max nanosec_value "header.stamp.nanosec"
  decoded (record header { sec = sec; nanosec = nanosec })

unfoldable pub fill_found : PyEntries → Option PyValue → Decoded Header
fill_found descriptor none = decoded no_header
fill_found descriptor (some _) = do
  header_descriptor ← required_dict descriptor "header"
  frame_id ← optional_text header_descriptor "frame_id" "header.frame_id"
  fill_stamp header_descriptor (record no_header { frame_id = frame_id })
      (lookup "stamp" header_descriptor)

unfoldable pub fill_header : PyEntries → Decoded Header
fill_header descriptor = fill_found descriptor (lookup "header" descriptor)

-- `gpu_image_from_descriptor`.
unfoldable pub gpu_image_from_descriptor : PyEntries → Decoded (GpuImage Header)
unfolding optional_text
gpu_image_from_descriptor descriptor = do
  header ← fill_header descriptor
  dtype_value ← required descriptor "dtype"
  dtype ← unsigned_integer u8_max dtype_value "dtype"
  shape_value ← required descriptor "shape"
  shape ← fixed_sequence u32_max 3 shape_value "shape"
  strides_value ← required descriptor "strides"
  strides ← fixed_sequence u64_max 3 strides_value "strides"
  core_value ← required_dict descriptor "core"
  core ← buffer_core_from_descriptor core_value
  encoding ← optional_text descriptor "encoding" "encoding"
  decoded (record {
    header = header;
    dtype = dtype;
    shape = triple_of shape;
    strides = triple_of strides;
    core = core;
    encoding = encoding;
  })

-- `_sequence`, `buffer_core_descriptor`, `_header_descriptor` and `gpu_image_descriptor` of a ROS
-- message, whose fields are there.
unfoldable pub sequence_of : List ℕ → PyItems
sequence_of [] = nil
sequence_of (x ∷ xs) = cons (integer (pos x)) (sequence_of xs)

unfoldable pub triple_descriptor : Triple → PyItems
unfolding sequence_of
triple_descriptor t = sequence_of (t.first ∷ t.second ∷ t.third ∷ [])

unfoldable pub buffer_core_descriptor : BufferCore → PyEntries
buffer_core_descriptor c = entry "vmm_socket_path" (text c.vmm_socket_path) (
    entry "event_handle" (sequence (sequence_of c.event_handle)) (
      entry "publisher_pid" (integer (pos c.publisher_pid)) (
        entry "device_id" (integer (pos c.device_id)) (
          entry "block_id" (integer (pos c.block_id)) (
            entry "uid" (integer (pos c.uid))
              (entry "byte_size" (integer (pos c.byte_size)) empty))))))

unfoldable pub header_descriptor : Header → PyEntries
header_descriptor h =
    entry "stamp"
      (dict (entry "sec" (integer h.sec) (entry "nanosec" (integer (pos h.nanosec)) empty)))
      (entry "frame_id" (text h.frame_id) empty)

unfoldable pub gpu_image_descriptor : GpuImage Header → PyEntries
gpu_image_descriptor m = entry "header" (dict (header_descriptor m.header)) (
    entry "dtype" (integer (pos m.dtype)) (
      entry "shape" (sequence (triple_descriptor m.shape)) (
        entry "strides" (sequence (triple_descriptor m.strides)) (
          entry "core" (dict (buffer_core_descriptor m.core))
            (entry "encoding" (text m.encoding) empty)))))
