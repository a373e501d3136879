-- ===== src/PointCloud2.antt =====
-- ros2_cuda_ipc_pointcloud2: pointcloud2_read_handle.hpp, src/pointcloud2_read_handle.cpp,
-- message_utils.hpp, and the wire message ros2_cuda_ipc_msgs/msg/GpuPointCloud2.msg. The type of the
-- ROS message header, which is only copied, is a parameter; `datatype` has the codes of
-- sensor_msgs/PointField.
pub mod Accept
use ros2_cuda_ipc.Base.{
  ℕ, ◌+◌, ◌-◌, ◌*◌, ◌%◌, Bool, true, false, not, ◌&&◌, ◌||◌, Option, none, some, List, [], ◌∷◌, map,
  ltb, leb, ◌==◌, if◌then◌else◌, u64_max, u64_mod, u128_mod,
}
use ros2_cuda_ipc.Transport.{BufferDescriptor, BufferCore, fill_buffer_core_message}
use ros2_cuda_ipc.Subscriber.ReadHandle.{ReadHandle, byte_size}
use ros2_cuda_ipc.Subscriber.ReadHandle
use Prim.Native.String.{String}

-- `sensor_msgs::msg::PointField`, and `Field` of the read handle.
pub record PointField : Type 0 where
  pub name : String
  pub offset : ℕ
  pub datatype : ℕ
  pub count : ℕ

pub record Field : Type 0 where
  pub name : String
  pub offset : ℕ
  pub datatype : ℕ
  pub count : ℕ

pub record GpuPointCloud2 (Header : Type 0) : Type 0 where
  pub header : Header
  pub height : ℕ
  pub width : ℕ
  pub fields : List PointField
  pub point_step : ℕ
  pub row_step : ℕ
  pub core : BufferCore
  pub is_dense : Bool

pub record PointCloud2ReadHandle (Header : Type 0) : Type 0 where
  pub header : Header
  pub read : ReadHandle
  pub height : ℕ
  pub width : ℕ
  pub point_step : ℕ
  pub row_step : ℕ
  pub is_dense : Bool
  pub fields : List Field

abbrev pub to_field : PointField → Field
to_field f = record { name = f.name; offset = f.offset; datatype = f.datatype; count = f.count }

abbrev pub from_field : Field → PointField
from_field f = record { name = f.name; offset = f.offset; datatype = f.datatype; count = f.count }

-- The `switch` on the datatype; `default` is 0.
unfoldable pub element_size : ℕ → ℕ
element_size datatype =
    if datatype == 1 || datatype == 2
    then 1
    else if datatype == 3 || datatype == 4
    then 2
    else if datatype == 5 || datatype == 6 || datatype == 7
    then 4
    else if datatype == 8
    then 8
    else 0

-- One turn of the loop over the fields.
unfoldable pub field_fits : ℕ → Field → Bool
field_fits point_step f =
    let field_bytes = element_size f.datatype * f.count % u64_mod in
    if element_size f.datatype == 0
    then false
    else if f.count == 0
    then false
    else if leb point_step f.offset
    then false
    else leb field_bytes (point_step - f.offset)

unfoldable pub fields_fit : ℕ → List Field → Bool
fields_fit point_step [] = true
fields_fit point_step (f ∷ l) =
    let rest = fields_fit point_step l in if field_fits point_step f then rest else false

-- `needed`, of a height that is not 0.
unfoldable pub needed_bytes : ℕ → ℕ → ℕ → ℕ → ℕ
needed_bytes height width point_step row_step =
    (row_step * (height - 1) + point_step * width) % u128_mod

module _ {Header : Type 0} where
  unfoldable pub valid : PointCloud2ReadHandle Header → Bool
  valid h = ReadHandle.valid h.read && ltb 0 h.point_step

  -- The tests of `from_message`, in their order.
  unfoldable pub accepts : PointCloud2ReadHandle Header → Bool
  unfolding valid
  accepts h =
      let needed = needed_bytes h.height h.width h.point_step h.row_step in
      if not (valid h) || h.height == 0 || ltb h.row_step (h.point_step * h.width % u64_mod)
      then false
      else if ltb u64_max needed || ltb (byte_size h.read) needed
      then false
      else fields_fit h.point_step h.fields

  -- `from_message`. A read that is refused is destroyed with the local result.
  unfoldable pub from_message :
      GpuPointCloud2 Header → ReadHandle → Option (PointCloud2ReadHandle Header)
  from_message message read =
      let result : PointCloud2ReadHandle Header = record {
        header = message.header;
        read = read;
        height = message.height;
        width = message.width;
        point_step = message.point_step;
        row_step = message.row_step;
        is_dense = message.is_dense;
        fields = map to_field message.fields;
      } in
      if accepts result then some result else none

  -- `fill_gpu_pointcloud2_message`, which sets every field of the message.
  unfoldable pub fill_gpu_pointcloud2_message :
      BufferDescriptor → PointCloud2ReadHandle Header → GpuPointCloud2 Header
  fill_gpu_pointcloud2_message descriptor metadata = record {
    header = metadata.header;
    height = metadata.height;
    width = metadata.width;
    fields = map from_field metadata.fields;
    point_step = metadata.point_step;
    row_step = metadata.row_step;
    core = fill_buffer_core_message descriptor;
    is_dense = metadata.is_dense;
  }
