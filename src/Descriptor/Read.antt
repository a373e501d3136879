-- ===== src/Descriptor/Read.antt =====
-- What src/native_module.cpp makes of a dictionary: every field of the message is the value that stands
-- under the field's key, and within the type of the field.
use ros2_cuda_ipc.Base.{
  ap, ◌∙◌, ◌⊎◌, subst, sym, ℕ, ◌≡◌, refl, Option, none, some, List, [], ◌∷◌, arith, u32_max,
  u64_max, length, inl, inr,
}
use ros2_cuda_ipc.Transport.{BufferCore}
use ros2_cuda_ipc.Image.{Triple, GpuImage}
use ros2_cuda_ipc.Descriptor.Value.{PyInt, pos, PyValue, integer, text, dict, PyEntries, lookup}
use ros2_cuda_ipc.Descriptor.{
  decoded, Header, no_header, u8_max, required, required_dict, signed_int32, string_value,
  fill_found, triple_of, buffer_core_from_descriptor, optional_text, fill_stamp, fill_header,
  gpu_image_from_descriptor,
}
use ros2_cuda_ipc.Descriptor.Typed.{IsInt32}
use Prim.Native.String.{String}
use ros2_cuda_ipc.Descriptor.Values.{
  Has, HasNumber, HasText, HasNumbers, Ensures, then-Ensures, weaken, required-Ensures,
  required_dict-Ensures, number-Ensures, signed-Ensures, string_value-Ensures,
  optional_text-Ensures, numbers-Ensures,
}

-- The time of a header, which is 0 without a stamp.
abbrev pub StampIn : PyEntries → PyInt → ℕ → Type 0
StampIn d sec nanosec =
    ((stamp : PyEntries) × Has d "stamp" (dict stamp)
      × Has stamp "sec" (integer sec)
      × IsInt32 sec
      × HasNumber stamp "nanosec" u32_max nanosec)
    ⊎ ((lookup "stamp" d ≡ none) × (sec ≡ pos 0) × (nanosec ≡ 0))

abbrev pub HeaderOf : PyEntries → Header → Type 0
HeaderOf d h =
    ((header : PyEntries) × Has d "header" (dict header)
      × HasText header "frame_id" h.frame_id
      × StampIn header h.sec h.nanosec)
    ⊎ ((lookup "header" d ≡ none) × (h ≡ no_header))

-- The fields of `BufferCore`.
pub record CoreOf (d : PyEntries) (c : BufferCore) : Type 0 where
  pub path_read : Has d "vmm_socket_path" (text c.vmm_socket_path)
  pub handle_read : HasNumbers d "event_handle" u8_max c.event_handle
  pub handle_length : length c.event_handle ≡ 64
  pub publisher_pid_read : HasNumber d "publisher_pid" u32_max c.publisher_pid
  pub device_id_read : HasNumber d "device_id" u32_max c.device_id
  pub block_id_read : HasNumber d "block_id" u32_max c.block_id
  pub uid_read : HasNumber d "uid" u64_max c.uid
  pub byte_size_read : HasNumber d "byte_size" u64_max c.byte_size

abbrev pub numbers : Triple → List ℕ
numbers t = t.first ∷ t.second ∷ t.third ∷ []

-- The fields of `GpuImage`.
pub record MessageOf (d : PyEntries) (m : GpuImage Header) : Type 0 where
  pub header_read : HeaderOf d m.header
  pub dtype_read : HasNumber d "dtype" u8_max m.dtype
  pub shape_read : HasNumbers d "shape" u32_max (numbers m.shape)
  pub strides_read : HasNumbers d "strides" u64_max (numbers m.strides)
  pub core_read : (core : PyEntries) × Has d "core" (dict core) × CoreOf core m.core
  pub encoding_read : HasText d "encoding" m.encoding

triple_numbers : (xs : List ℕ) → length xs ≡ 3 → numbers (triple_of xs) ≡ xs
unfolding triple_of
triple_numbers (a ∷ b ∷ c ∷ []) e = refl
triple_numbers (a ∷ b ∷ c ∷ x ∷ xs) e = ground (arith, e)
triple_numbers (a ∷ b ∷ []) e = ground (arith, e)
triple_numbers (a ∷ []) e = ground (arith, e)
triple_numbers [] e = ground (arith, e)

core-Ensures : (d : PyEntries) → Ensures (λ c. CoreOf d c) (buffer_core_from_descriptor d)
unfolding buffer_core_from_descriptor
core-Ensures d =
    then-Ensures Q (required d "vmm_socket_path") _ (required-Ensures d "vmm_socket_path") (λ v h.
      then-Ensures Q (string_value v "vmm_socket_path") _ (string_value-Ensures v _) (λ path s.
        numbers-Ensures Q d "event_handle" u8_max 64 _ _ (λ handle e n.
          number-Ensures Q d "publisher_pid" u32_max _ _ (λ pid p.
            number-Ensures Q d "device_id" u32_max _ _ (λ device q.
              number-Ensures Q d "block_id" u32_max _ _ (λ block b.
                number-Ensures Q d "uid" u64_max _ _ (λ uid u.
                  number-Ensures Q d "byte_size" u64_max _ _ (λ size z. record {
                    path_read = h ∙ ap some s;
                    handle_read = e;
                    handle_length = n;
                    publisher_pid_read = p;
                    device_id_read = q;
                    block_id_read = b;
                    uid_read = u;
                    byte_size_read = z;
                  }))))))))
  where
    Q : BufferCore → Type 0
    Q c = CoreOf d c

abbrev HeaderWith : PyEntries → String → Header → Type 0
HeaderWith d frame_id h = (h.frame_id ≡ frame_id) × StampIn d h.sec h.nanosec

stamp-Ensures :
    (d : PyEntries) (frame_id : String) (stamp : Option PyValue)
    → lookup "stamp" d ≡ stamp
    → Ensures
        (λ h. HeaderWith d frame_id h)
        (fill_stamp d (record no_header { frame_id = frame_id }) stamp)
unfolding fill_stamp
stamp-Ensures d frame_id none e = (refl, inr (e, refl, refl))
stamp-Ensures d frame_id (some _) e =
    then-Ensures (λ h. HeaderWith d frame_id h) (required_dict d "stamp") _
      (required_dict-Ensures d "stamp")
      (λ stamp there.
        then-Ensures (λ h. HeaderWith d frame_id h) (required stamp "sec") _
          (required-Ensures stamp "sec")
          (λ v found.
            then-Ensures (λ h. HeaderWith d frame_id h) (signed_int32 v "header.stamp.sec") _
              (signed-Ensures v _)
              (λ sec s.
                number-Ensures (λ h. HeaderWith d frame_id h) stamp "nanosec" u32_max _ _
                  (λ nanosec n. (refl, inl (stamp, there, found ∙ ap some s.0, s.1, n))))))

found-Ensures :
    (d : PyEntries) (found : Option PyValue)
    → lookup "header" d ≡ found
    → Ensures (λ h. HeaderOf d h) (fill_found d found)
unfolding fill_found
found-Ensures d none e = inr (e, refl)
found-Ensures d (some _) e =
    then-Ensures (λ h. HeaderOf d h) (required_dict d "header") _ (required_dict-Ensures d "header")
      (λ header there.
        then-Ensures (λ h. HeaderOf d h) (optional_text header "frame_id" "header.frame_id") _
          (optional_text-Ensures header "frame_id" "header.frame_id")
          (λ frame_id t.
            weaken
              (fill_stamp header (record no_header { frame_id = frame_id }) (lookup "stamp" header))
              (stamp-Ensures header frame_id (lookup "stamp" header) refl)
              (λ h p.
                inl (header, there, subst (λ s. HasText header "frame_id" s) (sym p.0) t, p.1))))

header-Ensures : (d : PyEntries) → Ensures (λ h. HeaderOf d h) (fill_header d)
unfolding fill_header
header-Ensures d = found-Ensures d (lookup "header" d) refl

message-Ensures : (d : PyEntries) → Ensures (λ m. MessageOf d m) (gpu_image_from_descriptor d)
unfolding gpu_image_from_descriptor
message-Ensures d = then-Ensures Q (fill_header d) _ (header-Ensures d) (λ header h.
    number-Ensures Q d "dtype" u8_max _ _ (λ dtype t.
      numbers-Ensures Q d "shape" u32_max 3 _ _ (λ shape s n.
        numbers-Ensures Q d "strides" u64_max 3 _ _ (λ strides u k.
          then-Ensures Q (required_dict d "core") _ (required_dict-Ensures d "core") (λ core c.
            then-Ensures Q (buffer_core_from_descriptor core) _ (core-Ensures core) (λ b p.
              then-Ensures Q (optional_text d "encoding" "encoding") _
                (optional_text-Ensures d "encoding" "encoding")
                (λ encoding e. record {
                  header_read = h;
                  dtype_read = t;
                  shape_read =
                      subst (HasNumbers d "shape" u32_max) (sym (triple_numbers shape n)) s;
                  strides_read =
                      subst (HasNumbers d "strides" u64_max) (sym (triple_numbers strides k)) u;
                  core_read = (core, c, p);
                  encoding_read = e;
                })))))))
  where
    Q : GpuImage Header → Type 0
    Q m = MessageOf d m

-- Whatever dictionary it is given, every field of a message that the module makes of it is the value
-- that stands under the field's key, of the key's kind, in full and within the range of the field; only
-- the header, its stamp, its frame and the encoding may be missing, and are empty or 0 then.
pub gpu_image_from_descriptor-MessageOf :
    (descriptor : PyEntries) (message : GpuImage Header)
    → gpu_image_from_descriptor descriptor ≡ decoded message
    → MessageOf descriptor message
gpu_image_from_descriptor-MessageOf d message e =
    subst (Ensures (λ m. MessageOf d m)) e (message-Ensures d)
