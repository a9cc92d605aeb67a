-- ===== src/Udisks2/Print.antt =====
-- src/udisks2/udisks2_monitor_daemon.cc, printDeviceInformation: what it writes, and whether it ends
-- without an exception. A `get<T>()` of another type throws after what stands before it is written.
pub mod Typed
pub mod Complete
use sdbus_cpp_examples.Prelude.{
  ℕ, zero, suc, Bool, true, false, Option, none, some, List, [], ◌∷◌, ◌++◌, if◌then◌else◌, bind,
  is_empty, map,
}
use sdbus_cpp_examples.Prelude.Text.{Text, text}
use sdbus_cpp_examples.Prelude.Map.{lookup, text_key}
use sdbus_cpp_examples.Prelude.Int.{ℤ, pos, negsuc}
use sdbus_cpp_examples.Prelude.Decimal.{decimal}
use sdbus_cpp_examples.Dbus.{Variants}
use sdbus_cpp_examples.Udisks2.Size.{byte_array_to_string, format_size}

abbrev pub Printed : Type 0
Printed = Text × Bool

abbrev pub put_text : Text → Printed
put_text t = (t, true)

abbrev pub stopped : Text → Printed
stopped t = (t, false)

-- One piece after the other, until one throws.
unfoldable pub and_then : Printed → Printed → Printed
and_then (t, false) rest = (t, false)
and_then (t, true) rest = (t ++ rest.0, rest.1)

unfoldable pub in_turn : List Printed → Printed
in_turn [] = put_text []
in_turn (piece ∷ pieces) = and_then piece (in_turn pieces)

abbrev pub line : Text → Text
line t = t ++ b'\n' ∷ []

abbrev pub yes_no : Bool → Text
yes_no true = text "Yes"
yes_no false = text "No"

-- `os << label << value.get<T>() << "\n"`: the label is written before the value is read.
unfoldable pub put_read : Text → Option Text → Printed
put_read label none = stopped label
put_read label (some value) = put_text (line (label ++ value))

-- A value that is read into a variable first.
unfoldable pub put_found {ℓ} : {A : Type ℓ} → Option A → (A → Printed) → Printed
put_found none f = stopped []
put_found (some a) f = f a

-- A property that is not there writes nothing.
unfoldable pub if_present {ℓ} : {A : Type ℓ} → Option A → (A → Printed) → Printed
if_present none f = put_text []
if_present (some a) f = f a

unfoldable pub size_text : Text → ℕ → Printed
size_text label size =
    put_found (format_size size)
      λ t. put_text (line (label ++ t ++ text " (" ++ decimal size ++ text " bytes)"))

unfoldable pub paths_text : List (List ℕ) → Text
paths_text [] = []
paths_text (path ∷ paths) = line (text "    - " ++ byte_array_to_string path) ++ paths_text paths

unfoldable pub symlinks_text : List (List ℕ) → Text
symlinks_text [] = []
symlinks_text (path ∷ paths) = line (text "  Symlinks:") ++ paths_text (path ∷ paths)

unfoldable pub mount_points_text : List (List ℕ) → Text
mount_points_text [] = line (text "  Mount Points: (not mounted)")
mount_points_text (path ∷ paths) = line (text "  Mount Points:") ++ paths_text (path ∷ paths)

unfoldable pub rotation_text : ℤ → Text
rotation_text (pos zero) = line (text "  Type: SSD (Solid State Drive)")
rotation_text (pos (suc n)) = line (text "  Rotation Rate: " ++ decimal (suc n) ++ text " RPM")
rotation_text (negsuc n) = []

abbrev pub rule : Text
rule = line (text "========================================")

-- What stands before the first property, and after the last one.
abbrev pub heading : Text → Text
heading block_path =
    b'\n' ∷ rule
    ++ line (text "REMOVABLE DEVICE DETECTED")
    ++ rule
    ++ line (text "Block Device Path: " ++ block_path)
    ++ b'\n' ∷ line (text "--- BLOCK DEVICE INFORMATION ---")

abbrev pub closing : Text
closing = rule ++ b'\n' ∷ []

module _ (v : Variants) where
  open v use {Variant, get_string, get_bool, get_int32, get_uint64, get_bytes, get_byte_lists}

  abbrev pub Properties : Type 0
  Properties = List (Text × Variant)

  unfoldable pub string_field : Text → Text → Properties → Printed
  string_field key label props =
      if_present (lookup key props) λ value. put_read label (get_string value)

  unfoldable pub bool_field : Text → Text → Properties → Printed
  bool_field key label props =
      if_present (lookup key props)
        λ value. put_read label (bind (get_bool value) λ b. some (yes_no b))

  unfoldable pub size_field : Text → Properties → Printed
  size_field label props =
      if_present (lookup (text "Size") props)
        λ value. put_found (get_uint64 value) (size_text label)

  unfoldable pub device_field : Text → Text → Properties → Printed
  device_field key label props = if_present (lookup key props) λ value.
      put_found (get_bytes value) λ device. put_text (line (label ++ byte_array_to_string device))

  unfoldable pub paths_field : Text → (List (List ℕ) → Text) → Properties → Printed
  paths_field key show props =
      if_present (lookup key props)
        λ value. put_found (get_byte_lists value) λ paths. put_text (show paths)

  unfoldable pub block_fields : Properties → List Printed
  block_fields props =
      device_field (text "Device") (text "  Device: ") props
      ∷ device_field (text "PreferredDevice") (text "  Preferred Device: ") props
      ∷ size_field (text "  Size: ") props
      ∷ string_field (text "IdUUID") (text "  UUID: ") props
      ∷ string_field (text "IdLabel") (text "  Label: ") props
      ∷ string_field (text "IdType") (text "  Filesystem Type: ") props
      ∷ string_field (text "IdUsage") (text "  Usage: ") props
      ∷ string_field (text "IdVersion") (text "  Version: ") props
      ∷ bool_field (text "ReadOnly") (text "  Read-Only: ") props
      ∷ paths_field (text "Symlinks") symlinks_text props
      ∷ []

  unfoldable pub drive_fields : Properties → List Printed
  drive_fields props =
      put_text (line (b'\n' ∷ text "--- DRIVE INFORMATION ---"))
      ∷ string_field (text "Vendor") (text "  Vendor: ") props
      ∷ string_field (text "Model") (text "  Model: ") props
      ∷ string_field (text "Revision") (text "  Revision: ") props
      ∷ string_field (text "Serial") (text "  Serial: ") props
      ∷ string_field (text "WWN") (text "  WWN: ") props
      ∷ string_field (text "ConnectionBus") (text "  Bus: ") props
      ∷ size_field (text "  Drive Size: ") props
      ∷ bool_field (text "Removable") (text "  Removable: ") props
      ∷ bool_field (text "MediaRemovable") (text "  Media Removable: ") props
      ∷ bool_field (text "Ejectable") (text "  Ejectable: ") props
      ∷ string_field (text "Media") (text "  Media: ") props
      ∷ if_present (lookup (text "RotationRate") props)
          (λ value. put_found (get_int32 value) λ rate. put_text (rotation_text rate))
      ∷ []

  unfoldable pub filesystem_fields : Properties → List Printed
  filesystem_fields props =
      put_text (line (b'\n' ∷ text "--- FILESYSTEM INFORMATION ---"))
      ∷ paths_field (text "MountPoints") mount_points_text props
      ∷ size_field (text "  Filesystem Size: ") props
      ∷ []

  -- A section that an empty map leaves out.
  abbrev pub unless_empty : Properties → List Printed → List Printed
  unless_empty [] fields = []
  unless_empty (entry ∷ props) fields = fields

  unfoldable pub fields_of : Properties → Properties → Properties → List Printed
  fields_of block drive filesystem =
      block_fields block
      ++ (unless_empty drive (drive_fields drive)
          ++ unless_empty filesystem (filesystem_fields filesystem))

  unfoldable pub print_device_information : Text → Properties → Properties → Properties → Printed
  print_device_information block_path block drive filesystem =
      and_then (put_text (heading block_path))
        (and_then (in_turn (fields_of block drive filesystem)) (put_text closing))
