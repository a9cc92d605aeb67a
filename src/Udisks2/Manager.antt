-- ===== src/Udisks2/Manager.antt =====
-- src/udisks2/udisks2_manager.cc: the objects that UDisks2 announces, a map of them for each of
-- eight interfaces, and one more object. Whether the constructor of an object throws is an argument;
-- a handler answers the state, and whether it ended without an exception.
pub mod Refines
use sdbus_cpp_examples.Prelude.{
  ℕ, Bool, true, false, not, Option, none, some, List, [], ◌∷◌, ◌==◌, if◌then◌else◌,
}
use sdbus_cpp_examples.Prelude.Text.{Text, text, text_eq}
use sdbus_cpp_examples.Prelude.Map.{has_key, insert, remove, text_key}

-- The interfaces that have a map, in the order of the tests.
pub data Kind : Type 0 where
  block drive nvme_namespace nvme_controller partition_table partition filesystem swapspace : Kind

abbrev pub interface_of : Kind → Text
interface_of block = text "org.freedesktop.UDisks2.Block"
interface_of drive = text "org.freedesktop.UDisks2.Drive"
interface_of nvme_namespace = text "org.freedesktop.UDisks2.NVMe.Namespace"
interface_of nvme_controller = text "org.freedesktop.UDisks2.NVMe.Controller"
interface_of partition_table = text "org.freedesktop.UDisks2.PartitionTable"
interface_of partition = text "org.freedesktop.UDisks2.Partition"
interface_of filesystem = text "org.freedesktop.UDisks2.Filesystem"
interface_of swapspace = text "org.freedesktop.UDisks2.Swapspace"

-- The chain of comparisons of both handlers.
unfoldable pub kind_of : Text → Option Kind
kind_of interface =
    if text_eq interface (interface_of block)
    then some block
    else if text_eq interface (interface_of drive)
    then some drive
    else if text_eq interface (interface_of nvme_namespace)
    then some nvme_namespace
    else if text_eq interface (interface_of nvme_controller)
    then some nvme_controller
    else if text_eq interface (interface_of partition_table)
    then some partition_table
    else if text_eq interface (interface_of partition)
    then some partition
    else if text_eq interface (interface_of filesystem)
    then some filesystem
    else if text_eq interface (interface_of swapspace)
    then some swapspace
    else none

abbrev pub number_of : Kind → ℕ
number_of block = 0
number_of drive = 1
number_of nvme_namespace = 2
number_of nvme_controller = 3
number_of partition_table = 4
number_of partition = 5
number_of filesystem = 6
number_of swapspace = 7

abbrev pub same : Kind → Kind → Bool
same k j = number_of k == number_of j

abbrev pub Objects : Type 0
Objects = List (Text × Unit {0})

-- The members of UDisks2Manager: `maps` are blocks_, drives_ and so on, by the interface.
pub record Manager : Type 0 where
  pub manager_nvme : Bool
  pub maps : Kind → Objects

abbrev pub new_manager : Manager
new_manager = record { manager_nvme = false; maps = λ k. [] }

abbrev pub nvme_interface : Text
nvme_interface = text "org.freedesktop.UDisks2.Manager.NVMe"

-- One map written back.
abbrev pub write : Kind → Objects → Manager → Manager
write k objects m = record m { maps = λ j. if same k j then objects else m.maps j }

-- `if (!map.contains(path)) map[path] = make_unique<..>(..)`.
unfoldable pub add_object : Bool → Kind → Text → Manager → Manager × Bool
add_object made k path m =
    if has_key path (m.maps k)
    then (m, true)
    else if made
    then (write k (insert path tt (m.maps k)) m, true)
    else (m, false)

unfoldable pub add_known : Bool → Option Kind → Text → Manager → Manager × Bool
add_known made none path m = (m, true)
add_known made (some k) path m = add_object made k path m

-- One round of the loop of onInterfacesAdded.
unfoldable pub add_interface : (Text → Text → Bool) → Text → Text → Manager → Manager × Bool
add_interface makes path interface m =
    if text_eq interface (text "org.freedesktop.UDisks2.Manager")
    then (m, true)
    else if text_eq interface nvme_interface
    then (if makes interface path then (record m { manager_nvme = true }, true) else (m, false))
    else add_known (makes interface path) (kind_of interface) path m

abbrev pub unless_thrown : Manager × Bool → (Manager → Manager × Bool) → Manager × Bool
unless_thrown (m, false) k = (m, false)
unless_thrown (m, true) k = k m

-- UDisks2Manager::onInterfacesAdded.
unfoldable pub on_interfaces_added :
    (Text → Text → Bool) → Text → List Text → Manager → Manager × Bool
on_interfaces_added makes path [] m = (m, true)
on_interfaces_added makes path (interface ∷ interfaces) m =
    unless_thrown (add_interface makes path interface m)
      (λ m'. on_interfaces_added makes path interfaces m')

unfoldable pub remove_known : Option Kind → Text → Manager → Manager
remove_known none path m = m
remove_known (some k) path m = write k (remove path (m.maps k)) m

-- One round of the loop of onInterfacesRemoved.
unfoldable pub remove_interface : Text → Text → Manager → Manager
remove_interface path interface m =
    if text_eq interface nvme_interface
    then record m { manager_nvme = false }
    else remove_known (kind_of interface) path m

-- UDisks2Manager::onInterfacesRemoved.
unfoldable pub on_interfaces_removed : Text → List Text → Manager → Manager
on_interfaces_removed path [] m = m
on_interfaces_removed path (interface ∷ interfaces) m =
    on_interfaces_removed path interfaces (remove_interface path interface m)

-- What the bus announces; the properties are only logged.
pub data Event : Type 0 where
  added removed : Text → List Text → Event

unfoldable pub handle : (Text → Text → Bool) → Event → Manager → Manager
handle makes (added path interfaces) m = (on_interfaces_added makes path interfaces m).0
handle makes (removed path interfaces) m = on_interfaces_removed path interfaces m

unfoldable pub run : (Text → Text → Bool) → List Event → Manager → Manager
run makes [] m = m
run makes (event ∷ events) m = run makes events (handle makes event m)
