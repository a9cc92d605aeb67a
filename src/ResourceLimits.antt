-- ===== src/ResourceLimits.antt =====
-- src/utils/resource_limits.h: how many entries the clients' maps may hold.
use sdbus_cpp_examples.Prelude.{ℕ, ◌≤◌, ◌≡◌, Bool, false, leb, List, length, arith}
use sdbus_cpp_examples.Prelude.Map.{Eq, has_key, insert, length-insert}

abbrev pub max_adapters : ℕ
max_adapters = 64

abbrev pub max_devices : ℕ
max_devices = 1024

abbrev pub max_gatt_services : ℕ
max_gatt_services = 4096

abbrev pub max_gatt_characteristics : ℕ
max_gatt_characteristics = 16384

abbrev pub max_gatt_descriptors : ℕ
max_gatt_descriptors = 32768

abbrev pub max_battery_entries : ℕ
max_battery_entries = 1024

abbrev pub max_input_entries : ℕ
max_input_entries = 1024

abbrev pub max_upower_clients : ℕ
max_upower_clients = 256

abbrev pub max_units : ℕ
max_units = 16384

-- IsAtCapacity.
abbrev pub is_at_capacity : ℕ → ℕ → Bool
is_at_capacity current_size limit = leb limit current_size

-- The write behind the guard stays within the limit, whether the key is new or not.
pub length-insert_guarded {ℓ κ} :
    {K : Type ℓ} {V : Type κ} ⦃e : Eq K⦄ (limit : ℕ) (k : K) (v : V) (m : List (K × V))
    → (has_key k m ≡ false → is_at_capacity (length m) limit ≡ false)
    → length m ≤ limit
    → length (insert k v m) ≤ limit
length-insert_guarded limit k v m h le = ground (arith, length-insert k v m, h)
