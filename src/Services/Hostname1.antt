-- ===== src/Services/Hostname1.antt =====
-- src/hostname1/hostname1_client.cc: the properties of the host that a change of properties updates,
-- and the text that is logged of them. What only the JSON description fills is in Described.antt.
pub mod Described
use sdbus_cpp_examples.Prelude.{
  ℕ, Bool, true, false, Option, none, some, List, [], ◌∷◌, if◌then◌else◌,
}
use sdbus_cpp_examples.Prelude.Text.{Text, text, text_eq}
use sdbus_cpp_examples.Dbus.{Variants}
use sdbus_cpp_examples.Printing.Streams.{
  Writes, new_stream, ◌>>◌, idle, put, endl, put_number, put_bytes,
}

-- Hostname1Client: hostname1_, MachineID_ and BootID_.
pub record Hostname1 : Type 0 where
  pub hostname : Text
  pub static_hostname : Text
  pub pretty_hostname : Option Text
  pub default_hostname : Option Text
  pub hostname_source : Option Text
  pub icon_name : Option Text
  pub chassis : Option Text
  pub deployment : Option Text
  pub location : Option Text
  pub kernel_name : Text
  pub kernel_release : Text
  pub kernel_version : Text
  pub operating_system_pretty_name : Text
  pub operating_system_cpe_name : Text
  pub operating_system_support_end : Option ℕ
  pub operating_system_home_url : Option Text
  pub hardware_vendor : Option Text
  pub hardware_model : Option Text
  pub firmware_version : Option Text
  pub firmware_vendor : Option Text
  pub firmware_date : Option ℕ
  pub machine_id : Option (List ℕ)
  pub boot_id : Option (List ℕ)

-- `Hostname1 hostname1_{}`.
abbrev pub no_hostname1 : Hostname1
no_hostname1 = record {
  hostname = [];
  static_hostname = [];
  pretty_hostname = none;
  default_hostname = none;
  hostname_source = none;
  icon_name = none;
  chassis = none;
  deployment = none;
  location = none;
  kernel_name = [];
  kernel_release = [];
  kernel_version = [];
  operating_system_pretty_name = [];
  operating_system_cpe_name = [];
  operating_system_support_end = none;
  operating_system_home_url = none;
  hardware_vendor = none;
  hardware_model = none;
  firmware_version = none;
  firmware_vendor = none;
  firmware_date = none;
  machine_id = none;
  boot_id = none;
}

-- A member written, if `get<T>()` did not throw.
abbrev pub assign {ℓ} : {A : Type ℓ} → Option A → (A → Hostname1) → Option Hostname1
assign none write = none
assign (some value) write = some (write value)

module _ (v : Variants) where
  open v use {Variant, get_string, get_uint64, get_bytes}

  -- One round of the loop of updateHostname1, `none` where `get<T>()` throws.
  unfoldable pub update_one : Text → Variant → Hostname1 → Option Hostname1
  update_one key value h =
      if text_eq key (text "Hostname")
      then assign (get_string value) (λ x. record h { hostname = x })
      else if text_eq key (text "StaticHostname")
      then assign (get_string value) (λ x. record h { static_hostname = x })
      else if text_eq key (text "PrettyHostname")
      then assign (get_string value) (λ x. record h { pretty_hostname = some x })
      else if text_eq key (text "DefaultHostname")
      then assign (get_string value) (λ x. record h { default_hostname = some x })
      else if text_eq key (text "HostnameSource")
      then assign (get_string value) (λ x. record h { hostname_source = some x })
      else if text_eq key (text "IconName")
      then assign (get_string value) (λ x. record h { icon_name = some x })
      else if text_eq key (text "Chassis")
      then assign (get_string value) (λ x. record h { chassis = some x })
      else if text_eq key (text "Deployment")
      then assign (get_string value) (λ x. record h { deployment = some x })
      else if text_eq key (text "Location")
      then assign (get_string value) (λ x. record h { location = some x })
      else if text_eq key (text "KernelName")
      then assign (get_string value) (λ x. record h { kernel_name = x })
      else if text_eq key (text "KernelRelease")
      then assign (get_string value) (λ x. record h { kernel_release = x })
      else if text_eq key (text "KernelVersion")
      then assign (get_string value) (λ x. record h { kernel_version = x })
      else if text_eq key (text "OperatingSystemPrettyName")
      then assign (get_string value) (λ x. record h { operating_system_pretty_name = x })
      else if text_eq key (text "OperatingSystemCPEName")
      then assign (get_string value) (λ x. record h { operating_system_cpe_name = x })
      else if text_eq key (text "OperatingSystemSupportEnd")
      then assign (get_uint64 value) (λ x. record h { operating_system_support_end = some x })
      else if text_eq key (text "OperatingSystemHomeURL")
      then assign (get_string value) (λ x. record h { operating_system_home_url = some x })
      else if text_eq key (text "HardwareVendor")
      then assign (get_string value) (λ x. record h { hardware_vendor = some x })
      else if text_eq key (text "HardwareModel")
      then assign (get_string value) (λ x. record h { hardware_model = some x })
      else if text_eq key (text "FirmwareVersion")
      then assign (get_string value) (λ x. record h { firmware_version = some x })
      else if text_eq key (text "FirmwareVendor")
      then assign (get_string value) (λ x. record h { firmware_vendor = some x })
      else if text_eq key (text "FirmwareDate")
      then assign (get_uint64 value) (λ x. record h { firmware_date = some x })
      else if text_eq key (text "MachineID")
      then assign (get_bytes value) (λ x. record h { machine_id = some x })
      else if text_eq key (text "BootID")
      then assign (get_bytes value) (λ x. record h { boot_id = some x })
      else some h

  -- updateHostname1: the state, and whether it ended without an exception. An exception keeps what
  -- the rounds before it have written.
  unfoldable pub update_hostname1 : List (Text × Variant) → Hostname1 → Hostname1 × Bool
  update_hostname1 [] h = (h, true)
  update_hostname1 ((key, value) ∷ changed) h = elim (update_one key value h) [
    | none ↦ (h, false)
    | some h' ↦ update_hostname1 changed h'
  ]

-- `if (!s.empty()) os << label << s << std::endl`, and the same of an optional.
abbrev pub put_text : Text → Text → Writes
put_text label [] = idle
put_text label (c ∷ s) = put label >> put (c ∷ s) >> endl

abbrev pub put_optional : Text → Option Text → Writes
put_optional label none = idle
put_optional label (some s) = put label >> put s >> endl

abbrev pub put_time : Text → Option ℕ → Writes
put_time label none = idle
put_time label (some n) = put label >> put_number n >> endl

abbrev pub put_id : Text → Option (List ℕ) → Writes
put_id label none = idle
put_id label (some bytes) = put label >> put_bytes bytes >> endl

-- printHostname1, the text that is logged.
unfoldable pub print_hostname1 : Hostname1 → Text
print_hostname1 h =
    ((put_text (b'\t' ∷ text "Hostname: ") h.hostname
        >> put_text (b'\t' ∷ text "StaticHostname: ") h.static_hostname
        >> put_optional (b'\t' ∷ text "PrettyHostname: ") h.pretty_hostname
        >> put_optional (b'\t' ∷ text "DefaultHostname: ") h.default_hostname
        >> put_optional (b'\t' ∷ text "HostnameSource: ") h.hostname_source
        >> put_optional (b'\t' ∷ text "IconName: ") h.icon_name
        >> put_optional (b'\t' ∷ text "Chassis: ") h.chassis
        >> put_optional (b'\t' ∷ text "Deployment: ") h.deployment
        >> put_optional (b'\t' ∷ text "Location: ") h.location
        >> put_text (b'\t' ∷ text "KernelName: ") h.kernel_name
        >> put_text (b'\t' ∷ text "KernelRelease: ") h.kernel_release
        >> put_text (b'\t' ∷ text "KernelVersion: ") h.kernel_version
        >> put_text (b'\t' ∷ text "OperatingSystemPrettyName: ") h.operating_system_pretty_name
        >> put_text (b'\t' ∷ text "OperatingSystemCPEName: ") h.operating_system_cpe_name
        >> put_time (b'\t' ∷ text "OperatingSystemSupportEnd: ") h.operating_system_support_end
        >> put_optional (b'\t' ∷ text "OperatingSystemHomeUrl: ") h.operating_system_home_url
        >> put_optional (b'\t' ∷ text "HardwareVendor: ") h.hardware_vendor
        >> put_optional (b'\t' ∷ text "HardwareModel: ") h.hardware_model
        >> put_optional (b'\t' ∷ text "FirmwareVersion: ") h.firmware_version
        >> put_optional (b'\t' ∷ text "FirmwareVendor: ") h.firmware_vendor
        >> put_time (b'\t' ∷ text "FirmwareDate: ") h.firmware_date
        >> put_id (b'\t' ∷ text "MachineID: ") h.machine_id
        >> put_id (b'\t' ∷ text "BootID: ") h.boot_id)
      new_stream).out
