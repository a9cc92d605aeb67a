-- ===== src/Services/Hostname1/Described.antt =====
-- src/hostname1/hostname1_client.cc: what the constructor prints of the description in JSON, which
-- glaze parses.
use sdbus_cpp_examples.Prelude.{Option, none, some, List, [], ◌∷◌}
use sdbus_cpp_examples.Prelude.Text.{Text, text}
use sdbus_cpp_examples.Printing.Streams.{Writes, new_stream, ◌>>◌, idle, put, endl, for_each}
use sdbus_cpp_examples.Services.Hostname1.{Hostname1, put_text, put_optional, put_time}

-- Hostname1Client::Hostname1 as the description fills it: the members that a change of properties
-- writes too, and those that only the description has. Its two ids are texts.
pub record Description : Type 0 where
  pub host : Hostname1
  pub operating_system_release_data : Option (List Text)
  pub machine_id : Option Text
  pub boot_id : Option Text

abbrev pub put_items : Text → Option (List Text) → Writes
put_items label none = idle
put_items label (some items) =
    put label >> endl >> for_each (λ item. put (b'\t' ∷ b'\t' ∷ item) >> endl) items

-- The static printHostname1, the text that is logged.
unfoldable pub print_description : Description → Text
print_description d =
    let h = d.host in
    ((put_text (b'\t' ∷ text "Hostname: ") h.hostname
        >> put_text (b'\t' ∷ text "StaticHostname: ") h.static_hostname
        >> put_optional (b'\t' ∷ text "PrettyHostname: ") h.pretty_hostname
        >> put_optional (b'\t' ∷ text "DefaultHostname: ") h.default_hostname
        >> put_optional (b'\t' ∷ text "HostnameSource: ") h.hostname_source
        >> put_optional (b'\t' ∷ text "IconName: ") h.icon_name
        >> put_optional (b'\t' ∷ text "Chassis: ") h.chassis
        >> put_optional (b'\t' ∷ text "Deployment: ") h.deployment
        >> put_optional (b'\t' ∷ text "Location: ") h.location
        >> put_text (b'\t' ∷ text "KernelName: ") h.kernel_name
        >> put_text (b'\t' ∷ text "KernelRelease: ") h.kernel_release
        >> put_text (b'\t' ∷ text "KernelVersion: ") h.kernel_version
        >> put_text (b'\t' ∷ text "OperatingSystemPrettyName: ") h.operating_system_pretty_name
        >> put_items (b'\t' ∷ text "OperatingSystemReleaseData: ") d.operating_system_release_data
        >> put_text (b'\t' ∷ text "OperatingSystemCPEName: ") h.operating_system_cpe_name
        >> put_time (b'\t' ∷ text "OperatingSystemSupportEnd: ") h.operating_system_support_end
        >> put_optional (b'\t' ∷ text "OperatingSystemHomeURL: ") h.operating_system_home_url
        >> put_optional (b'\t' ∷ text "HardwareVendor: ") h.hardware_vendor
        >> put_optional (b'\t' ∷ text "HardwareModel: ") h.hardware_model
        >> put_optional (b'\t' ∷ text "FirmwareVersion: ") h.firmware_version
        >> put_optional (b'\t' ∷ text "FirmwareVendor: ") h.firmware_vendor
        >> put_time (b'\t' ∷ text "FirmwareDate: ") h.firmware_date
        >> put_optional (b'\t' ∷ text "MachineID: ") d.machine_id
        >> put_optional (b'\t' ∷ text "BootID: ") d.boot_id)
      new_stream).out

-- The constructor, given glz::read_json: the text it logs, if the description is there and is read.
unfoldable pub construct : (Text → Option Description) → Text → Option Text
construct read_json [] = none
construct read_json (c ∷ description) = elim (read_json (c ∷ description)) [
  | none ↦ none
  | some d ↦ some (print_description d)
]
