-- ===== src/Bluez/DualSense/Features.antt =====
-- src/bluez/ps5_dual_sense/input_reader.cc: the feature reports of the addresses and of the version,
-- the opening of the device, and what is logged of the two reports. The answer of an ioctl is the
-- struct that the kernel leaves in the buffer, or the errno.
pub mod Addresses
use sdbus_cpp_examples.Prelude.{
  ℕ, ◌/◌, ◌%◌, ◌-◌, Bool, true, false, not, ◌&&◌, ◌||◌, Option, none, some, List, [], ◌∷◌, ◌++◌,
  map, ◌==◌, if◌then◌else◌, length, replicate, take,
}
use mathlib.Core.List.{reverse}
use sdbus_cpp_examples.Prelude.Text.{Text, text, to_upper}
use sdbus_cpp_examples.Prelude.Decimal.{decimal, hexadecimal, hex_byte}
use sdbus_cpp_examples.UniqueFd.{UniqueFd}
use sdbus_cpp_examples.Bluez.Opening.{Answers, Reader, open_and_init}
use sdbus_cpp_examples.Bluez.DualSense
use sdbus_cpp_examples.Bluez.DualSense.{Hardware, get_controller_calibration_data, no_calibration}

-- std::error_code: an errno, or hid::Error::kInvalidResponse.
pub data Fault : Type 0 where
  errno : ℕ → Fault
  invalid_response : Fault

-- hid::error_category().message(), of a condition.
unfoldable pub hid_message : ℕ → Text
hid_message condition =
    if condition == 1 then text "invalid device response" else text "unknown hid error"

-- ReportFeatureInMacAll; the addresses stand with the last byte first.
pub record MacAll : Type 0 where
  pub report_id : ℕ
  pub client_mac : List ℕ
  pub hard_08 : ℕ
  pub hard_25 : ℕ
  pub hard_00 : ℕ
  pub host_mac : List ℕ

-- ReportFeatureInVersion, without the image information.
pub record Version : Type 0 where
  pub report_id : ℕ
  pub build_date : Text
  pub build_time : Text
  pub fw_type : ℕ
  pub sw_series : ℕ
  pub hardware_info : ℕ
  pub firmware_version : ℕ
  pub update_version : ℕ
  pub sbl_fw_version : ℕ
  pub venom_fw_version : ℕ
  pub spider_dsp_fw_version : ℕ

-- What an ioctl that asks for a feature report answers.
pub data Answer {ℓ} (A : Type ℓ) : Type ℓ where
  fails : ℕ → Answer A
  gives : A → Answer A

-- GetControllerMacAll: the member after it, and the error if there is one. The member keeps what the
-- kernel has left there, also if it is refused.
unfoldable pub get_controller_mac_all : Answer MacAll → MacAll → MacAll × Option Fault
get_controller_mac_all (fails e) old = (record old { report_id = 9 }, some (errno e))
get_controller_mac_all (gives m) old = (
  m,
  if not (m.report_id == 9)
        || (not (m.hard_08 == 8) || (not (m.hard_25 == 37) || not (m.hard_00 == 0)))
      then some invalid_response
      else none,
)

-- GetControllerVersion.
unfoldable pub get_controller_version : Answer Version → Version → Version × Option Fault
get_controller_version (fails e) old = (record old { report_id = 32 }, some (errno e))
get_controller_version (gives w) old =
    (w, if not (w.report_id == 32) then some invalid_response else none)

-- The members of an InputReader.
pub record InputReader : Type 0 where
  pub reader : Reader
  pub mac_all : MacAll
  pub version : Version
  pub hw_cal_data : Hardware

-- What the device answers for the three feature reports.
pub record FeatureAnswers : Type 0 where
  pub calibration : Option DualSense.Report
  pub mac : Answer MacAll
  pub versions : Answer Version

-- The feature reports, which are asked for only once all else has succeeded: each may fail.
unfoldable pub get_features : FeatureAnswers → InputReader → InputReader
get_features f r = record r {
  hw_cal_data = (get_controller_calibration_data f.calibration r.hw_cal_data).0;
  mac_all = (get_controller_mac_all f.mac r.mac_all).0;
  version = (get_controller_version f.versions r.version).0;
}

abbrev pub if_open : Option ℕ → InputReader → InputReader → InputReader
if_open none opened closed = closed
if_open (some fd) opened closed = opened

-- InputReader::open_and_init: the same requests as of the other controllers, then the features.
unfoldable pub open_device : Answers → FeatureAnswers → InputReader → InputReader
open_device a f r =
    let r' : InputReader = record r { reader = open_and_init a r.reader } in
    if_open r'.reader.fd (get_features f r') r'

-- Six bytes in reverse, with a colon between them.
unfoldable pub colons : List ℕ → Text
colons [] = []
colons (b ∷ []) = hex_byte b
colons (b ∷ c ∷ bs) = hex_byte b ++ b':' ∷ colons (c ∷ bs)

abbrev pub mac_text : List ℕ → Text
mac_text bytes = colons (reverse bytes)

-- `{:0wX}` and `std::hex << std::setw(w) << std::setfill('0')`.
abbrev pub padded : ℕ → Text → Text
padded w t = replicate (w - length t) b'0' ++ t

abbrev pub upper_hex : ℕ → ℕ → Text
upper_hex w n = padded w (map to_upper (hexadecimal n))

-- PrintControllerMacAll.
unfoldable pub print_controller_mac_all : MacAll → List Text
print_controller_mac_all m =
    text "Controller Mac All"
    ∷ (b'\t' ∷ text "Report ID: 0x" ++ upper_hex 2 m.report_id)
    ∷ (b'\t' ∷ text "Client: " ++ mac_text m.client_mac)
    ∷ (b'\t' ∷ text "Host: " ++ mac_text m.host_mac)
    ∷ []

-- `AA.BB.CCCC` of 0xAABBCCCC.
unfoldable pub firmware_version_text : ℕ → Text
firmware_version_text n =
    padded 2 (hexadecimal (n / 16777216 % 256))
    ++ b'.'
      ∷ (padded 2 (hexadecimal (n / 65536 % 256)) ++ b'.' ∷ padded 4 (hexadecimal (n % 65536)))

-- PrintControllerVersion, up to the firmware version.
unfoldable pub print_controller_version : Version → List Text
print_controller_version w =
    text "Firmware Info"
    ∷ (b'\t' ∷ text "ReportID: 0x" ++ upper_hex 2 w.report_id)
    ∷ (b'\t' ∷ text "BuildDate: " ++ take 11 w.build_date)
    ∷ (b'\t' ∷ text "BuildTime: " ++ take 8 w.build_time)
    ∷ (b'\t' ∷ text "FwType: " ++ decimal w.fw_type)
    ∷ (b'\t' ∷ text "SwSeries: 0x" ++ upper_hex 4 w.sw_series)
    ∷ (b'\t' ∷ text "HardwareInfo: 0x" ++ upper_hex 8 w.hardware_info)
    ∷ (b'\t' ∷ text "FirmwareVersion: " ++ firmware_version_text w.firmware_version)
    ∷ []
