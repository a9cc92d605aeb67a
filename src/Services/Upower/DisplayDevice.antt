-- ===== src/Services/Upower/DisplayDevice.antt =====
-- src/upower/upower_display_device.cc and .h: a power device and the properties it has been told.
use sdbus_cpp_examples.Prelude.{ℕ, Bool, false, List, [], ◌∷◌}
use sdbus_cpp_examples.Prelude.Text.{Text, text}
use sdbus_cpp_examples.Prelude.Int.{ℤ, pos}
use sdbus_cpp_examples.Dbus.{Variants}
use sdbus_cpp_examples.Dbus.Tables.{Table, field, on_changed}

-- UPowerDisplayDevice::Properties; a double is the number of its bits.
pub record Properties : Type 0 where
  pub battery_level : ℕ
  pub capacity : ℕ
  pub charge_cycles : ℤ
  pub charge_end_threshold : ℕ
  pub charge_start_threshold : ℕ
  pub charge_threshold_enabled : Bool
  pub charge_threshold_supported : Bool
  pub energy : ℕ
  pub energy_empty : ℕ
  pub energy_full : ℕ
  pub energy_full_design : ℕ
  pub energy_rate : ℕ
  pub has_history : Bool
  pub has_statistics : Bool
  pub icon_name : Text
  pub is_present : Bool
  pub is_rechargeable : Bool
  pub luminosity : ℕ
  pub model : Text
  pub native_path : Text
  pub online : Bool
  pub percentage : ℕ
  pub power_supply : Bool
  pub serial : Text
  pub state : ℕ
  pub technology : ℕ
  pub temperature : ℕ
  pub time_to_empty : ℤ
  pub time_to_full : ℤ
  pub device_type : ℕ
  pub update_time : ℕ
  pub vendor : Text
  pub voltage : ℕ
  pub warning_level : ℕ

abbrev pub no_properties : Properties
no_properties = record {
  battery_level = 0;
  capacity = 0;
  charge_cycles = pos 0;
  charge_end_threshold = 0;
  charge_start_threshold = 0;
  charge_threshold_enabled = false;
  charge_threshold_supported = false;
  energy = 0;
  energy_empty = 0;
  energy_full = 0;
  energy_full_design = 0;
  energy_rate = 0;
  has_history = false;
  has_statistics = false;
  icon_name = [];
  is_present = false;
  is_rechargeable = false;
  luminosity = 0;
  model = [];
  native_path = [];
  online = false;
  percentage = 0;
  power_supply = false;
  serial = [];
  state = 0;
  technology = 0;
  temperature = 0;
  time_to_empty = pos 0;
  time_to_full = pos 0;
  device_type = 0;
  update_time = 0;
  vendor = [];
  voltage = 0;
  warning_level = 0;
}

module _ (v : Variants) where
  open v use {
    Variant, get_string, get_bool, get_double, get_uint32, get_int32, get_int64, get_uint64,
  }

  unfoldable pub device_table : Table Variant Properties
  device_table =
      (text "BatteryLevel", field get_uint32 (λ x p. record p { battery_level = x }))
      ∷ (text "Capacity", field get_double (λ x p. record p { capacity = x }))
      ∷ (text "ChargeCycles", field get_int32 (λ x p. record p { charge_cycles = x }))
      ∷ (text "ChargeEndThreshold", field get_uint32 (λ x p. record p { charge_end_threshold = x }))
      ∷ (
        text "ChargeStartThreshold",
        field get_uint32 (λ x p. record p { charge_start_threshold = x }),
      )
      ∷ (
        text "ChargeThresholdEnabled",
        field get_bool (λ x p. record p { charge_threshold_enabled = x }),
      )
      ∷ (
        text "ChargeThresholdSupported",
        field get_bool (λ x p. record p { charge_threshold_supported = x }),
      )
      ∷ (text "Energy", field get_double (λ x p. record p { energy = x }))
      ∷ (text "EnergyEmpty", field get_double (λ x p. record p { energy_empty = x }))
      ∷ (text "EnergyFull", field get_double (λ x p. record p { energy_full = x }))
      ∷ (text "EnergyFullDesign", field get_double (λ x p. record p { energy_full_design = x }))
      ∷ (text "EnergyRate", field get_double (λ x p. record p { energy_rate = x }))
      ∷ (text "HasHistory", field get_bool (λ x p. record p { has_history = x }))
      ∷ (text "HasStatistics", field get_bool (λ x p. record p { has_statistics = x }))
      ∷ (text "IconName", field get_string (λ x p. record p { icon_name = x }))
      ∷ (text "IsPresent", field get_bool (λ x p. record p { is_present = x }))
      ∷ (text "IsRechargeable", field get_bool (λ x p. record p { is_rechargeable = x }))
      ∷ (text "Luminosity", field get_double (λ x p. record p { luminosity = x }))
      ∷ (text "Model", field get_string (λ x p. record p { model = x }))
      ∷ (text "NativePath", field get_string (λ x p. record p { native_path = x }))
      ∷ (text "Online", field get_bool (λ x p. record p { online = x }))
      ∷ (text "Percentage", field get_double (λ x p. record p { percentage = x }))
      ∷ (text "PowerSupply", field get_bool (λ x p. record p { power_supply = x }))
      ∷ (text "Serial", field get_string (λ x p. record p { serial = x }))
      ∷ (text "State", field get_uint32 (λ x p. record p { state = x }))
      ∷ (text "Technology", field get_uint32 (λ x p. record p { technology = x }))
      ∷ (text "Temperature", field get_double (λ x p. record p { temperature = x }))
      ∷ (text "TimeToEmpty", field get_int64 (λ x p. record p { time_to_empty = x }))
      ∷ (text "TimeToFull", field get_int64 (λ x p. record p { time_to_full = x }))
      ∷ (text "Type", field get_uint32 (λ x p. record p { device_type = x }))
      ∷ (text "UpdateTime", field get_uint64 (λ x p. record p { update_time = x }))
      ∷ (text "Vendor", field get_string (λ x p. record p { vendor = x }))
      ∷ (text "Voltage", field get_double (λ x p. record p { voltage = x }))
      ∷ (text "WarningLevel", field get_uint32 (λ x p. record p { warning_level = x }))
      ∷ []

  -- UPowerDisplayDevice::onPropertiesChanged, without its printing: the properties, and whether
  -- nothing was thrown.
  unfoldable pub on_properties_changed : List (Text × Variant) → Properties → Properties × Bool
  on_properties_changed changed p = on_changed device_table changed p

-- The answer to GetAllAsync: an error, or the properties.
pub data Reply (A : Type 0) : Type 0 where
  failed : Reply A
  answered : A → Reply A

-- The callback of the constructor: an error is logged, and so is an exception, which ends there.
unfoldable pub on_get_all :
    (v : Variants) → Reply (List (Text × v.Variant)) → Properties → Properties
on_get_all v failed p = p
on_get_all v (answered properties) p = (on_properties_changed v properties p).0
