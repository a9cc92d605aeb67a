-- ===== src/Examples/Wrappers.antt =====
-- The objects that keep the properties they are told: GATT, an adapter, UPower.
use sdbus_cpp_examples.Prelude.{
  ◌≡◌, refl, Bool, true, false, Option, none, some, List, [], ◌∷◌, ◌++◌, ◌+◌, ◌&&◌,
}
use sdbus_cpp_examples.Prelude.Text.{Text, text}
use sdbus_cpp_examples.Prelude.Map.{has_key, text_key}
use sdbus_cpp_examples.Dbus.{Variants, get_property_or}
use sdbus_cpp_examples.Dbus.Tables.{on_changed, set_field}
use sdbus_cpp_examples.Services.Timedate1.{Timedate1, timedate_table, update_timedate1}
use sdbus_cpp_examples.Services.Timedate1.Updates.{IsLatest, update_timedate1-IsLatest}
use sdbus_cpp_examples.Bluez.Gatt.{
  has_text, Characteristic, gatt_characteristic, characteristic_table, set_flags,
  set_notify_acquired, set_notifying, is_notify_flag_set,
}
use sdbus_cpp_examples.Bluez.Gatt.Order.{Ordered, text_less}
use sdbus_cpp_examples.Bluez.Gatt.Notify.{gatt_characteristic-notifying}
use sdbus_cpp_examples.Services.Upower.DisplayDevice.{failed, answered}
use sdbus_cpp_examples.Services.Upower.{new_client, Event, enumerated, removed, run, is_wanted}
use sdbus_cpp_examples.Services.Upower.Filtered.{is_there, run-has_key}
use sdbus_cpp_examples.Bluez.Adapter1.{no_adapter, change_property, adapter_table, keep_discovering}
use sdbus_cpp_examples.Bluez.Adapter1
use sdbus_cpp_examples.Bluez.Adapter1.Branches.{calls}
use sdbus_cpp_examples.Bluez.Adapter1.Discovery.{stopped, on_properties_changed-calls}
use sdbus_cpp_examples.Services.Geoclue.{change, manager_table}
use sdbus_cpp_examples.Services.Locale1.{print_locale1}
use sdbus_cpp_examples.Services.Announcing.{removed_lines}
use sdbus_cpp_examples.Services.Announcing
use sdbus_cpp_examples.Printing.Streams.{◌>>◌, put, for_each}

data Value : Type 0 where
  words path : Text → Value
  list : List Text → Value
  flag : Bool → Value

abbrev string? : Value → Option Text
string? (words t) = some t
string? _ = none

abbrev path? : Value → Option Text
path? (path t) = some t
path? _ = none

abbrev list? : Value → Option (List Text)
list? (list ts) = some ts
list? _ = none

abbrev flag? : Value → Option Bool
flag? (flag b) = some b
flag? _ = none

abbrev values : Variants
values = record {
  Variant = Value;
  get_string = string?;
  get_object_path = path?;
  get_bool = flag?;
  get_int16 = λ x. none;
  get_int32 = λ x. none;
  get_uint64 = λ x. none;
  get_uint32 = λ x. none;
  get_int64 = λ x. none;
  get_byte = λ x. none;
  get_double = λ x. none;
  get_timestamp = λ x. none;
  get_object_paths = λ x. none;
  get_bytes = λ x. none;
  get_byte_lists = λ x. none;
  get_strings = list?;
  get_variant_map = λ x. none;
}

abbrev clock : Timedate1
clock = record {
  timezone = text "UTC";
  local_rtc = false;
  can_ntp = true;
  ntp = true;
  ntp_synchronized = true;
  time_usec = 0;
  rtc_time_usec = 0;
}

-- A new time zone, and no network time any more.
abbrev moved : List (Text × Value)
moved =
    (text "Timezone", words (text "Europe/Berlin"))
    ∷ (text "NTP", flag false)
    ∷ (text "NTPSynchronized", flag false)
    ∷ []

moved-ok : (update_timedate1 values moved clock).1 ≡ true
unfolding update_timedate1 on_changed timedate_table set_field
moved-ok = refl

update_timedate1-IsLatest_example :
    IsLatest values moved clock (update_timedate1 values moved clock).0
update_timedate1-IsLatest_example = update_timedate1-IsLatest values moved clock moved-ok

abbrev announced : List (Text × Value)
announced =
    (text "Flags", list (text "read" ∷ text "notify" ∷ []))
    ∷ (text "Notifying", flag true)
    ∷ (text "UUID", words (text "2a19"))
    ∷ []

abbrev battery_level : Characteristic
battery_level = record {
  flags = text "read" ∷ text "notify" ∷ [];
  notify_acquired = false;
  notifying = true;
  service = [];
  uuid = text "2a19";
  value = [];
}

announced-Ordered : Ordered announced
unfolding text_less
announced-Ordered = ((refl, (refl, tt)), ((refl, tt), (tt, tt)))

announced-constructs : gatt_characteristic values announced ≡ some battery_level
unfolding gatt_characteristic on_changed set_field characteristic_table set_flags
    set_notify_acquired set_notifying is_notify_flag_set has_text
announced-constructs = refl

gatt_characteristic-notifying_example :
    (battery_level.flags ≡ get_property_or list? announced (text "Flags") [])
    × (battery_level.notifying ≡ (
        has_text (text "notify") battery_level.flags
        && get_property_or flag? announced (text "Notifying") false))
gatt_characteristic-notifying_example =
    gatt_characteristic-notifying values announced battery_level announced-Ordered
      announced-constructs

abbrev battery : Text
battery = text "/battery_BAT0"

abbrev events : List (Event Value)
events =
    enumerated (λ device. true) failed
    ∷ enumerated (λ device. true) (answered (text "/line_power_AC" ∷ battery ∷ []))
    ∷ removed (text "/line_power_AC")
    ∷ []

run-has_key_example :
    let (c, ok) = run values events (new_client battery) in
    let due = is_wanted battery battery && is_there battery false events in
    ((has_key battery c.devices && due) ≡ has_key battery c.devices)
    × ((ok && has_key battery c.devices) ≡ (ok && due))
run-has_key_example = run-has_key values events battery battery

-- An adapter that hears that no discovery is going on.
abbrev quiet : List (Text × Value)
quiet = (text "Alias", words (text "hci0")) ∷ (text "Discovering", flag false) ∷ []

quiet-ok : (Adapter1.on_properties_changed values true quiet no_adapter).1 ≡ true
unfolding Adapter1.on_properties_changed change_property adapter_table keep_discovering set_field
quiet-ok = refl

on_properties_changed-calls_example :
    calls (Adapter1.on_properties_changed values true quiet no_adapter).0
    ≡ stopped values true quiet + calls no_adapter
on_properties_changed-calls_example =
    on_properties_changed-calls values true quiet no_adapter quiet-ok

-- A change that GeoClue does not know is printed once for each of its keys.
abbrev strange : List (Text × Value)
strange = (text "InUse", flag true) ∷ (text "A", flag true) ∷ (text "B", flag true) ∷ []

manager_test :
    (change
      (manager_table values)
      strange
      (record { in_use = false; available_accuracy_level = 0 })).prints
    ≡ 2
unfolding change manager_table set_field has_key
manager_test = refl

locale_test :
    print_locale1 (record {
      locale = text "LANG=C" ∷ [];
      x11_layout = text "us";
      x11_model = [];
      x11_variant = [];
      x11_options = [];
      v_console_keymap = [];
      v_console_keymap_toggle = [];
    })
    ≡ text "Locale:"
      ++ b'\n' ∷ b'\t' ∷ text "LANG=C "
      ++ b'\n' ∷ b'\t' ∷ text "X11Layout: us"
      ++ b'\n' ∷ []
unfolding print_locale1 ◌>>◌ put for_each
locale_test = refl

removed_test :
    Announcing.on_interfaces_removed (text "/d") (text "a" ∷ text "b" ∷ [])
    ≡ b'\n' ∷ text "[/d] Remove - a" ++ b'\n' ∷ text "[/d] Remove - b"
unfolding Announcing.on_interfaces_removed removed_lines ◌>>◌ put
removed_test = refl
