-- ===== src/Examples/Storage.antt =====
-- A memory stick that is plugged in, gets a filesystem, and is removed.
use sdbus_cpp_examples.Prelude.{
  ℕ, ◌≡◌, ◌≤◌, ◌+◌, ◌*◌, ◌/◌, ◌%◌, ◌^◌, get_elem?, ◌↔◌, refl, Bool, true, false, Option, none, some,
  List, [], ◌∷◌, ◌++◌, if◌then◌else◌, length, ltb, leb, ◌&&◌, arith,
}
use sdbus_cpp_examples.Prelude.Text.{Text, text, text_eq}
use sdbus_cpp_examples.Prelude.Map.{lookup, has_key, insert, text_key}
use sdbus_cpp_examples.Prelude.Decimal.{decimal, digits}
use sdbus_cpp_examples.Dbus.{Variants}
use sdbus_cpp_examples.Udisks2.Watcher.{
  Watcher, check_and_report_if_ready, block_interface, drive_interface, new_watcher, check_block,
  report_if_filesystem, report, id_usage,
}
use sdbus_cpp_examples.Udisks2.Watcher.Steps.{
  IsReady, reports_of, check_and_report_if_ready-IsReady,
}
use sdbus_cpp_examples.Udisks2.Monitor.{
  Event, added, removed, changed, run, scan, on_interfaces_added, add_block, drive_of, add_on_drive,
  add_removable, removable_of, watch,
}
use sdbus_cpp_examples.Udisks2.Monitor.Once.{removals, scan-run-reports_of}
use sdbus_cpp_examples.Udisks2.Size.{
  format_size, units, unit_of, hundredths, scale_down, max_unit, to_double, normalize,
  round_half_even,
}
use sdbus_cpp_examples.Udisks2.Size.Units.{Near, Fits, scale_down-ends}
use sdbus_cpp_examples.Udisks2.Size.Shown.{format_size-Near}
use sdbus_cpp_examples.Udisks2.Print.{print_device_information}
use sdbus_cpp_examples.Udisks2.Print.Typed.{Ends}
use sdbus_cpp_examples.Udisks2.Print.Complete.{print_device_information-Ends}
use sdbus_cpp_examples.Udisks2.Manager.{Kind, block}
use sdbus_cpp_examples.Udisks2.Manager
use sdbus_cpp_examples.Udisks2.Manager.Refines.{always, announced, run_refines}

-- The variants that occur.
data Value : Type 0 where
  words object : Text → Value
  flag : Bool → Value
  number : ℕ → Value
  raw : List ℕ → Value

abbrev string? : Value → Option Text
string? (words t) = some t
string? _ = none

abbrev path? : Value → Option Text
path? (object t) = some t
path? _ = none

abbrev bool? : Value → Option Bool
bool? (flag b) = some b
bool? _ = none

abbrev number? : Value → Option ℕ
number? (number n) = some n
number? _ = none

abbrev bytes? : Value → Option (List ℕ)
bytes? (raw b) = some b
bytes? _ = none

abbrev values : Variants
values = record {
  Variant = Value;
  get_string = string?;
  get_object_path = path?;
  get_bool = bool?;
  get_int16 = λ x. none;
  get_int32 = λ x. none;
  get_uint64 = number?;
  get_bytes = bytes?;
  get_uint32 = λ x. none;
  get_int64 = λ x. none;
  get_byte = λ x. none;
  get_double = λ x. none;
  get_timestamp = λ x. none;
  get_object_paths = λ x. none;
  get_byte_lists = λ x. none;
  get_strings = λ x. none;
  get_variant_map = λ x. none;
}

abbrev sdb : Text
sdb = text "/block_devices/sdb"

abbrev block_props : List (Text × Value)
block_props =
    (text "Drive", object (text "/drives/stick"))
    ∷ (text "IdUsage", words (text "filesystem"))
    ∷ (text "Device", raw (47 ∷ 115 ∷ 100 ∷ 98 ∷ 0 ∷ []))
    ∷ (text "Size", number 1536)
    ∷ []

abbrev drive_props : List (Text × Value)
drive_props = (text "Removable", flag true) ∷ []

-- A bus that answers for the block device and its drive, not for a filesystem.
abbrev bus : Text → Text → Option (List (Text × Value))
bus path interface =
    if text_eq interface block_interface
    then some block_props
    else if text_eq interface drive_interface
    then some drive_props
    else none

abbrev idle_watcher : Watcher
idle_watcher = record { object_path = sdb; drive_path = text "/drives/stick"; reported = false }

check_and_report_if_ready-IsReady_example :
    (length (check_and_report_if_ready values bus idle_watcher).1 ≤ 1)
    × ((length (check_and_report_if_ready values bus idle_watcher).1 ≡ 1) ↔ IsReady values bus sdb)
check_and_report_if_ready-IsReady_example =
    check_and_report_if_ready-IsReady values bus idle_watcher refl

abbrev announcements : List (Text × List (Text × List (Text × Value)))
announcements = (sdb, (block_interface, block_props) ∷ []) ∷ []

abbrev reads_drive : Text → Option (List (Text × Value))
reads_drive path = some drive_props

-- Removed, added again, and changed.
abbrev replugged : List (Event values)
replugged =
    removed sdb (block_interface ∷ [])
    ∷ added reads_drive bus sdb ((block_interface, block_props) ∷ [])
    ∷ changed bus sdb block_interface block_props
    ∷ []

scanned :
    scan values reads_drive bus announcements ([], [])
    ≡ some (
      (sdb, record idle_watcher { reported = true }) ∷ [],
      record {
        block_path = sdb;
        block_properties = block_props;
        drive_properties = drive_props;
        filesystem_properties = [];
      }
          ∷ [],
    )
unfolding scan on_interfaces_added add_block drive_of add_on_drive add_removable removable_of watch
    new_watcher check_and_report_if_ready check_block report_if_filesystem report id_usage lookup
    has_key insert
scanned = refl

scan-run-reports_of_example :
    reports_of values sdb (
      (record {
        block_path = sdb;
        block_properties = block_props;
        drive_properties = drive_props;
        filesystem_properties = [];
      }
        ∷ [])
      ++ (run values replugged ((sdb, record idle_watcher { reported = true }) ∷ [])).1)
    ≤ 1 + removals values sdb replugged
scan-run-reports_of_example =
    scan-run-reports_of values reads_drive bus announcements replugged _ sdb scanned

largest_shown : format_size 18446744073709551615 ≡ some (text "16777216.00 TB")
unfolding format_size hundredths unit_of scale_down to_double round_half_even normalize digits
largest_shown = refl

format_size-Near_example :
    (unit : ℕ) × (name : Text) × (h : ℕ) × Fits 1536 (unit, 1024 ^ unit)
    × (get_elem? units unit ≡ some name)
    × (format_size 1536
        ≡ some (
            decimal (h / 100)
            ++ b'.' ∷ digits 10 1 (h / 10 % 10)
            ++ digits 10 1 (h % 10)
            ++ b' ' ∷ name))
    × Near (100 * 1536) (1024 ^ unit) h
format_size-Near_example = format_size-Near 1536 (omega arith)

scale_down-ends_example :
    let (unit, scale) = scale_down 5000000 max_unit (0, 1) in
    (scale_down 5000000 (max_unit + 60) (0, 1) ≡ (unit, scale))
    × ((leb (1024 * scale) 5000000 && ltb unit max_unit && ltb 0 5000000) ≡ false)
scale_down-ends_example = scale_down-ends 5000000 60

print_device_information-Ends_example :
    Ends (print_device_information values sdb block_props drive_props [])
unfolding lookup
print_device_information-Ends_example =
    print_device_information-Ends values sdb block_props drive_props []
      (((_, refl), (tt, tt)), (1536, refl), (tt, (tt, (tt, ((_, refl), (tt, tt))))), tt, tt)
      ((tt, (tt, (tt, (tt, (tt, (tt, (tt, tt))))))), tt, ((_, refl), (tt, (tt, tt))), tt) (tt, tt)

abbrev plugged : List Manager.Event
plugged =
    Manager.added sdb (text "org.freedesktop.UDisks2.Block" ∷ text "org.example.Other" ∷ [])
    ∷ Manager.removed sdb (text "org.freedesktop.UDisks2.Block" ∷ [])
    ∷ []

run_refines_example :
    has_key sdb ((Manager.run always plugged Manager.new_manager).maps block)
    ≡ announced plugged (λ j p. false) block sdb
run_refines_example = run_refines plugged block sdb
