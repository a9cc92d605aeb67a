-- ===== src/Programs/Presenting.antt =====
-- The programs that ask a service for its properties once, print them and end: the main.cc files of
-- src/locale1, src/hostname1, src/timedate1 and src/fwupd. What the bus answers is an argument,
-- `none` where the call throws; a text is printed for each LOG_INFO.
pub mod Answered
use sdbus_cpp_examples.Prelude.{
  ℕ, suc, Bool, true, false, Option, none, some, List, [], ◌∷◌, ◌++◌, if◌then◌else◌, length,
}
use sdbus_cpp_examples.Prelude.Text.{Text, text}
use sdbus_cpp_examples.Prelude.Decimal.{decimal}
use sdbus_cpp_examples.Dbus.{Variants}
use sdbus_cpp_examples.Printing.Values
use sdbus_cpp_examples.Printing.Streams.{new_stream, ◌>>◌, put, endl}
use sdbus_cpp_examples.Printing.Properties.{append_properties, print_changed_properties}
use sdbus_cpp_examples.Services.Locale1.{Locale1, update_locale1, print_locale1}
use sdbus_cpp_examples.Services.Hostname1.{
  Hostname1, no_hostname1, update_hostname1, print_hostname1,
}
use sdbus_cpp_examples.Services.Hostname1.Described
use sdbus_cpp_examples.Services.Timedate1.{Timedate1, update_timedate1, print_timedate1}

-- How a program ends: main returns, or an exception that nothing catches ends it.
pub data Exit : Type 0 where
  returned : ℕ → Exit
  terminated : Exit

abbrev pub no_locale : Locale1
no_locale = record {
  locale = [];
  x11_layout = [];
  x11_model = [];
  x11_variant = [];
  x11_options = [];
  v_console_keymap = [];
  v_console_keymap_toggle = [];
}

abbrev pub no_timedate : Timedate1
no_timedate = record {
  timezone = [];
  local_rtc = false;
  can_ntp = false;
  ntp = false;
  ntp_synchronized = false;
  time_usec = 0;
  rtc_time_usec = 0;
}

-- `updateX(future.get()); printX(); return 0;` without a try, given what was printed before.
unfoldable pub show_once :
    {M P : Type 0} → (M → P → P × Bool) → (P → Text) → P → List Text → Option M → Exit × List Text
show_once update show p before none = (terminated, before)
show_once update show p before (some m) =
    let r = update m p in
    if r.1 then (returned 0, before ++ show r.0 ∷ []) else (terminated, before)

module _ (v : Variants) where
  open v use {Variant}

  -- main of src/locale1.
  unfoldable pub locale_main : Bool → Option (List (Text × Variant)) → Exit × List Text
  locale_main connects reply =
      if connects
      then show_once (update_locale1 v) print_locale1 no_locale [] reply
      else (terminated, [])

  abbrev pub listed : Option Text → List Text
  listed none = []
  listed (some t) = t ∷ []

  -- main of src/hostname1, whose client asks for a description first.
  unfoldable pub hostname_main :
      (Text → Option Described.Description)
      → Bool
      → Option Text
      → Option (List (Text × Variant))
      → Exit × List Text
  hostname_main read_json connects none reply = (terminated, [])
  hostname_main read_json connects (some description) reply =
      if connects
      then show_once (update_hostname1 v) print_hostname1 no_hostname1
          (listed (Described.construct read_json description)) reply
      else (terminated, [])

  -- One round of the loop of src/timedate1, whose exceptions are caught: the client and what is printed.
  unfoldable pub timedate_round :
      (ℕ → Option Text) → Option (List (Text × Variant)) → Timedate1 → Timedate1 × List Text
  timedate_round local_date none p = (p, [])
  timedate_round local_date (some m) p =
      let r = update_timedate1 v m p in
      (r.0, if r.1 then print_timedate1 local_date r.0 ∷ [] else [])

  unfoldable pub timedate_rounds :
      (ℕ → Option Text) → List (Option (List (Text × Variant))) → Timedate1 → List Text
  timedate_rounds local_date [] p = []
  timedate_rounds local_date (reply ∷ replies) p =
      let r = timedate_round local_date reply p in r.1 ++ timedate_rounds local_date replies r.0

  -- main of src/timedate1, which asks four times.
  unfoldable pub timedate_main :
      (ℕ → Option Text) → Bool → (a b c d : Option (List (Text × Variant))) → Exit × List Text
  timedate_main local_date connects a b c d =
      if connects
      then (returned 0, timedate_rounds local_date (a ∷ b ∷ c ∷ d ∷ []) no_timedate)
      else (terminated, [])

abbrev Map : Type 0
Map = List (Text × Values.Variant)

module _ (double_text : ℕ → Text) where
  -- The devices, numbered from `i`.
  unfoldable pub device_texts : ℕ → ℕ → List Map → List Text
  device_texts i count [] = []
  device_texts i count (device ∷ devices) =
      ((endl
          >> put (text "Device " ++ (decimal i ++ (text " of " ++ decimal count)))
          >> endl
          >> append_properties double_text device)
        new_stream).out
      ∷ device_texts (suc i) count devices

  abbrev pub properties_text : Text → Option Map → List Text
  properties_text interface none = []
  properties_text interface (some m) = print_changed_properties double_text interface m [] ∷ []

  abbrev pub devices_text : Option (List Map) → List Text
  devices_text none = []
  devices_text (some devices) =
      (text "Found " ++ (decimal (length devices) ++ text " device(s)"))
      ∷ device_texts 1 (length devices) devices

  -- main of src/fwupd: both failures are caught and logged.
  unfoldable pub fwupd_main : Bool → Text → Option Map → Option (List Map) → Exit × List Text
  fwupd_main connects interface reply devices =
      if connects
      then (returned 0, properties_text interface reply ++ devices_text devices)
      else (terminated, [])
