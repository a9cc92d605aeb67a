-- ===== src/Services/Timedate1.antt =====
-- src/timedate1/timedate1_client.cc: the clock of the system, and the text that is logged of it.
pub mod Members
pub mod Updates
use sdbus_cpp_examples.Prelude.{ℕ, Bool, Option, none, some, List, [], ◌∷◌, ◌++◌}
use sdbus_cpp_examples.Prelude.Text.{Text, text}
use sdbus_cpp_examples.Dbus.{Variants}
use sdbus_cpp_examples.Dbus.Tables.{Table, field, on_changed}
use sdbus_cpp_examples.Printing.Properties.{bool_text}
use sdbus_cpp_examples.Printing.Streams.{Writes, new_stream, ◌>>◌, put, endl, put_number}
use sdbus_cpp_examples.Services.Hostname1.{put_text}

-- Timedate1Client::timedate1.
pub record Timedate1 : Type 0 where
  pub timezone : Text
  pub local_rtc : Bool
  pub can_ntp : Bool
  pub ntp : Bool
  pub ntp_synchronized : Bool
  pub time_usec : ℕ
  pub rtc_time_usec : ℕ

module _ (v : Variants) where
  open v use {Variant, get_string, get_bool, get_uint64}

  unfoldable pub timedate_table : Table Variant Timedate1
  timedate_table =
      (text "Timezone", field get_string (λ x p. record p { timezone = x }))
      ∷ (text "LocalRTC", field get_bool (λ x p. record p { local_rtc = x }))
      ∷ (text "CanNTP", field get_bool (λ x p. record p { can_ntp = x }))
      ∷ (text "NTP", field get_bool (λ x p. record p { ntp = x }))
      ∷ (text "NTPSynchronized", field get_bool (λ x p. record p { ntp_synchronized = x }))
      ∷ (text "TimeUSec", field get_uint64 (λ x p. record p { time_usec = x }))
      ∷ (text "RTCTimeUSec", field get_uint64 (λ x p. record p { rtc_time_usec = x }))
      ∷ []

  unfoldable pub update_timedate1 : List (Text × Variant) → Timedate1 → Timedate1 × Bool
  update_timedate1 changed p = on_changed timedate_table changed p

abbrev pub put_flag : Text → Bool → Writes
put_flag label b = put (b'\t' ∷ label ++ text ": ") >> put (bool_text b) >> endl

-- `local_date` is localtime_r and std::put_time for a count of microseconds, `none` for a null pointer.
module _ (local_date : ℕ → Option Text) where
  unfoldable pub append_time_usec_as_date : ℕ → Writes
  append_time_usec_as_date time_usec = elim (local_date time_usec) [
    | none ↦ put (b'\t' ∷ text "Date: (invalid)") >> endl
    | some date ↦ put (b'\t' ∷ text "Date: ") >> put date >> endl
  ]

  -- printTimedate1, the text that is logged.
  unfoldable pub print_timedate1 : Timedate1 → Text
  print_timedate1 p =
      ((put_text (text "Timezone:") p.timezone
          >> put_flag (text "LocalRTC") p.local_rtc
          >> put_flag (text "CanNTP") p.can_ntp
          >> put_flag (text "NTP") p.ntp
          >> put_flag (text "NTPSynchronized") p.ntp_synchronized
          >> put_flag (text "NTP") p.ntp
          >> put (b'\t' ∷ text "TimeUSec: ")
          >> put_number p.time_usec
          >> endl
          >> append_time_usec_as_date p.time_usec
          >> put (b'\t' ∷ text "RTCTimeUSec: ")
          >> put_number p.rtc_time_usec
          >> endl
          >> append_time_usec_as_date p.rtc_time_usec)
        new_stream).out
