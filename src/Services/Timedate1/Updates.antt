-- ===== src/Services/Timedate1/Updates.antt =====
-- What updateTimedate1 leaves in the members of Timedate1Client::timedate1.
use sdbus_cpp_examples.Prelude.{◌≡◌, refl, true, List}
use sdbus_cpp_examples.Prelude.Text.{Text, text}
use sdbus_cpp_examples.Prelude.Map.{has_key, text_key}
use sdbus_cpp_examples.Dbus.{Variants}
use sdbus_cpp_examples.Dbus.Tables.Latest.{latest, on_changed-latest}
use sdbus_cpp_examples.Services.Timedate1.{Timedate1, timedate_table, update_timedate1}
use sdbus_cpp_examples.Services.Timedate1.Members.{
  timezone-Member, local_rtc-Member, can_ntp-Member, ntp-Member, ntp_synchronized-Member,
  time_usec-Member, rtc_time_usec-Member,
}

module _ (v : Variants) where
  open v use {Variant, get_string, get_bool, get_uint64}

  -- Each member is the last value that was given for its key, or what it was before.
  abbrev pub IsLatest : List (Text × Variant) → Timedate1 → Timedate1 → Type 0
  IsLatest changed p p' =
      (p'.timezone ≡ latest get_string (text "Timezone") p.timezone changed)
      × (p'.local_rtc ≡ latest get_bool (text "LocalRTC") p.local_rtc changed)
      × (p'.can_ntp ≡ latest get_bool (text "CanNTP") p.can_ntp changed)
      × (p'.ntp ≡ latest get_bool (text "NTP") p.ntp changed)
      × (p'.ntp_synchronized ≡ latest get_bool (text "NTPSynchronized") p.ntp_synchronized changed)
      × (p'.time_usec ≡ latest get_uint64 (text "TimeUSec") p.time_usec changed)
      × (p'.rtc_time_usec ≡ latest get_uint64 (text "RTCTimeUSec") p.rtc_time_usec changed)

  -- After a change of properties that ends without an exception, whatever it gives and in whatever
  -- order, the time zone and the six other members are each the last value that the change gives for
  -- the property timedate1 documents for it (Timezone, LocalRTC, CanNTP, NTP, NTPSynchronized,
  -- TimeUSec, RTCTimeUSec), and what they were before where it gives none.
  pub update_timedate1-IsLatest :
      (changed : List (Text × Variant)) (p : Timedate1)
      → (update_timedate1 v changed p).1 ≡ true
      → IsLatest changed p (update_timedate1 v changed p).0
  unfolding update_timedate1 timedate_table has_key
  update_timedate1-IsLatest changed p ok = (
    on_changed-latest (λ p. p.timezone) get_string (text "Timezone") (timedate_table v) changed p
        (timezone-Member v) refl ok,
    on_changed-latest (λ p. p.local_rtc) get_bool (text "LocalRTC") (timedate_table v) changed p
        (local_rtc-Member v) refl ok,
    on_changed-latest (λ p. p.can_ntp) get_bool (text "CanNTP") (timedate_table v) changed p
        (can_ntp-Member v) refl ok,
    on_changed-latest (λ p. p.ntp) get_bool (text "NTP") (timedate_table v) changed p (ntp-Member v)
        refl ok,
    on_changed-latest (λ p. p.ntp_synchronized) get_bool (text "NTPSynchronized") (timedate_table v)
        changed p (ntp_synchronized-Member v) refl ok,
    on_changed-latest (λ p. p.time_usec) get_uint64 (text "TimeUSec") (timedate_table v) changed p
        (time_usec-Member v) refl ok,
    on_changed-latest (λ p. p.rtc_time_usec) get_uint64 (text "RTCTimeUSec") (timedate_table v)
        changed p (rtc_time_usec-Member v) refl ok,
  )
