-- ===== src/Services/Timedate1/Members.antt =====
-- Which branch of updateTimedate1 writes which member.
use sdbus_cpp_examples.Prelude.{refl, Option, All}
use sdbus_cpp_examples.Prelude.Text.{Text, text}
use sdbus_cpp_examples.Prelude.Map.{text_key}
use sdbus_cpp_examples.Dbus.{Variants}
use sdbus_cpp_examples.Dbus.Tables.Latest.{WritesFor, read_or, field-writes, field-keeps}
use sdbus_cpp_examples.Services.Timedate1.{Timedate1, timedate_table}

module _ (v : Variants) where
  open v use {Variant, get_string, get_bool, get_uint64}

  -- A branch writes the member if it is the key's, and leaves it otherwise.
  abbrev pub Member : {A : Type 0} → (Timedate1 → A) → (Variant → Option A) → Text → Type 0
  Member get read key =
      All (WritesFor get (λ value p. read_or read value (get p)) key) (timedate_table v)

  pub timezone-Member : Member (λ p. p.timezone) get_string (text "Timezone")
  unfolding timedate_table
  timezone-Member = (
    field-writes (λ p. p.timezone) get_string (λ x p. record p { timezone = x }) (λ a p. refl),
    (
      field-keeps (λ p. p.timezone) get_bool (λ x p. record p { local_rtc = x }) (λ a p. refl),
      (
        field-keeps (λ p. p.timezone) get_bool (λ x p. record p { can_ntp = x }) (λ a p. refl),
        (
          field-keeps (λ p. p.timezone) get_bool (λ x p. record p { ntp = x }) (λ a p. refl),
          (
            field-keeps (λ p. p.timezone) get_bool (λ x p. record p { ntp_synchronized = x })
                (λ a p. refl),
            (
              field-keeps (λ p. p.timezone) get_uint64 (λ x p. record p { time_usec = x })
                  (λ a p. refl),
              (
                field-keeps (λ p. p.timezone) get_uint64 (λ x p. record p { rtc_time_usec = x })
                    (λ a p. refl),
                tt,
              ),
            ),
          ),
        ),
      ),
    ),
  )

  pub local_rtc-Member : Member (λ p. p.local_rtc) get_bool (text "LocalRTC")
  unfolding timedate_table
  local_rtc-Member = (
    field-keeps (λ p. p.local_rtc) get_string (λ x p. record p { timezone = x }) (λ a p. refl),
    (
      field-writes (λ p. p.local_rtc) get_bool (λ x p. record p { local_rtc = x }) (λ a p. refl),
      (
        field-keeps (λ p. p.local_rtc) get_bool (λ x p. record p { can_ntp = x }) (λ a p. refl),
        (
          field-keeps (λ p. p.local_rtc) get_bool (λ x p. record p { ntp = x }) (λ a p. refl),
          (
            field-keeps (λ p. p.local_rtc) get_bool (λ x p. record p { ntp_synchronized = x })
                (λ a p. refl),
            (
              field-keeps (λ p. p.local_rtc) get_uint64 (λ x p. record p { time_usec = x })
                  (λ a p. refl),
              (
                field-keeps (λ p. p.local_rtc) get_uint64 (λ x p. record p { rtc_time_usec = x })
                    (λ a p. refl),
                tt,
              ),
            ),
          ),
        ),
      ),
    ),
  )

  pub can_ntp-Member : Member (λ p. p.can_ntp) get_bool (text "CanNTP")
  unfolding timedate_table
  can_ntp-Member = (
    field-keeps (λ p. p.can_ntp) get_string (λ x p. record p { timezone = x }) (λ a p. refl),
    (
      field-keeps (λ p. p.can_ntp) get_bool (λ x p. record p { local_rtc = x }) (λ a p. refl),
      (
        field-writes (λ p. p.can_ntp) get_bool (λ x p. record p { can_ntp = x }) (λ a p. refl),
        (
          field-keeps (λ p. p.can_ntp) get_bool (λ x p. record p { ntp = x }) (λ a p. refl),
          (
            field-keeps (λ p. p.can_ntp) get_bool (λ x p. record p { ntp_synchronized = x })
                (λ a p. refl),
            (
              field-keeps (λ p. p.can_ntp) get_uint64 (λ x p. record p { time_usec = x })
                  (λ a p. refl),
              (
                field-keeps (λ p. p.can_ntp) get_uint64 (λ x p. record p { rtc_time_usec = x })
                    (λ a p. refl),
                tt,
              ),
            ),
          ),
        ),
      ),
    ),
  )

  pub ntp-Member : Member (λ p. p.ntp) get_bool (text "NTP")
  unfolding timedate_table
  ntp-Member = (
    field-keeps (λ p. p.ntp) get_string (λ x p. record p { timezone = x }) (λ a p. refl),
    (
      field-keeps (λ p. p.ntp) get_bool (λ x p. record p { local_rtc = x }) (λ a p. refl),
      (
        field-keeps (λ p. p.ntp) get_bool (λ x p. record p { can_ntp = x }) (λ a p. refl),
        (
          field-writes (λ p. p.ntp) get_bool (λ x p. record p { ntp = x }) (λ a p. refl),
          (
            field-keeps (λ p. p.ntp) get_bool (λ x p. record p { ntp_synchronized = x })
                (λ a p. refl),
            (
              field-keeps (λ p. p.ntp) get_uint64 (λ x p. record p { time_usec = x }) (λ a p. refl),
              (
                field-keeps (λ p. p.ntp) get_uint64 (λ x p. record p { rtc_time_usec = x })
                    (λ a p. refl),
                tt,
              ),
            ),
          ),
        ),
      ),
    ),
  )

  pub ntp_synchronized-Member : Member (λ p. p.ntp_synchronized) get_bool (text "NTPSynchronized")
  unfolding timedate_table
  ntp_synchronized-Member = (
    field-keeps (λ p. p.ntp_synchronized) get_string (λ x p. record p { timezone = x })
        (λ a p. refl),
    (
      field-keeps (λ p. p.ntp_synchronized) get_bool (λ x p. record p { local_rtc = x })
          (λ a p. refl),
      (
        field-keeps (λ p. p.ntp_synchronized) get_bool (λ x p. record p { can_ntp = x })
            (λ a p. refl),
        (
          field-keeps (λ p. p.ntp_synchronized) get_bool (λ x p. record p { ntp = x })
              (λ a p. refl),
          (
            field-writes (λ p. p.ntp_synchronized) get_bool
                (λ x p. record p { ntp_synchronized = x }) (λ a p. refl),
            (
              field-keeps (λ p. p.ntp_synchronized) get_uint64 (λ x p. record p { time_usec = x })
                  (λ a p. refl),
              (
                field-keeps (λ p. p.ntp_synchronized) get_uint64
                    (λ x p. record p { rtc_time_usec = x }) (λ a p. refl),
                tt,
              ),
            ),
          ),
        ),
      ),
    ),
  )

  pub time_usec-Member : Member (λ p. p.time_usec) get_uint64 (text "TimeUSec")
  unfolding timedate_table
  time_usec-Member = (
    field-keeps (λ p. p.time_usec) get_string (λ x p. record p { timezone = x }) (λ a p. refl),
    (
      field-keeps (λ p. p.time_usec) get_bool (λ x p. record p { local_rtc = x }) (λ a p. refl),
      (
        field-keeps (λ p. p.time_usec) get_bool (λ x p. record p { can_ntp = x }) (λ a p. refl),
        (
          field-keeps (λ p. p.time_usec) get_bool (λ x p. record p { ntp = x }) (λ a p. refl),
          (
            field-keeps (λ p. p.time_usec) get_bool (λ x p. record p { ntp_synchronized = x })
                (λ a p. refl),
            (
              field-writes (λ p. p.time_usec) get_uint64 (λ x p. record p { time_usec = x })
                  (λ a p. refl),
              (
                field-keeps (λ p. p.time_usec) get_uint64 (λ x p. record p { rtc_time_usec = x })
                    (λ a p. refl),
                tt,
              ),
            ),
          ),
        ),
      ),
    ),
  )

  pub rtc_time_usec-Member : Member (λ p. p.rtc_time_usec) get_uint64 (text "RTCTimeUSec")
  unfolding timedate_table
  rtc_time_usec-Member = (
    field-keeps (λ p. p.rtc_time_usec) get_string (λ x p. record p { timezone = x }) (λ a p. refl),
    (
      field-keeps (λ p. p.rtc_time_usec) get_bool (λ x p. record p { local_rtc = x }) (λ a p. refl),
      (
        field-keeps (λ p. p.rtc_time_usec) get_bool (λ x p. record p { can_ntp = x }) (λ a p. refl),
        (
          field-keeps (λ p. p.rtc_time_usec) get_bool (λ x p. record p { ntp = x }) (λ a p. refl),
          (
            field-keeps (λ p. p.rtc_time_usec) get_bool (λ x p. record p { ntp_synchronized = x })
                (λ a p. refl),
            (
              field-keeps (λ p. p.rtc_time_usec) get_uint64 (λ x p. record p { time_usec = x })
                  (λ a p. refl),
              (
                field-writes (λ p. p.rtc_time_usec) get_uint64
                    (λ x p. record p { rtc_time_usec = x }) (λ a p. refl),
                tt,
              ),
            ),
          ),
        ),
      ),
    ),
  )
