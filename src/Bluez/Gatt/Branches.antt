-- ===== src/Bluez/Gatt/Branches.antt =====
-- The branches of GattCharacteristic1's constructor, and a round of its loop, for the flags and for
-- whether it is notifying.
use sdbus_cpp_examples.Prelude.{◌≡◌, refl, ◌∙◌, true, some, All, if◌then◌else◌, arith}
use sdbus_cpp_examples.Prelude.Text.{Text, text, text_eq}
use sdbus_cpp_examples.Prelude.Map.{has_key, text_key}
use sdbus_cpp_examples.Dbus.{Variants}
use sdbus_cpp_examples.Dbus.Tables.{Setter, field, set_field}
use sdbus_cpp_examples.Dbus.Tables.Latest.{
  WritesFor, read_or, if-and_true, set_field-WritesFor, field-writes, field-keeps,
}
use sdbus_cpp_examples.Bluez.Gatt.{
  has_text, if_notify, Characteristic, characteristic_table, set_flags, set_notifying,
  set_notify_acquired, is_notify_flag_set,
}

-- A branch that is guarded by isNotifyFlagSet.
if_notify-rule :
    {V A : Type 0} (get : Characteristic → A) (setter : Setter V Characteristic) (new : A)
    (value : V) (p p' : Characteristic)
    → (setter value p ≡ some p' → get p' ≡ new)
    → if_notify setter value p ≡ some p'
    → get p' ≡ (if is_notify_flag_set p then new else get p)
if_notify-rule get setter new value p p' h e = ground (arith, h, e)

if_notify-keeps :
    {V A : Type 0} (get : Characteristic → A) (setter : Setter V Characteristic)
    → ((value : V) (p p' : Characteristic) → setter value p ≡ some p' → get p' ≡ get p)
    → (value : V) (p p' : Characteristic) → if_notify setter value p ≡ some p'
    → get p' ≡ get p
if_notify-keeps get setter h value p p' e = ground (arith, h value p p', e)

module _ (v : Variants) where
  open v use {Variant, get_bool, get_strings}

  flags-WritesFor :
      All
        (WritesFor (λ p. p.flags) (λ value p. read_or get_strings value p.flags) (text "Flags"))
        (characteristic_table v)
  unfolding characteristic_table set_flags set_notify_acquired set_notifying
  flags-WritesFor =
      let get = λ (p : Characteristic). p.flags in
      (
        field-writes (λ p. p.flags) get_strings (λ x p. record p { flags = x }) (λ a p. refl),
        (
          if_notify-keeps (λ p. p.flags) _
              (field-keeps get get_bool (λ x p. record p { notify_acquired = x }) (λ a p. refl)),
          (
            if_notify-keeps (λ p. p.flags) _
                (field-keeps get get_bool (λ x p. record p { notifying = x }) (λ a p. refl)),
            (
              field-keeps get v.get_object_path (λ x p. record p { service = x }) (λ a p. refl),
              (
                field-keeps get v.get_string (λ x p. record p { uuid = x }) (λ a p. refl),
                (field-keeps get v.get_bytes (λ x p. record p { value = x }) (λ a p. refl), tt),
              ),
            ),
          ),
        ),
      )

  notifying-WritesFor :
      All
        (WritesFor
          (λ p. p.notifying)
          (λ value p.
            if is_notify_flag_set p then read_or get_bool value p.notifying else p.notifying)
          (text "Notifying"))
        (characteristic_table v)
  unfolding characteristic_table set_flags set_notify_acquired set_notifying
  notifying-WritesFor =
      let get = λ (p : Characteristic). p.notifying in
      (
        field-keeps get get_strings (λ x p. record p { flags = x }) (λ a p. refl),
        (
          if_notify-keeps get _
              (field-keeps get get_bool (λ x p. record p { notify_acquired = x }) (λ a p. refl)),
          (
            (λ value p p'.
                if_notify-rule get (field get_bool (λ x p. record p { notifying = x }))
                  (read_or get_bool value p.notifying) value p p'
                  (field-writes get get_bool (λ x p. record p { notifying = x }) (λ a p. refl) value
                    p p')),
            (
              field-keeps get v.get_object_path (λ x p. record p { service = x }) (λ a p. refl),
              (
                field-keeps get v.get_string (λ x p. record p { uuid = x }) (λ a p. refl),
                (field-keeps get v.get_bytes (λ x p. record p { value = x }) (λ a p. refl), tt),
              ),
            ),
          ),
        ),
      )

  -- What one round makes of the two members.
  abbrev pub Round : Text → Variant → Characteristic → Characteristic → Type 0
  Round k value p p1 =
      (p1.flags ≡ (if text_eq k (text "Flags") then read_or get_strings value p.flags else p.flags))
      × (p1.notifying ≡ (
          if text_eq k (text "Notifying")
          then (if has_text (text "notify") p.flags
              then read_or get_bool value p.notifying
              else p.notifying)
          else p.notifying))

  pub set_field-Round :
      (k : Text) (value : Variant) (p p1 : Characteristic)
      → set_field (characteristic_table v) k value p ≡ some p1
      → Round k value p p1
  unfolding is_notify_flag_set has_key characteristic_table
  set_field-Round k value p p1 e =
      let f =
        set_field-WritesFor (λ q. q.flags) (λ w q. read_or get_strings w q.flags) (text "Flags")
          (characteristic_table v) k value p p1 flags-WritesFor e in
      let n =
        set_field-WritesFor (λ q. q.notifying)
          (λ w q. if is_notify_flag_set q then read_or get_bool w q.notifying else q.notifying)
          (text "Notifying") (characteristic_table v) k value p p1 notifying-WritesFor e in
      (
        f
            ∙ if-and_true (read_or get_strings value p.flags) p.flags (text_eq k (text "Flags"))
                true refl,
        n
            ∙ if-and_true
                (if has_text (text "notify") p.flags
                  then read_or get_bool value p.notifying
                  else p.notifying)
                p.notifying (text_eq k (text "Notifying")) true refl,
      )
