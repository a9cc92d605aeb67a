-- ===== src/Bluez/Adapter1/Branches.antt =====
-- The branches of the adapter's chain, for its calls of StartDiscovery and for what it is told of them.
use sdbus_cpp_examples.Prelude.{
  ℕ, ◌≡◌, refl, Bool, Option, some, All, arith, Option-cases, inl, inr,
}
use sdbus_cpp_examples.Prelude.Text.{text}
use sdbus_cpp_examples.Prelude.Map.{text_key}
use sdbus_cpp_examples.Dbus.{Variants}
use sdbus_cpp_examples.Dbus.Tables.{field}
use sdbus_cpp_examples.Dbus.Tables.Latest.{WritesFor, field-keeps}
use sdbus_cpp_examples.Bluez.Adapter1.{Adapter, adapter_table}

abbrev pub calls : Adapter → ℕ
calls p = p.start_discovery_calls

abbrev pub says : Adapter → Option Bool
says p = some p.discovering

module _ (v : Variants) (starts : Bool) where
  open v use {Variant, get_bool, get_string, get_uint32, get_strings}

  pub calls-WritesFor :
      All (WritesFor calls (λ value p. calls p) (text "Discovering")) (adapter_table v starts)
  unfolding adapter_table
  calls-WritesFor = (
    field-keeps calls get_string (λ x p. record p { address = x }) (λ a p. refl),
    (
      field-keeps calls get_string (λ x p. record p { address_type = x }) (λ a p. refl),
      (
        field-keeps calls get_string (λ x p. record p { alias = x }) (λ a p. refl),
        (
          field-keeps calls get_uint32 (λ x p. record p { class_type = x }) (λ a p. refl),
          (
            field-keeps calls get_bool (λ x p. record p { discoverable = x }) (λ a p. refl),
            (
              field-keeps calls get_uint32 (λ x p. record p { discoverable_timeout = x })
                  (λ a p. refl),
              (
                field-keeps calls get_bool (λ x p. record p { discovering = x }) (λ a p. refl),
                (
                  field-keeps calls get_string (λ x p. record p { modalias = x }) (λ a p. refl),
                  (
                    field-keeps calls get_string (λ x p. record p { name = x }) (λ a p. refl),
                    (
                      field-keeps calls get_bool (λ x p. record p { pairable = x }) (λ a p. refl),
                      (
                        field-keeps calls get_uint32 (λ x p. record p { pairable_timeout = x })
                            (λ a p. refl),
                        (
                          field-keeps calls get_bool (λ x p. record p { powered = x })
                              (λ a p. refl),
                          (
                            field-keeps calls get_strings (λ x p. record p { uuids = x })
                                (λ a p. refl),
                            tt,
                          ),
                        ),
                      ),
                    ),
                  ),
                ),
              ),
            ),
          ),
        ),
      ),
    ),
  )

  pub says-WritesFor :
      All (WritesFor says (λ value p. get_bool value) (text "Discovering")) (adapter_table v starts)
  unfolding adapter_table
  says-WritesFor = (
    field-keeps says get_string (λ x p. record p { address = x }) (λ a p. refl),
    (
      field-keeps says get_string (λ x p. record p { address_type = x }) (λ a p. refl),
      (
        field-keeps says get_string (λ x p. record p { alias = x }) (λ a p. refl),
        (
          field-keeps says get_uint32 (λ x p. record p { class_type = x }) (λ a p. refl),
          (
            field-keeps says get_bool (λ x p. record p { discoverable = x }) (λ a p. refl),
            (
              field-keeps says get_uint32 (λ x p. record p { discoverable_timeout = x })
                  (λ a p. refl),
              (
                written,
                (
                  field-keeps says get_string (λ x p. record p { modalias = x }) (λ a p. refl),
                  (
                    field-keeps says get_string (λ x p. record p { name = x }) (λ a p. refl),
                    (
                      field-keeps says get_bool (λ x p. record p { pairable = x }) (λ a p. refl),
                      (
                        field-keeps says get_uint32 (λ x p. record p { pairable_timeout = x })
                            (λ a p. refl),
                        (
                          field-keeps says get_bool (λ x p. record p { powered = x }) (λ a p. refl),
                          (
                            field-keeps says get_strings (λ x p. record p { uuids = x })
                                (λ a p. refl),
                            tt,
                          ),
                        ),
                      ),
                    ),
                  ),
                ),
              ),
            ),
          ),
        ),
      ),
    ),
  )
    where
      written :
          (value : Variant) (p p' : Adapter)
          → field get_bool (λ x q. record q { discovering = x }) value p ≡ some p'
          → says p' ≡ get_bool value
      written value p p' e = elim (Option-cases (get_bool value)) [
        | inl q ↦ ground (arith, e, q)
        | inr (b, q) ↦ ground (arith, e, q)
      ]
