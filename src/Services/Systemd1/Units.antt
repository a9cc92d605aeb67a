-- ===== src/Services/Systemd1/Units.antt =====
-- The list of units is a bounded set of the announced ones.
use sdbus_cpp_examples.Prelude.{
  suc, ◌+◌, ◌≤◌, ◌<◌, ◌≡◌, refl, Bool, true, false, ◌||◌, List, [], ◌∷◌, ◌++◌, if◌then◌else◌,
  if_rule, length, length-append, arith,
}
use sdbus_cpp_examples.Prelude.Text.{Text, text_eq, text_eq_iff}
use sdbus_cpp_examples.ResourceLimits.{is_at_capacity, max_units}
use sdbus_cpp_examples.Services.Systemd1.{
  Units, has_unit, without_unit, on_unit_new, on_unit_removed, Signal, unit_new, unit_removed,
  handle, run,
}

abbrev pub IsUnique : Units → Type 0
IsUnique [] = Unit
IsUnique (unit ∷ units) = (has_unit unit units ≡ false) × IsUnique units

has_unit-push :
    (id j : Text) (units : Units)
    → has_unit j (units ++ id ∷ []) ≡ (has_unit j units || text_eq id j)
unfolding has_unit
has_unit-push id j [] = ground arith
has_unit-push id j (unit ∷ units) = ground (arith, has_unit-push id j units)

has_unit-without :
    (id j : Text) (units : Units)
    → has_unit j (without_unit id units) ≡ (if text_eq id j then false else has_unit j units)
unfolding has_unit without_unit
has_unit-without id j [] = ground arith
has_unit-without id j (unit ∷ units) =
    ground (
      arith,
      has_unit-without id j units,
      text_eq_iff id j,
      text_eq_iff unit j,
      text_eq_iff unit id,
    )

push-IsUnique :
    (id : Text) (units : Units)
    → has_unit id units ≡ false
    → IsUnique units
    → IsUnique (units ++ id ∷ [])
unfolding has_unit
push-IsUnique id [] h u = (refl, tt)
push-IsUnique id (unit ∷ units) h u = ground (
  arith,
  push-IsUnique id units,
  has_unit-push id unit units,
  text_eq_iff id unit,
  text_eq_iff unit id,
)

without-IsUnique : (id : Text) (units : Units) → IsUnique units → IsUnique (without_unit id units)
unfolding without_unit
without-IsUnique id [] u = tt
without-IsUnique id (unit ∷ units) u =
    ground (arith, without-IsUnique id units, has_unit-without id unit units)

length-without-le : (id : Text) (units : Units) → length (without_unit id units) ≤ length units
unfolding without_unit
length-without-le id [] = omega arith
length-without-le id (unit ∷ units) = ground (arith, length-without-le id units)

-- The specification: which units are active, without a limit.
abbrev pub Active : Type 0
Active = Text → Bool

unfoldable pub note : Signal → Active → Active
note (unit_new id) active = λ j. text_eq id j || active j
note (unit_removed id) active = λ j. if text_eq id j then false else active j

unfoldable pub noted : List Signal → Active → Active
noted [] active = active
noted (signal ∷ signals) active = noted signals (note signal active)

-- No unit twice, no more than the limit, and no unit that is not active.
abbrev pub Holds : Units → Active → Type 0
Holds units active =
    IsUnique units
    × (length units ≤ max_units)
    × ((j : Text) → has_unit j units ≡ true → active j ≡ true)

handle-Holds :
    (signal : Signal) (units : Units) (active : Active)
    → Holds units active
    → Holds (handle signal units) (note signal active)
unfolding handle on_unit_new on_unit_removed note
handle-Holds (unit_new id) units active (u, le, sound) =
    if_rule (λ (us : Units). Holds us (note (unit_new id) active)) (has_unit id units) _ _
      (λ e. (u, le, λ j h. ground (arith, sound j h)))
      (λ e.
        if_rule (λ (us : Units). Holds us (note (unit_new id) active))
          (is_at_capacity (length units) max_units) _ _
          (λ _. (u, le, λ j h. ground (arith, sound j h)))
          (λ room. (
            push-IsUnique id units e u,
            ground (arith, length-append units (id ∷ [])),
            λ j h. ground (arith, has_unit-push id j units, sound j),
          )))
handle-Holds (unit_removed id) units active (u, le, sound) = (
  without-IsUnique id units u,
  omega (arith, length-without-le id units),
  λ j h. ground (arith, has_unit-without id j units, sound j),
)

run-Holds :
    (signals : List Signal) (units : Units) (active : Active)
    → Holds units active
    → Holds (run signals units) (noted signals active)
unfolding run noted
run-Holds [] units active h = h
run-Holds (signal ∷ signals) units active h =
    run-Holds signals (handle signal units) (note signal active)
      (handle-Holds signal units active h)

-- After any sequence of signals no unit stands twice in the list, it has at most kMaxUnits entries,
-- and each is a unit that the signals leave active.
pub run-Active : (signals : List Signal) → Holds (run signals []) (noted signals (λ j. false))
unfolding has_unit
run-Active signals = run-Holds signals [] (λ j. false) (tt, omega arith, λ j h. h)

handle-agrees :
    (signal : Signal) (units : Units) (active : Active)
    → length units < max_units
    → ((j : Text) → has_unit j units ≡ active j)
    → (j : Text) → has_unit j (handle signal units) ≡ note signal active j
unfolding handle on_unit_new on_unit_removed note
handle-agrees (unit_new id) units active room h j =
    ground (arith, h j, h id, has_unit-push id j units, text_eq_iff id j)
handle-agrees (unit_removed id) units active room h j =
    ground (arith, h j, has_unit-without id j units)

length-handle-le :
    (signal : Signal) (units : Units) → length (handle signal units) ≤ suc (length units)
unfolding handle on_unit_new on_unit_removed
length-handle-le (unit_new id) units = ground (arith, length-append units (id ∷ []))
length-handle-le (unit_removed id) units = omega (arith, length-without-le id units)

run-agrees :
    (signals : List Signal) (units : Units) (active : Active)
    → length units + length signals ≤ max_units
    → ((j : Text) → has_unit j units ≡ active j)
    → (j : Text) → has_unit j (run signals units) ≡ noted signals active j
unfolding run noted
run-agrees [] units active le h = h
run-agrees (signal ∷ signals) units active le h =
    run-agrees signals (handle signal units) (note signal active)
      (omega (arith, length-handle-le signal units))
      (handle-agrees signal units active (omega arith) h)

-- After at most kMaxUnits signals the list holds exactly the units that they leave active: below its
-- limit the client is the set of the units that were announced and not removed since.
pub run_refines_active :
    (signals : List Signal) (id : Text)
    → length signals ≤ max_units
    → has_unit id (run signals []) ≡ noted signals (λ j. false) id
unfolding has_unit
run_refines_active signals id le = run-agrees signals [] (λ j. false) (omega arith) (λ j. refl) id
