-- ===== src/Services/Geoclue/Prints.antt =====
-- What is printed of a change of properties.
use sdbus_cpp_examples.Prelude.{
  ℕ, suc, ◌≡◌, refl, ap, Bool, true, false, Option, none, some, List, [], ◌∷◌, if◌then◌else◌,
}
use sdbus_cpp_examples.Prelude.Text.{Text}
use sdbus_cpp_examples.Prelude.Map.{has_key, text_key}
use sdbus_cpp_examples.Dbus.Tables.{Table, set_field, on_changed}
use sdbus_cpp_examples.Services.Geoclue.{Changed, change, printed_once}

-- The keys that the chain does not know.
unfoldable pub unknown : {V P : Type 0} → Table V P → List (Text × V) → ℕ
unknown table [] = 0
unknown table ((key, value) ∷ changed) =
    let rest = unknown table changed in if has_key key table then rest else suc rest

-- What a change that ends without an exception has done, against the plain loop and the count `n`.
abbrev Agrees : {P : Type 0} → Changed P → P × Bool → ℕ → Type 0
Agrees c r n = c.ended ≡ true → (c.members ≡ r.0) × (r.1 ≡ true) × (c.prints ≡ n)

printed_once-Agrees :
    {P : Type 0} (known : Bool) (c : Changed P) (r : P × Bool) (n : ℕ)
    → Agrees c r n
    → Agrees (printed_once known c) r (if known then n else suc n)
printed_once-Agrees true c r n h = h
printed_once-Agrees false c r n h = λ e. let (m, o, q) = h e in (m, o, ap suc q)

change-Agrees :
    {V P : Type 0} (table : Table V P) (changed : List (Text × V)) (p : P)
    → Agrees (change table changed p) (on_changed table changed p) (unknown table changed)
unfolding change on_changed unknown
change-Agrees table [] p = λ e. (refl, refl, refl)
change-Agrees {V} {P} table ((key, value) ∷ changed) p =
    rest (λ p'. change-Agrees table changed p') (set_field table key value p)
  where
    rest :
        ((p' : P)
          → Agrees (change table changed p') (on_changed table changed p') (unknown table changed))
        → (o : Option P)
        → Agrees
            (elim o as (λ _. Changed P) [
              | none ↦ record { members = p; prints = 0; ended = false }
              | some p' ↦ printed_once (has_key key table) (change table changed p')
            ])
            (elim o as (λ _. P × Bool) [
              | none ↦ (p, false)
              | some p' ↦ on_changed table changed p'
            ])
            (if has_key key table then unknown table changed else suc (unknown table changed))
    rest ih none e = cc
    rest ih (some p') e = printed_once-Agrees (has_key key table) _ _ _ (ih p') e

-- A change that ends without an exception writes the members as the plain loop does, and prints the
-- whole change once for each key that is not known.
pub change-prints :
    {V P : Type 0} (table : Table V P) (changed : List (Text × V)) (p : P)
    → (change table changed p).ended ≡ true
    → ((change table changed p).members ≡ (on_changed table changed p).0)
      × ((on_changed table changed p).1 ≡ true)
      × ((change table changed p).prints ≡ unknown table changed)
change-prints table changed p e = change-Agrees table changed p e
