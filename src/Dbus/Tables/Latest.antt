-- ===== src/Dbus/Tables/Latest.antt =====
-- A member after a change of properties: the last value that was given for its key.
use sdbus_cpp_examples.Prelude.{
  ◌≡◌, refl, ◌∙◌, ap, Bool, true, false, Option, none, some, List, [], ◌∷◌, All, ◌&&◌, Bool-cases,
  if◌then◌else◌, arith, Option-cases, inl, inr,
}
use sdbus_cpp_examples.Prelude.Text.{Text, text_eq, text_eq_iff}
use sdbus_cpp_examples.Prelude.Map.{has_key, text_key}
use sdbus_cpp_examples.Dbus.Tables.{Setter, Table, field, set_field, on_changed}

pub if-and_true :
    {A : Type 0} (x y : A) (b c : Bool)
    → c ≡ true
    → (if b && c then x else y) ≡ (if b then x else y)
if-and_true x y true c e = ap (λ d. if d then x else y) e
if-and_true x y false c e = refl

-- The value that `get<T>()` reads, or the member as it was.
abbrev pub read_or : {V A : Type 0} → (V → Option A) → V → A → A
read_or read value a = elim (read value) [ none ↦ a | some b ↦ b ]

module _ {V P A : Type 0} (get : P → A) (new : V → P → A) (key : Text) where
  -- The branch of the key makes the member `new`; the branches of other keys leave it.
  abbrev pub WritesFor : Text × Setter V P → Type 0
  WritesFor (k, setter) =
      (value : V) (p p' : P)
      → setter value p ≡ some p'
      → get p' ≡ (if text_eq k key then new value p else get p)

  -- A chain does so too; if it has no such key, it leaves the member.
  pub set_field-WritesFor :
      (table : Table V P) (k : Text) (value : V) (p p' : P)
      → All WritesFor table
      → set_field table k value p ≡ some p'
      → get p' ≡ (if text_eq k key && has_key key table then new value p else get p)
  unfolding set_field has_key
  set_field-WritesFor [] k value p p' h e = ground arith
  set_field-WritesFor ((j, setter) ∷ table) k value p p' (h, hs) e =
      elim (Bool-cases (text_eq k j)) [
        | inl same ↦
            let q = (text_eq_iff k j).0 same in
            let written = h value p p' (ground (arith, e, same)) in
            ground (arith, written, q, text_eq_iff k key, text_eq_iff j key)
        | inr other ↦
            let rest = set_field-WritesFor table k value p p' hs (ground (arith, e, other)) in
            ground (arith, rest, text_eq_iff k key, text_eq_iff j key, text_eq_iff k j, other)
      ]

-- A branch that writes the member, and one that writes another.
pub field-writes :
    {V P A : Type 0} (get : P → A) (read : V → Option A) (write : A → P → P)
    → ((a : A) (p : P) → get (write a p) ≡ a)
    → (value : V) (p p' : P) → field read write value p ≡ some p'
    → get p' ≡ read_or read value (get p)
field-writes get read write h value p p' e = elim (Option-cases (read value)) [
  | inl q ↦ ground (arith, e, q)
  | inr (b, q) ↦ ground (arith, e, q, h b p)
]

pub field-keeps :
    {V P A B : Type 0} (get : P → A) (read : V → Option B) (write : B → P → P)
    → ((b : B) (p : P) → get (write b p) ≡ get p)
    → (value : V) (p p' : P) → field read write value p ≡ some p'
    → get p' ≡ get p
field-keeps get read write h value p p' e = elim (Option-cases (read value)) [
  | inl q ↦ ground (arith, e, q)
  | inr (b, q) ↦ ground (arith, e, q, h b p)
]

-- The last value that is given for the key.
abbrev pub latest : {V A : Type 0} → (V → Option A) → Text → A → List (Text × V) → A
latest read key a [] = a
latest read key a ((k, value) ∷ changed) =
    latest read key (if text_eq k key then read_or read value a else a) changed

module _ {V P A : Type 0} (get : P → A) (read : V → Option A) (key : Text) where
  -- For any object of a client: if each branch writes its own member, and the chain has the key,
  -- then a change of properties that ends without an exception leaves the member with the last value
  -- that it gives for the key, and as it was if it gives none.
  pub on_changed-latest :
      (table : Table V P) (changed : List (Text × V)) (p : P)
      → All (WritesFor get (λ value p. read_or read value (get p)) key) table
      → has_key key table ≡ true
      → (on_changed table changed p).1 ≡ true
      → get (on_changed table changed p).0 ≡ latest read key (get p) changed
  unfolding on_changed
  on_changed-latest table [] p h found ok = refl
  on_changed-latest table ((k, value) ∷ changed) p h found ok =
      ended (λ p'. on_changed-latest table changed p' h found) (set_field table k value p) refl ok
    where
      ended :
          ((q : P)
            → (on_changed table changed q).1 ≡ true
            → get (on_changed table changed q).0 ≡ latest read key (get q) changed)
          → (o : Option P) → set_field table k value p ≡ o
          → (elim o as (λ _. P × Bool) [
            | none ↦ (p, false)
            | some p' ↦ on_changed table changed p'
          ]).1
            ≡ true
          → get
              (elim o as (λ _. P × Bool) [
                | none ↦ (p, false)
                | some p' ↦ on_changed table changed p'
              ]).0
            ≡ latest read key (get p) ((k, value) ∷ changed)
      ended rest none e ok = cc
      ended rest (some p') e ok =
          rest p' ok
          ∙ ap (λ a. latest read key a changed)
              (set_field-WritesFor get (λ value p. read_or read value (get p)) key table k value p
                  p' h e
                ∙ if-and_true (read_or read value (get p)) (get p) (text_eq k key)
                    (has_key key table) found)
