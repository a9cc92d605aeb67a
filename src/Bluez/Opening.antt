-- ===== src/Bluez/Opening.antt =====
-- open_and_init of src/bluez/xbox_controller/input_reader.cc and horipad_steam/input_reader.cc, which
-- are the same text: a descriptor is kept only if every request of the kernel succeeds.
use sdbus_cpp_examples.Prelude.{
  ℕ, ◌≡◌, ◌⊎◌, inl, inr, refl, Bool, false, Option, none, some, List, [], ◌∷◌, if◌then◌else◌, leb,
  if_rule,
}
use sdbus_cpp_examples.Prelude.Int.{ℤ, pos, negsuc}

-- What the kernel answers to each request, if it is made.
pub record Answers : Type 0 where
  pub opened : Option ℕ
  pub raw_info : Option ℕ
  pub raw_name : Bool
  pub raw_phys : Bool
  pub desc_size : Option ℤ
  pub desc : Bool

-- The members that are set, and the descriptors that are closed on the way.
pub record Reader : Type 0 where
  pub fd : Option ℕ
  pub product : ℕ
  pub closed : List ℕ

abbrev pub new_reader : Reader
new_reader = record { fd = none; product = 0; closed = [] }

-- HID_MAX_DESCRIPTOR_SIZE of the kernel's headers.
abbrev pub max_descriptor_size : ℕ
max_descriptor_size = 4096

-- `return` with the descriptor still in the local variable, which closes it.
abbrev pub gives_up : ℕ → Reader → Reader
gives_up fd r = record r { closed = fd ∷ r.closed }

-- The sizes that are not refused.
abbrev pub is_size : Option ℤ → Bool
is_size none = false
is_size (some (pos n)) = leb n max_descriptor_size
is_size (some (negsuc n)) = false

unfoldable pub after_info : Answers → ℕ → Option ℕ → Reader → Reader
after_info a fd none r = gives_up fd r
after_info a fd (some product) r =
    let r' : Reader = record r { product = product } in
    if a.raw_name
    then (if a.raw_phys
        then (if is_size a.desc_size
            then (if a.desc then record r' { fd = some fd } else gives_up fd r')
            else gives_up fd r')
        else gives_up fd r')
    else gives_up fd r'

unfoldable pub after_open : Answers → Option ℕ → Reader → Reader
after_open a none r = r
after_open a (some fd) r = after_info a fd a.raw_info r

-- InputReader::open_and_init.
unfoldable pub open_and_init : Answers → Reader → Reader
open_and_init a r = after_open a a.opened r

-- A descriptor that was opened is either kept or closed, and never both.
abbrev pub Owned : ℕ → Reader → Type 0
Owned fd r = ((r.fd ≡ some fd) × (r.closed ≡ [])) ⊎ ((r.fd ≡ none) × (r.closed ≡ fd ∷ []))

pub open_and_init-Owned :
    (a : Answers) (fd : ℕ) → a.opened ≡ some fd → Owned fd (open_and_init a new_reader)
unfolding open_and_init after_open after_info
open_and_init-Owned a fd h = rw h (opened a.raw_info)
  where
    given_up : (product : ℕ) → Owned fd (gives_up fd (record new_reader { product = product }))
    given_up product = inr (refl, refl)

    opened : (o : Option ℕ) → Owned fd (after_info a fd o new_reader)
    opened none = given_up 0
    opened (some product) =
        if_rule (Owned fd) a.raw_name _ _
          (λ _.
            if_rule (Owned fd) a.raw_phys _ _
              (λ _.
                if_rule (Owned fd) (is_size a.desc_size) _ _
                  (λ _.
                    if_rule (Owned fd) a.desc _ _ (λ _. inl (refl, refl)) (λ _. given_up product))
                  (λ _. given_up product))
              (λ _. given_up product))
          (λ _. given_up product)
