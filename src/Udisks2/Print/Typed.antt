-- ===== src/Udisks2/Print/Typed.antt =====
-- The types that UDisks2 documents for what printDeviceInformation prints, and the pieces of its
-- text that do not throw.
use sdbus_cpp_examples.Prelude.{ℕ, ◌≡◌, refl, true, false, Option, none, some, List, [], ◌∷◌, All}
use sdbus_cpp_examples.Prelude.Text.{Text, text}
use sdbus_cpp_examples.Prelude.Map.{lookup, text_key}
use sdbus_cpp_examples.Dbus.{Variants}
use sdbus_cpp_examples.Udisks2.Size.Shown.{format_size-some}
use sdbus_cpp_examples.Udisks2.Print.{
  Printed, and_then, in_turn, put_found, if_present, size_text, Properties,
}

-- A piece that does not throw.
abbrev pub Ends : Printed → Type 0
Ends (t, ok) = ok ≡ true

pub and_then-Ends : (p q : Printed) → Ends p → Ends q → Ends (and_then p q)
unfolding and_then
and_then-Ends (t, false) q h k = h
and_then-Ends (t, true) q h k = k

pub in_turn-Ends : (ps : List Printed) → All Ends ps → Ends (in_turn ps)
unfolding in_turn
in_turn-Ends [] h = refl
in_turn-Ends (p ∷ ps) h = and_then-Ends p (in_turn ps) h.0 (in_turn-Ends ps h.1)

pub size_text-Ends : (label : Text) (size : ℕ) → Ends (size_text label size)
unfolding size_text put_found
size_text-Ends label size = let (t, e) = format_size-some size in rw e refl

module _ {V : Type 0} where
  abbrev pub Readable {ℓ} : {A : Type ℓ} → (V → Option A) → Option V → Type ℓ
  Readable {A = A} get none = Unit
  Readable {A = A} get (some value) = (a : A) × (get value ≡ some a)

  -- The property, if it is there, has the type that is read.
  abbrev pub Typed {ℓ} : {A : Type ℓ} → (V → Option A) → List (Text × V) → Text → Type ℓ
  Typed get props key = Readable get (lookup key props)

  pub if_present-Ends {ℓ} :
      {A : Type ℓ} (get : V → Option A) (f : V → Printed) (o : Option V)
      → ((value : V) (a : A) → get value ≡ some a → Ends (f value))
      → Readable get o
      → Ends (if_present o f)
  unfolding if_present
  if_present-Ends get f none h r = refl
  if_present-Ends get f (some value) h (a, e) = h value a e

-- The documented types of what is printed.
module _ (v : Variants) where
  open v use {Variant, get_string, get_bool, get_int32, get_uint64, get_bytes, get_byte_lists}

  abbrev pub BlockTyped : Properties v → Type 0
  BlockTyped props =
      All (Typed get_bytes props) (text "Device" ∷ text "PreferredDevice" ∷ [])
      × Typed get_uint64 props (text "Size")
      × All (Typed get_string props)
          (text "IdUUID" ∷ text "IdLabel" ∷ text "IdType" ∷ text "IdUsage" ∷ text "IdVersion" ∷ [])
      × Typed get_bool props (text "ReadOnly")
      × Typed get_byte_lists props (text "Symlinks")

  abbrev pub DriveTyped : Properties v → Type 0
  DriveTyped props =
      All (Typed get_string props) (
        text "Vendor"
        ∷ text "Model"
        ∷ text "Revision"
        ∷ text "Serial"
        ∷ text "WWN"
        ∷ text "ConnectionBus"
        ∷ text "Media"
        ∷ [])
      × Typed get_uint64 props (text "Size")
      × All (Typed get_bool props)
          (text "Removable" ∷ text "MediaRemovable" ∷ text "Ejectable" ∷ [])
      × Typed get_int32 props (text "RotationRate")

  abbrev pub FilesystemTyped : Properties v → Type 0
  FilesystemTyped props =
      Typed get_byte_lists props (text "MountPoints") × Typed get_uint64 props (text "Size")
