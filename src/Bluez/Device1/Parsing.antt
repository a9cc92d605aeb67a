-- ===== src/Bluez/Device1/Parsing.antt =====
-- The Modalias of a device: what a match says, and that every well-formed one is read.
use mathlib.Core.Path.{subst}
use mathlib.Core.List.{append_assoc}
use mathlib.Core.Option.{some-injective}
use sdbus_cpp_examples.Prelude.{◌≡◌, refl, ap, sym, ◌∙◌, some, ◌++◌, length, bind_inverse}
use sdbus_cpp_examples.Prelude.Text.{Text, text}
use sdbus_cpp_examples.Bluez.Patterns.{
  IsHex, literal, literal_sound, literal-append, hex_digits, hex_digits-Took, hex_digits-append,
  search_from_sound, search_from_head,
}
use sdbus_cpp_examples.Bluez.Device1.{Modalias, field, three_fields, modalias_here, parse_modalias}

-- The text of a modalias.
abbrev pub print_modalias : Modalias → Text
print_modalias m = text "usb:v" ++ (m.vid ++ (text "p" ++ (m.pid ++ (text "d" ++ m.did))))

-- Four hexadecimal digits each.
pub record IsWellFormed (m : Modalias) : Type 0 where
  pub vid_hex : IsHex m.vid
  pub pid_hex : IsHex m.pid
  pub did_hex : IsHex m.did
  pub vid_four : length m.vid ≡ 4
  pub pid_four : length m.pid ≡ 4
  pub did_four : length m.did ≡ 4

abbrev IsField : Text → Text → Text × Text → Type 0
IsField label s p = (s ≡ label ++ (p.0 ++ p.1)) × IsHex p.0 × (length p.0 ≡ 4)

digits_of :
    (s : Text) (p : Text × Text)
    → hex_digits 4 s ≡ some p
    → (s ≡ p.0 ++ p.1) × IsHex p.0 × (length p.0 ≡ 4)
digits_of s p e = rw e at (hex_digits-Took 4 s)

field_sound : (label s : Text) (p : Text × Text) → field label s ≡ some p → IsField label s p
unfolding field
field_sound label s p h =
    let (r, e, k) = bind_inverse (literal label s) (hex_digits 4) p h in
    let (eq, hex, four) = digits_of r p k in
    (literal_sound label s r e ∙ ap (λ x. label ++ x) eq, hex, four)

field-append :
    (label g r : Text) → IsHex g → length g ≡ 4 → field label (label ++ (g ++ r)) ≡ some (g, r)
unfolding field
field-append label g r hex four =
    rw (literal-append label (g ++ r)) (hex_digits-append 4 g r hex four)

abbrev Stands : Text → Text → Text → Text → Modalias → Type 0
Stands a b c s m =
    IsWellFormed m
    × (after : Text) × (s ≡ a ++ (m.vid ++ (b ++ (m.pid ++ (c ++ (m.did ++ after))))))

three_of :
    (a b c s : Text) (v p d : Text × Text)
    → IsField a s v
    → IsField b v.1 p
    → IsField c p.1 d
    → let m : Modalias = record { vid = v.0; pid = p.0; did = d.0 } in
      IsWellFormed m
      × (after : Text) × (s ≡ a ++ (m.vid ++ (b ++ (m.pid ++ (c ++ (m.did ++ after))))))
three_of a b c s (v, s1) (p, s2) (d, s3) (e1, h1, n1) (e2, h2, n2) (e3, h3, n3) = (
  record { vid_hex = h1; pid_hex = h2; did_hex = h3; vid_four = n1; pid_four = n2; did_four = n3 },
  s3,
  e1 ∙ ap (λ x. a ++ (v ++ x)) (e2 ∙ ap (λ x. b ++ (p ++ x)) e3),
)

three_as :
    (a b c s : Text) (m : Modalias) (v p d : Text × Text)
    → record { vid = v.0; pid = p.0; did = d.0 } ≡ m
    → IsField a s v
    → IsField b v.1 p
    → IsField c p.1 d
    → Stands a b c s m
three_as a b c s m v p d e h k l = subst (Stands a b c s) e (three_of a b c s v p d h k l)

three_sound : (a b c s : Text) (m : Modalias) → three_fields a b c s ≡ some m → Stands a b c s m
unfolding three_fields
three_sound a b c s m h =
    let (v, e1, h1) = bind_inverse (field a s) _ m h in
    let (p, e2, h2) = bind_inverse (field b v.1) _ m h1 in
    let (d, e3, h3) = bind_inverse (field c p.1) _ m h2 in
    three_as a b c s m v p d (some-injective _ m h3) (field_sound a s v e1) (field_sound b v.1 p e2)
      (field_sound c p.1 d e3)

three-append :
    (a b c r : Text) (m : Modalias)
    → IsWellFormed m
    → three_fields a b c (a ++ (m.vid ++ (b ++ (m.pid ++ (c ++ (m.did ++ r)))))) ≡ some m
unfolding three_fields
three-append a b c r m w =
    rw (field-append a m.vid (b ++ (m.pid ++ (c ++ (m.did ++ r)))) w.vid_hex w.vid_four) rw
      (field-append b m.pid (c ++ (m.did ++ r)) w.pid_hex w.pid_four) rw
      (field-append c m.did r w.did_hex w.did_four) refl

print_after :
    (m : Modalias) (r : Text)
    → print_modalias m ++ r
      ≡ text "usb:v" ++ (m.vid ++ (text "p" ++ (m.pid ++ (text "d" ++ (m.did ++ r)))))
print_after m r =
    rw (append_assoc m.vid (text "p" ++ (m.pid ++ (text "d" ++ m.did))) r) rw
      (append_assoc m.pid (text "d" ++ m.did) r) refl

-- What is read from a modalias stands in it: three groups of four hexadecimal digits behind their
-- letters, at some position.
pub parse_modalias_sound :
    (s : Text) (m : Modalias)
    → parse_modalias s ≡ some m
    → IsWellFormed m
      × (before : Text) × (after : Text) × (s ≡ before ++ (print_modalias m ++ after))
unfolding parse_modalias modalias_here
parse_modalias_sound s m h =
    let (before, rest, e, k) = search_from_sound modalias_here s m h in
    let (wf, after, e') = three_sound (text "usb:v") (text "p") (text "d") rest m k in
    (wf, before, after, e ∙ ap (λ x. before ++ x) (e' ∙ sym (print_after m after)))

-- Every well-formed modalias is read back from its text, whatever follows it.
pub parse-print_modalias :
    (m : Modalias) (rest : Text)
    → IsWellFormed m
    → parse_modalias (print_modalias m ++ rest) ≡ some m
unfolding parse_modalias modalias_here
parse-print_modalias m rest w =
    search_from_head modalias_here _ m
      (rw (print_after m rest) (three-append (text "usb:v") (text "p") (text "d") rest m w))
