-- ===== src/Bluez/Hidraw/Paths.antt =====
-- What the comparisons of paths say of the paths.
use mathlib.Core.List.{append_assoc}
use sdbus_cpp_examples.Prelude.{
  ℕ, ◌-◌, ◌≤◌, ◌≡◌, refl, ap, sym, subst, ◌∙◌, Bool, true, false, ◌||◌, not, Option, none, some,
  ◌++◌, if_rule, length, take, drop, arith, length-take, length-append, ltb, [], ◌∷◌, ◌+◌,
}
use sdbus_cpp_examples.Prelude.Text.{
  Text, text, text_eq_iff, starts_with, starts_with-split, find_text, FoundAt, find_text-FoundAt,
  take-append, text_eq,
}
use sdbus_cpp_examples.Bluez.Hidraw.{
  substr, sys_devices, compare_common, compare_subsystem_device_paths,
}

-- `s` is the prefix, then `common`, then `mark`, then anything.
abbrev pub Under : Text → Text → Text → Text → Type 0
Under prefix mark common s = (rest : Text) × (s ≡ prefix ++ (common ++ (mark ++ rest)))

-- As `Under`, and the mark is the first of its kind in the path, which is under `/sys/devices/`.
abbrev pub Below : Text → Text → Text → Type 0
Below mark common path =
    Under sys_devices mark common path
    × (find_text mark path ≡ some (length sys_devices + length common))

-- The two paths lie under one device: both are `/sys/devices/`, a common part, and then `/input` or
-- `/hidraw`, of which the first counts.
abbrev pub AreSiblings : Text → Text → Type 0
AreSiblings input_path hidraw_path =
    (common : Text) × Below (text "/input") common input_path
    × Below (text "/hidraw") common hidraw_path

take-starts :
    (prefix s : Text) (i : ℕ)
    → starts_with prefix s ≡ true
    → length prefix ≤ i
    → take i s ≡ prefix ++ substr s (length prefix) (i - length prefix)
take-starts prefix s i starts le =
    ap (take i) (starts_with-split prefix s starts)
    ∙ take-append prefix (drop (length prefix) s) i le

found-Under :
    (prefix mark s : Text) (i : ℕ)
    → starts_with prefix s ≡ true
    → length prefix ≤ i
    → FoundAt mark s i
    → Under prefix mark (substr s (length prefix) (i - length prefix)) s
found-Under prefix mark s i starts le (rest, e) = (
  rest,
  e
      ∙ (ap (λ x. x ++ (mark ++ rest)) (take-starts prefix s i starts le)
          ∙ append_assoc prefix (substr s (length prefix) (i - length prefix)) (mark ++ rest)),
)

found-length :
    (prefix mark s : Text) (i : ℕ)
    → starts_with prefix s ≡ true
    → length prefix ≤ i
    → 1 ≤ length mark
    → FoundAt mark s i
    → i ≡ length prefix + length (substr s (length prefix) (i - length prefix))
found-length prefix mark s i starts le m (rest, e) = omega (
  arith,
  length-take i s,
  ap length (take-starts prefix s i starts le),
  length-append prefix (substr s (length prefix) (i - length prefix)),
  ap length e,
  length-append (take i s) (mark ++ rest),
  length-append mark rest,
)

found-Below :
    (mark s : Text) (i : ℕ)
    → starts_with sys_devices s ≡ true
    → length sys_devices ≤ i
    → 1 ≤ length mark
    → find_text mark s ≡ some i
    → Below mark (substr s (length sys_devices) (i - length sys_devices)) s
found-Below mark s i starts le m f =
    let found = find_text-FoundAt mark s i f in
    (
      found-Under sys_devices mark s i starts le found,
      f ∙ ap some (found-length sys_devices mark s i starts le m found),
    )

compare_common-parts :
    (prefix s t : Text) (i h : ℕ)
    → compare_common prefix s t (some i) (some h) ≡ true
    → (length prefix ≤ i)
      × (length prefix ≤ h)
      × (substr s (length prefix) (i - length prefix)
          ≡ substr t (length prefix) (h - length prefix))
unfolding compare_common
compare_common-parts prefix s t i h e = (
  ground arith,
  ground arith,
  (text_eq_iff (substr s (length prefix) (i - length prefix))
        (substr t (length prefix) (h - length prefix))).0
      (ground arith),
)

compare_common-Below :
    (s t : Text) (o p : Option ℕ)
    → starts_with sys_devices s ≡ true
    → starts_with sys_devices t ≡ true
    → find_text (text "/input") s ≡ o
    → find_text (text "/hidraw") t ≡ p
    → compare_common sys_devices s t o p ≡ true
    → AreSiblings s t
unfolding compare_common
compare_common-Below s t none p us ut fs ft e = cc
compare_common-Below s t (some i) none us ut fs ft e = cc
compare_common-Below s t (some i) (some h) us ut fs ft e =
    let (le, le', same) = compare_common-parts sys_devices s t i h e in
    (
      substr s (length sys_devices) (i - length sys_devices),
      found-Below (text "/input") s i us le (omega arith) fs,
      subst (λ c. Below (text "/hidraw") c t) (sym same)
          (found-Below (text "/hidraw") t h ut le' (omega arith) ft),
    )

-- The comparison holds only of siblings.
pub compare_subsystem_device_paths-AreSiblings :
    (s t : Text) → compare_subsystem_device_paths s t ≡ true → AreSiblings s t
unfolding compare_subsystem_device_paths
compare_subsystem_device_paths-AreSiblings s t =
    if_rule (λ (b : Bool). b ≡ true → AreSiblings s t)
      (not (starts_with sys_devices s) || not (starts_with sys_devices t)) _ _ (λ _ e. cc)
      (λ starts.
        let both = not-not (starts_with sys_devices s) (starts_with sys_devices t) starts in
        compare_common-Below s t (find_text (text "/input") s) (find_text (text "/hidraw") t) both.0
          both.1 refl refl)
  where
    not-not : (a b : Bool) → (not a || not b) ≡ false → (a ≡ true) × (b ≡ true)
    not-not a b h = ground arith

take-common : (xs ys : Text) → take (length xs) (xs ++ ys) ≡ xs
take-common [] ys = refl
take-common (x ∷ xs) ys = ap (◌∷◌ x) (take-common xs ys)

substr-common :
    (mark common s : Text)
    → Under sys_devices mark common s
    → substr s (length sys_devices) (length sys_devices + length common - length sys_devices)
      ≡ common
substr-common mark common s (rest, e) =
    let n : length sys_devices + length common - length sys_devices ≡ length common = omega arith in
    rw (n, e) (take-common common (mark ++ rest))

compare_common-common :
    (prefix s t common : Text)
    → substr s (length prefix) (length prefix + length common - length prefix) ≡ common
    → substr t (length prefix) (length prefix + length common - length prefix) ≡ common
    → compare_common prefix s t
        (some (length prefix + length common))
        (some (length prefix + length common))
      ≡ true
unfolding compare_common
compare_common-common prefix s t common e e' =
    let behind : ltb (length prefix + length common) (length prefix) ≡ false = ground arith in
    let same : text_eq (substr s (length prefix) (length prefix + length common - length prefix))
          (substr t (length prefix) (length prefix + length common - length prefix))
        ≡ true =
      (text_eq_iff _ _).1 (e ∙ sym e') in
    rw (behind, same) refl

-- The comparison holds of all siblings.
pub siblings-compare_subsystem_device_paths :
    (s t : Text) → AreSiblings s t → compare_subsystem_device_paths s t ≡ true
unfolding compare_subsystem_device_paths
siblings-compare_subsystem_device_paths s t (common, (us, fs), (ut, ft)) =
    let starts : starts_with sys_devices s ≡ true = rw us.1 refl in
    let starts' : starts_with sys_devices t ≡ true = rw ut.1 refl in
    rw (starts, starts', fs, ft)
      (compare_common-common sys_devices s t common (substr-common (text "/input") common s us)
        (substr-common (text "/hidraw") common t ut))
