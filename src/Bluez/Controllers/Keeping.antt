-- ===== src/Bluez/Controllers/Keeping.antt =====
-- What the steps that touch the reader or the loop keep: the contract of the class with the loop
-- (`Legal` in EventLoop/Safety.antt).
use mathlib.Core.Option.{some-injective}
use sdbus_cpp_examples.Prelude.{
  ℕ, ◌≤◌, ◌≡◌, refl, Bool, false, not, ◌||◌, Option, none, some, [], ◌∷◌, if_rule, length, is_empty,
  arith,
}
use sdbus_cpp_examples.Prelude.Text.{Text}
use sdbus_cpp_examples.Prelude.Map.{has_key, text_key}
use sdbus_cpp_examples.ResourceLimits.{
  is_at_capacity, max_adapters, max_input_entries, max_upower_clients,
}
use sdbus_cpp_examples.EventLoop.{Loop, perform, adds, retires, apply_pending}
use sdbus_cpp_examples.Bluez.Hidraw.Devices.{find_hid_device}
use sdbus_cpp_examples.Bluez.Controllers.{Controller, Outside}
use sdbus_cpp_examples.Bluez.Controllers.Adding.{
  add_adapter, add_input, add_upower, open_reader, unless_reading, start_reader,
}
use sdbus_cpp_examples.Prelude.{
  ◌<◌, suc, contains, contains-append, contains-cons, contains-nil, ◌==◌,
}
use sdbus_cpp_examples.EventLoop.Safety.{
  Inv, perform-Inv, perform-destroyed, apply_pending-Inv, apply_pending-destroyed,
}
use sdbus_cpp_examples.EventLoop.Pending.{contains-bury}

-- The invariant of the loop; the reader that is held is alive, not given up and numbered; a number
-- that is not given out yet belongs to no object that was destroyed or given up.
pub record KeptAt (reader : Option ℕ) (l : Loop) (next : ℕ) : Type 0 where
  pub inv : Inv l
  pub reader_lives :
      (r : ℕ)
      → reader ≡ some r
      → (contains r l.destroyed ≡ false) × (contains r l.to_retire ≡ false) × (r < next)
  pub fresh :
      (a : ℕ) → next ≤ a → (contains a l.destroyed ≡ false) × (contains a l.to_retire ≡ false)

abbrev pub Kept : Controller → Type 0
Kept c = KeptAt c.input_reader c.loop c.next

abbrev pub Done : Controller × Bool → Type 0
Done r = Kept r.0

adds-to_retire : (s : ℕ) (l : Loop) → (perform (adds s) l).to_retire ≡ l.to_retire
unfolding perform
adds-to_retire s l = ground arith

retires-to_retire :
    (a s : ℕ) (l : Loop)
    → contains a (perform (retires s) l).to_retire ≡ (contains a l.to_retire || s == a)
unfolding perform
retires-to_retire a s l =
    ground (arith, contains-append a l.to_retire (s ∷ []), contains-cons a s [], contains-nil a)

apply_pending-to_retire : (a : ℕ) (l : Loop) → contains a (apply_pending l).to_retire ≡ false
unfolding apply_pending
apply_pending-to_retire a l = contains-nil a

apply_pending-buried :
    (a : ℕ) (l : Loop)
    → contains a (apply_pending l).destroyed ≡ (contains a l.to_retire || contains a l.destroyed)
apply_pending-buried a l = rw (apply_pending-destroyed l) (contains-bury a l.to_retire l.destroyed)

adds-KeptAt :
    (reader : Option ℕ) (l : Loop) (next : ℕ)
    → KeptAt reader l next
    → KeptAt (some next) (perform (adds next) l) (suc next)
adds-KeptAt reader l next h = record {
  inv = perform-Inv (adds next) l (h.fresh next (omega arith)).0 h.inv;
  reader_lives = λ r e.
      let same = some-injective next r e in
      ground (arith, same, h.fresh r, perform-destroyed (adds next) l, adds-to_retire next l);
  fresh = λ a le. ground (arith, h.fresh a, perform-destroyed (adds next) l, adds-to_retire next l);
}

skipped-KeptAt :
    (reader : Option ℕ) (l : Loop) (next : ℕ) → KeptAt reader l next → KeptAt reader l (suc next)
skipped-KeptAt reader l next h = record {
  inv = h.inv;
  reader_lives = λ r e. let (d, t, lt) = h.reader_lives r e in (d, t, omega arith);
  fresh = λ a le. h.fresh a (omega arith);
}

pub retires-KeptAt :
    (r : ℕ) (l : Loop) (next : ℕ)
    → KeptAt (some r) l next
    → KeptAt none (perform (retires r) l) next
retires-KeptAt r l next h = record {
  inv = perform-Inv (retires r) l ((h.reader_lives r refl).0, (h.reader_lives r refl).1) h.inv;
  reader_lives = λ s e. cc;
  fresh = λ a le. ground (
    arith,
    h.fresh a,
    h.reader_lives r refl,
    perform-destroyed (retires r) l,
    retires-to_retire a r l,
  );
}

pub passes-KeptAt :
    (reader : Option ℕ) (l : Loop) (next : ℕ)
    → KeptAt reader l next
    → KeptAt reader (apply_pending l) next
passes-KeptAt reader l next h = record {
  inv = apply_pending-Inv l h.inv;
  reader_lives = λ r e.
      ground (arith, h.reader_lives r e, apply_pending-buried r l, apply_pending-to_retire r l);
  fresh = λ a le. ground (arith, h.fresh a, apply_pending-buried a l, apply_pending-to_retire a l);
}

pub add_adapter-Kept :
    (o : Outside) (path : Text) (c : Controller) → Kept c → Kept (add_adapter o path c).0
unfolding add_adapter
add_adapter-Kept o path c h =
    if_rule Done (has_key path c.adapters) _ _ (λ _. h)
      (λ _.
        if_rule Done (is_at_capacity (length c.adapters) max_adapters) _ _ (λ _. h)
          (λ _. if_rule Done (not (o.makes_adapter path)) _ _ (λ _. h) (λ _. h)))

pub add_input-Kept :
    (o : Outside) (path : Text) (c : Controller) → Kept c → Kept (add_input o path c).0
unfolding add_input
add_input-Kept o path c h =
    if_rule Done (has_key path c.inputs) _ _ (λ _. h)
      (λ _.
        if_rule Done (is_at_capacity (length c.inputs) max_input_entries) _ _ (λ _. h)
          (λ _. if_rule Done (not (o.makes_input path)) _ _ (λ _. h) (λ _. h)))

pub add_upower-Kept :
    (o : Outside) (path : Text) (c : Controller) → Kept c → Kept (add_upower o path c).0
unfolding add_upower
add_upower-Kept o path c h =
    if_rule Done (is_empty path) _ _ (λ _. h)
      (λ _.
        if_rule Done (has_key path c.upower_clients) _ _ (λ _. h)
          (λ _.
            if_rule Done (is_at_capacity (length c.upower_clients) max_upower_clients) _ _ (λ _. h)
              (λ _. if_rule Done (not (o.makes_upower path)) _ _ (λ _. h) (λ _. h))))

open_reader-Kept :
    (o : Outside) (path : Text) (c : Controller) → Kept c → Kept (open_reader o path c)
unfolding open_reader
open_reader-Kept o path c h =
    if_rule Kept (o.opens_reader path) _ _ (λ _. adds-KeptAt c.input_reader c.loop c.next h)
      (λ _. skipped-KeptAt c.input_reader c.loop c.next h)

unless_reading-Kept :
    (o : Outside) (r : Option ℕ) (c d : Controller)
    → Kept c
    → Kept d
    → Kept (unless_reading o r c d)
unless_reading-Kept o none c d h k = k
unless_reading-Kept o (some r) c d h k = h

pub start_reader-Kept :
    (o : Outside) (key : Text) (c : Controller) → Kept c → Kept (start_reader o key c)
unfolding start_reader
start_reader-Kept o key c h =
    if_rule Kept (is_empty key) _ _ (λ _. h)
      (λ _.
        if_rule Kept (is_empty (find_hid_device c.hidraws key)) _ _ (λ _. h)
          (λ _.
            unless_reading-Kept o c.input_reader c _ h
              (open_reader-Kept o (find_hid_device c.hidraws key) c h)))
