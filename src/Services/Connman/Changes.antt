-- ===== src/Services/Connman/Changes.antt =====
-- What a change of the services leaves.
use sdbus_cpp_examples.Prelude.{
  ◌≡◌, ◌⊎◌, inl, inr, refl, Bool, true, false, ◌||◌, List, if◌then◌else◌, arith,
}
use sdbus_cpp_examples.Prelude.Text.{Text}
use sdbus_cpp_examples.Prelude.Map.{has_key, text_key}
use sdbus_cpp_examples.Services.Objects.{
  Objects, names, add_objects, remove_objects-has_key, add_objects-has_key,
}
use sdbus_cpp_examples.Services.Connman.{Client, then_remove, on_services_changed}

-- If no constructor throws, a service is known after a change if it is among the changed ones or was
-- known, and is not among the removed ones. If one throws, none of the removed ones is removed.
pub on_services_changed-has_key :
    (makes : Text → Bool) (changed removed : List Text) (c : Client)
    → (((add_objects makes changed c.services).1 ≡ true)
        × ((p : Text)
            → has_key p (on_services_changed makes changed removed c).services
              ≡ (if names p removed then false else names p changed || has_key p c.services)))
      ⊎ (((add_objects makes changed c.services).1 ≡ false)
          × ((on_services_changed makes changed removed c).services
              ≡ (add_objects makes changed c.services).0))
unfolding on_services_changed then_remove
on_services_changed-has_key makes changed removed c =
    cases (add_objects makes changed c.services)
      (λ p. add_objects-has_key makes changed c.services p)
  where
    cases :
        (r : Objects × Bool)
        → ((p : Text) → r.1 ≡ true → has_key p r.0 ≡ (names p changed || has_key p c.services))
        → ((r.1 ≡ true)
            × ((p : Text)
                → has_key p (then_remove removed r)
                  ≡ (if names p removed then false else names p changed || has_key p c.services)))
          ⊎ ((r.1 ≡ false) × (then_remove removed r ≡ r.0))
    cases (m, true) h =
        inl (refl, λ p. ground (arith, remove_objects-has_key removed m p, h p refl))
    cases (m, false) h = inr (refl, refl)
