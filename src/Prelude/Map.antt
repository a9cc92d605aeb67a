-- ===== src/Prelude/Map.antt =====
-- `std::map` as an association list. The key comparison is an instance argument, so that texts and
-- numbers are keys alike; iteration order is the order of insertion.
use Prim.Native.Nat.{ℕ, suc, ◌≤◌}
use mathlib.Core.Path.{◌≡◌, refl, sym, ap, subst}
use mathlib.Core.Logic.{◌↔◌}
use mathlib.Core.Bool.{Bool, true, false}
use mathlib.Core.List.{List, [], ◌∷◌}
use mathlib.Core.Option.{Option, none, some, some-injective}
use native.Mathlib.Omega.{arith}
use sdbus_cpp_examples.Prelude.Tests.{if◌then◌else◌, if_rule, ◌==◌ as nat_beq, ==_iff}
use sdbus_cpp_examples.Prelude.Lists.{length, All, In}
use sdbus_cpp_examples.Prelude.Text.{Text, text_eq, text_eq_iff}

pub record Eq {ℓ} (K : Type ℓ) : Type ℓ where
  pub beq : K → K → Bool
  pub beq_iff : (a b : K) → (beq a b ≡ true) ↔ (a ≡ b)

instance abbrev pub nat_eq : Eq ℕ
nat_eq = record { beq = nat_beq; beq_iff = ==_iff }

instance abbrev pub text_key : Eq Text
text_key = record { beq = text_eq; beq_iff = text_eq_iff }

module _ {ℓ κ} {K : Type ℓ} {V : Type κ} ⦃e : Eq K⦄ where
  -- `m.find(k)`, `none` for `m.end()`.
  unfoldable pub lookup : K → List (K × V) → Option V
  lookup k [] = none
  lookup k ((j, v) ∷ m) = if e.beq j k then some v else lookup k m

  -- `m.contains(k)`.
  unfoldable pub has_key : K → List (K × V) → Bool
  has_key k [] = false
  has_key k ((j, v) ∷ m) = if e.beq j k then true else has_key k m

  -- `m[k] = v`.
  unfoldable pub insert : K → V → List (K × V) → List (K × V)
  insert k v [] = (k, v) ∷ []
  insert k v ((j, w) ∷ m) = if e.beq j k then (j, v) ∷ m else (j, w) ∷ insert k v m

  -- `m.erase(k)`.
  unfoldable pub remove : K → List (K × V) → List (K × V)
  remove k [] = []
  remove k ((j, w) ∷ m) = if e.beq j k then remove k m else (j, w) ∷ remove k m

  pub lookup-insert :
      (k j : K) (v : V) (m : List (K × V))
      → lookup j (insert k v m) ≡ (if e.beq k j then some v else lookup j m)
  unfolding lookup insert
  lookup-insert k j v [] = refl
  lookup-insert k j v ((i, w) ∷ m) =
      ground (arith, e.beq_iff k j, e.beq_iff i k, e.beq_iff i j, lookup-insert k j v m)

  pub lookup-remove :
      (k j : K) (m : List (K × V))
      → lookup j (remove k m) ≡ (if e.beq k j then none else lookup j m)
  unfolding lookup remove
  lookup-remove k j [] = ground arith
  lookup-remove k j ((i, w) ∷ m) =
      ground (arith, e.beq_iff k j, e.beq_iff i k, e.beq_iff i j, lookup-remove k j m)

  pub has_key-insert :
      (k j : K) (v : V) (m : List (K × V))
      → has_key j (insert k v m) ≡ (if e.beq k j then true else has_key j m)
  unfolding has_key insert
  has_key-insert k j v [] = refl
  has_key-insert k j v ((i, w) ∷ m) =
      ground (arith, e.beq_iff k j, e.beq_iff i k, e.beq_iff i j, has_key-insert k j v m)

  pub has_key-remove :
      (k j : K) (m : List (K × V))
      → has_key j (remove k m) ≡ (if e.beq k j then false else has_key j m)
  unfolding has_key remove
  has_key-remove k j [] = ground arith
  has_key-remove k j ((i, w) ∷ m) =
      ground (arith, e.beq_iff k j, e.beq_iff i k, e.beq_iff i j, has_key-remove k j m)

  -- `m.size()` after a write: one more, unless the key was there.
  pub length-insert :
      (k : K) (v : V) (m : List (K × V))
      → length (insert k v m) ≡ (if has_key k m then length m else suc (length m))
  unfolding insert has_key
  length-insert k v [] = refl
  length-insert k v ((j, w) ∷ m) = ground (arith, length-insert k v m)

  pub length-remove-le : (k : K) (m : List (K × V)) → length (remove k m) ≤ length m
  unfolding remove
  length-remove-le k [] = omega arith
  length-remove-le k ((j, w) ∷ m) = ground (arith, length-remove-le k m)

pub lookup-has_key {ℓ κ} :
    {K : Type ℓ} {V : Type κ} ⦃e : Eq K⦄ (k : K) (v : V) (m : List (K × V))
    → lookup k m ≡ some v
    → has_key k m ≡ true
unfolding lookup has_key
lookup-has_key k v [] h = cc
lookup-has_key k v ((j, w) ∷ m) h = ground (arith, lookup-has_key k v m)

pub lookup-In {ℓ κ} :
    {K : Type ℓ} {V : Type κ} ⦃e : Eq K⦄ (k : K) (v : V) (m : List (K × V))
    → lookup k m ≡ some v
    → In m (k, v)
unfolding lookup
lookup-In ⦃e⦄ k v [] = λ h. cc
lookup-In ⦃e⦄ k v ((j, w) ∷ m) =
    if_rule (λ (o : Option _). o ≡ some v → In ((j, w) ∷ m) (k, v)) (e.beq j k) _ _
      (λ same h. (0, ap some (λ i. ((e.beq_iff j k).0 same i, some-injective w v h i))))
      (λ _ h. let (n, q) = lookup-In k v m h in (suc n, q))

pub has_key-lookup {ℓ κ} :
    {K : Type ℓ} {V : Type κ} ⦃e : Eq K⦄ (k : K) (m : List (K × V))
    → lookup k m ≡ none
    → has_key k m ≡ false
unfolding lookup has_key
has_key-lookup k [] h = refl
has_key-lookup k ((j, w) ∷ m) h = ground (arith, has_key-lookup k m)

pub beq_self {ℓ} : {K : Type ℓ} ⦃e : Eq K⦄ (k : K) → e.beq k k ≡ true
beq_self ⦃e⦄ k = (e.beq_iff k k).1 refl

module _ {ℓ κ κ'} {K : Type ℓ} {V : Type κ} ⦃e : Eq K⦄ (P : K → V → Type κ') where
  -- Every entry satisfies `P`.
  abbrev pub Entries : List (K × V) → Type κ'
  Entries m = All (λ kv. P kv.0 kv.1) m

  pub insert-Entries :
      (k : K) (v : V) (m : List (K × V)) → P k v → Entries m → Entries (insert k v m)
  unfolding insert
  insert-Entries k v [] p h = (p, tt)
  insert-Entries k v ((j, w) ∷ m) p h =
      if_rule (λ (n : List (K × V)). Entries n) (e.beq j k) _ _
        (λ same. (subst (λ i. P i v) (sym ((e.beq_iff j k).0 same)) p, h.1))
        (λ _. (h.0, insert-Entries k v m p h.1))

  pub lookup-Entries : (k : K) (v : V) (m : List (K × V)) → Entries m → lookup k m ≡ some v → P k v
  unfolding lookup
  lookup-Entries k v [] h = λ q. cc
  lookup-Entries k v ((j, w) ∷ m) h =
      if_rule (λ (o : Option V). o ≡ some v → P k v) (e.beq j k) _ _
        (λ same q.
          subst (λ i. P i v) ((e.beq_iff j k).0 same) (subst (P j) (some-injective w v q) h.0))
        (λ _ q. lookup-Entries k v m h.1 q)

  pub remove-Entries : (k : K) (m : List (K × V)) → Entries m → Entries (remove k m)
  unfolding remove
  remove-Entries k [] h = tt
  remove-Entries k ((j, w) ∷ m) h =
      if_rule (λ (n : List (K × V)). Entries n) (e.beq j k) _ _ (λ _. remove-Entries k m h.1)
        (λ _. (h.0, remove-Entries k m h.1))
