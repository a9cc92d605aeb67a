-- ===== src/Udisks2/Manager/Refines/Kinds.antt =====
-- The kind of an interface by its name, and the name of each kind.
use mathlib.Core.Option.{some-injective}
use sdbus_cpp_examples.Prelude.{
  ◌≡◌, inl, inr, refl, sym, ap, subst, ◌∙◌, false, Option, none, some, if◌then◌else◌, if_rule,
  arith, Bool-cases,
}
use sdbus_cpp_examples.Prelude.Text.{Text, text_eq, text_eq_iff}
use sdbus_cpp_examples.Prelude.Map.{text_key}
use sdbus_cpp_examples.Udisks2.Manager.{
  Kind, block, drive, nvme_namespace, nvme_controller, partition_table, partition, filesystem,
  swapspace, interface_of, kind_of, same,
}

kind_of_name : (k : Kind) → kind_of (interface_of k) ≡ some k
unfolding kind_of
kind_of_name block = refl
kind_of_name drive = refl
kind_of_name nvme_namespace = refl
kind_of_name nvme_controller = refl
kind_of_name partition_table = refl
kind_of_name partition = refl
kind_of_name filesystem = refl
kind_of_name swapspace = refl

Sound : Text → Option Kind → Type 0
Sound interface o = (k : Kind) → o ≡ some k → interface ≡ interface_of k

-- One comparison of the chain.
kind_of_test :
    (interface : Text) (k : Kind) (rest : Option Kind)
    → Sound interface rest
    → Sound interface (if text_eq interface (interface_of k) then some k else rest)
unfolding Sound
kind_of_test interface k rest h j =
    if_rule (λ (o : Option Kind). o ≡ some j → interface ≡ interface_of j)
      (text_eq interface (interface_of k)) (some k) rest
      (λ e q. (text_eq_iff interface (interface_of k)).0 e ∙ ap interface_of (some-injective k j q))
      (λ e. h j)

kind_of-Sound : (interface : Text) → Sound interface (kind_of interface)
unfolding kind_of Sound
kind_of-Sound interface = kind_of_test interface block _ (
    kind_of_test interface drive _ (
      kind_of_test interface nvme_namespace _ (
        kind_of_test interface nvme_controller _ (
          kind_of_test interface partition_table _ (
            kind_of_test interface partition _ (
              kind_of_test interface filesystem _
                (kind_of_test interface swapspace none no_kind)))))))
  where
    no_kind : Sound interface none
    no_kind k h = cc

kind_names : (k j : Kind) → text_eq (interface_of k) (interface_of j) ≡ same k j
kind_names k j = ground arith

pub known :
    (interface : Text) (j k : Kind)
    → kind_of interface ≡ some k
    → text_eq interface (interface_of j) ≡ same k j
unfolding Sound
known interface j k h =
    subst (λ i. text_eq i (interface_of j) ≡ same k j) (sym (kind_of-Sound interface k h))
      (kind_names k j)

pub unknown :
    (interface : Text) (j : Kind)
    → kind_of interface ≡ none
    → text_eq interface (interface_of j) ≡ false
unknown interface j h = elim (Bool-cases (text_eq interface (interface_of j))) [
  | inr e ↦ e
  | inl e ↦
      absurd
        (let q = ap kind_of ((text_eq_iff interface (interface_of j)).0 e) ∙ kind_of_name j in cc)
]
