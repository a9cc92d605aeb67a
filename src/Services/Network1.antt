-- ===== src/Services/Network1.antt =====
-- src/network1/network1_client.cc: the links of the network and what is logged of them.
pub mod Links
use sdbus_cpp_examples.Prelude.{ℕ, Bool, true, false, Option, none, some, List, [], ◌∷◌, ◌++◌}
use sdbus_cpp_examples.Prelude.Text.{Text}
use sdbus_cpp_examples.Prelude.Int.{ℤ}
use sdbus_cpp_examples.Printing.Values.{Variant}
use sdbus_cpp_examples.Printing.Properties.{print_changed_properties}

-- Network1ManagerClient::LinkInfo.
pub record LinkInfo : Type 0 where
  pub ifindex : ℤ
  pub name : Text
  pub path : Text

-- What the bus answers about a link: none where createProxy or Describe throws, and none in the
-- second place where getAllProperties does.
abbrev pub LinkAnswer : Type 0
LinkAnswer = Option (Text × Option (List (Text × Variant)))

-- What is logged of a link: itself, its description, and its properties.
pub data Line : Type 0 where
  link : LinkInfo → Line
  described : Text → Line
  properties : Text → Line

-- `summary` is Utils::parseDescriptionJson, `double_text` std::to_string of a double.
module _ (double_text : ℕ → Text) (summary : Text → Text) where
  -- One round of the loop: its lines, and whether nothing was thrown.
  unfoldable pub log_link : LinkInfo → LinkAnswer → List Line × Bool
  log_link l none = (link l ∷ [], false)
  log_link l (some (description, none)) = (link l ∷ described (summary description) ∷ [], false)
  log_link l (some (description, some props)) = (
    link l
        ∷ described (summary description)
        ∷ properties (print_changed_properties double_text l.path props [])
        ∷ [],
    true,
  )

  abbrev pub and_then : List Line × Bool → List Line → List Line
  and_then (lines, false) rest = lines
  and_then (lines, true) rest = lines ++ rest

  -- The loop over links_, until something is thrown.
  unfoldable pub log_links : (LinkInfo → LinkAnswer) → List LinkInfo → List Line
  log_links ask [] = []
  log_links ask (l ∷ links) = and_then (log_link l (ask l)) (log_links ask links)

  -- Network1ManagerClient::enumerateLinks, given what ListLinks answers: links_ after it, and what is
  -- logged of the links.
  unfoldable pub enumerate_links :
      Option (List LinkInfo) → (LinkInfo → LinkAnswer) → List LinkInfo × List Line
  enumerate_links none ask = ([], [])
  enumerate_links (some entries) ask = (entries, log_links ask entries)
