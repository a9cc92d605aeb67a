-- ===== src/Services/Network1/Links.antt =====
-- What the enumeration of the links logs.
use sdbus_cpp_examples.Prelude.{
  ℕ, ◌≡◌, refl, ap, Bool, true, false, none, some, List, [], ◌∷◌, if◌then◌else◌,
}
use sdbus_cpp_examples.Prelude.Text.{Text}
use sdbus_cpp_examples.Services.Network1.{
  LinkInfo, LinkAnswer, Line, link, described, properties, log_link, log_links, enumerate_links,
  and_then,
}

-- The links that are announced in the log.
unfoldable pub linked : List Line → List LinkInfo
linked [] = []
linked (link l ∷ lines) = l ∷ linked lines
linked (described t ∷ lines) = linked lines
linked (properties t ∷ lines) = linked lines

-- The bus answers everything about a link.
abbrev pub answers : LinkAnswer → Bool
answers (some (description, some props)) = true
answers _ = false

-- The links up to the first about which the bus does not answer, that one included.
unfoldable pub up_to_failure : (LinkInfo → LinkAnswer) → List LinkInfo → List LinkInfo
up_to_failure ask [] = []
up_to_failure ask (l ∷ links) =
    let rest = up_to_failure ask links in l ∷ (if answers (ask l) then rest else [])

module _ (double_text : ℕ → Text) (summary : Text → Text) where
  log_links-linked :
      (ask : LinkInfo → LinkAnswer) (links : List LinkInfo)
      → linked (log_links double_text summary ask links) ≡ up_to_failure ask links
  unfolding linked log_links log_link up_to_failure
  log_links-linked ask [] = refl
  log_links-linked ask (l ∷ links) = round (ask l) (log_links-linked ask links)
    where
      round :
          (a : LinkAnswer)
          → linked (log_links double_text summary ask links) ≡ up_to_failure ask links
          → linked (
              and_then double_text summary
                (log_link double_text summary l a)
                (log_links double_text summary ask links))
            ≡ l ∷ (if answers a then up_to_failure ask links else [])
      round none h = refl
      round (some (description, none)) h = refl
      round (some (description, some props)) h = ap (◌∷◌ l) h

  -- All links that ListLinks gives are kept, but one about which the bus fails to answer is the last
  -- that is logged: the links after it are not.
  pub enumerate_links-linked :
      (entries : List LinkInfo) (ask : LinkInfo → LinkAnswer)
      → ((enumerate_links double_text summary (some entries) ask).0 ≡ entries)
        × (linked (enumerate_links double_text summary (some entries) ask).1
            ≡ up_to_failure ask entries)
  unfolding enumerate_links
  enumerate_links-linked entries ask = (refl, log_links-linked ask entries)
