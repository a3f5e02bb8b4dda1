-- ===== src/Parser/Shape.antt =====
-- The stanza parser's state between two callbacks (xmppstanzaparser.cc, xmlbuilder.cc).
use txmpp.Common.{
  ℕ, zero, suc, Bool, true, false, ◌≡◌, refl, inl, inr, List, [], ◌∷◌, Option, none, some,
  Bool-cases, Bytes, length, arith, drop,
}
use txmpp.Parser.{
  Token, start_tag, end_tag, char_data, xml_decl, XmlError, is_raised, StanzaParser, new_parser,
  start_namespaces, raise_error,
}
use txmpp.Parser.Builder.{XmlBuilder, new_builder}
use txmpp.Parser.Contents.{building}
use txmpp.Xml.Element.{XmlElement, add_element}
use txmpp.Xml.Element.Path.{IsHole, whole_IsHole, child_IsHole}
use txmpp.Xml.NsStack.{XmlnsStack, add_xmlns}

-- One callback, and the elements open before and after it.
pub data Moves : ℕ → Token → ℕ → Type 0 where
  by_start :
      {n : ℕ} (name : Bytes) (atts : List (Bytes × Bytes)) → Moves n (start_tag name atts) (suc n)
  by_end : {n : ℕ} (name : Bytes) → Moves (suc n) (end_tag name) n
  by_text : {n : ℕ} (s : Bytes) → Moves n (char_data s) n
  by_decl : {n : ℕ} (ver enc : Option Bytes) (off : Bool) → Moves n (xml_decl ver enc off) n

-- What expat guarantees of the tags it reports: no end tag without a start tag. Balanced n ts m:
-- with n elements open, after ts there are m.
pub data Balanced : ℕ → List Token → ℕ → Type 0 where
  done : {n : ℕ} → Balanced n [] n
  moves :
      {n k m : ℕ} {t : Token} {ts : List Token}
      → Moves n t k
      → Balanced k ts m
      → Balanced n (t ∷ ts) m

-- The open elements of a stanza: n of them round the innermost, each with what it has so far.
pub data Around : ℕ → Type 0 where
  here : Around 0
  under : {n : ℕ} → Around n → XmlElement → Around (suc n)

abbrev pub plug : {n : ℕ} → Around n → XmlElement → XmlElement
plug here x = x
plug (under k e) x = plug k (add_element x e)

pub plug_IsHole : {n : ℕ} (k : Around n) → IsHole n (plug k)
plug_IsHole here = whole_IsHole
plug_IsHole (under {n} k e) = child_IsHole n (plug k) e (plug_IsHole k)

abbrev pub chain : ℕ → List (Option ℕ)
chain zero = none ∷ []
chain (suc n) = some n ∷ chain n

-- As many frames as open elements, and the builder at the innermost.
pub data Shaped : ℕ → List ℕ → XmlBuilder → Type 0 where
  outside : Shaped 0 [] new_builder
  between : {f : ℕ} → Shaped 1 (f ∷ []) new_builder
  within :
      {n f g : ℕ} {fs : List ℕ} (k : Around n) (x : XmlElement)
      → length fs ≡ n
      → Shaped (suc (suc n)) (f ∷ g ∷ fs) (building n (chain n) (plug k x))

-- An error is raised, or n elements are open.
pub data IsSane (n : ℕ) (p : StanzaParser) : Type 0 where
  raised : is_raised p.context.raised ≡ true → IsSane n p
  sane :
      p.sent_error ≡ false
      → p.depth ≡ n
      → Shaped n p.context.xmlnsstack.depths p.builder
      → IsSane n p

pub new_parser-IsSane : IsSane 0 new_parser
new_parser-IsSane = sane refl refl outside

pub raise_error-IsSane :
    (n : ℕ) (e : XmlError) (p : StanzaParser) → is_raised e ≡ true → IsSane n (raise_error e p)
unfolding raise_error
raise_error-IsSane n e p h = elim (Bool-cases (is_raised p.context.raised)) [
  | inl already ↦ rw already (raised already)
  | inr calm ↦ rw calm (raised h)
]

pub depths-start_namespaces :
    (atts : List (Bytes × Bytes)) (st : XmlnsStack)
    → (start_namespaces atts st).1.depths ≡ st.depths
unfolding start_namespaces add_xmlns
depths-start_namespaces [] st = refl
depths-start_namespaces ((name, value) ∷ atts) st = ground (
  arith,
  depths-start_namespaces atts (add_xmlns [] value st),
  depths-start_namespaces atts (add_xmlns (drop 6 name) value st),
  depths-start_namespaces atts st,
)
