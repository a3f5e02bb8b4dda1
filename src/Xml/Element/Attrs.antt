-- ===== src/Xml/Element/Attrs.antt =====
-- The attributes of an element as a finite map.
use txmpp.Common.{
  true, not, ◌&&◌, ◌||◌, ◌≡◌, refl, ap, arith, inl, inr, List, [], ◌∷◌, ◌++◌, none, some, Bytes,
  if◌then◌else◌, Option-cases, ◌⊎◌,
}
use txmpp.Xml.Element.{
  XmlAttr, XmlElement, element, attributes, find_attr, attr, has_attr, set_in, set_attr, clear_in,
  clear_attr, add_attr,
}
use txmpp.Xml.QName.{QName, qname_eq, qname_eq_iff}

-- No two attributes of a chain have one name.
abbrev pub UniqueNames : List XmlAttr → Type 0
UniqueNames [] = Unit {0}
UniqueNames (a ∷ as') = (find_attr a.name as' ≡ none) × UniqueNames as'

find_attr-set_in :
    (q r : QName) (v : Bytes) (as' : List XmlAttr)
    → find_attr r (set_in q v as') ≡ (if qname_eq q r then some v else find_attr r as')
unfolding find_attr set_in
find_attr-set_in q r v [] = refl
find_attr-set_in q r v (a ∷ as') = ground (
  arith,
  qname_eq_iff a.name q,
  qname_eq_iff a.name r,
  qname_eq_iff q r,
  find_attr-set_in q r v as',
)

-- After SetAttr the attribute has the new value and every other attribute its old one, whether
-- the name was there before or not.
pub attr-set_attr :
    (q r : QName) (v : Bytes) (e : XmlElement)
    → (attr r (set_attr q v e) ≡ (if qname_eq q r then v else attr r e))
      × (has_attr r (set_attr q v e) ≡ (qname_eq q r || has_attr r e))
unfolding attr has_attr set_attr
attr-set_attr q r v (element n as' cs c) = ground (arith, find_attr-set_in q r v as')

set_in-Unique :
    (q : QName) (v : Bytes) (as' : List XmlAttr) → UniqueNames as' → UniqueNames (set_in q v as')
unfolding set_in find_attr
set_in-Unique q v [] u = (refl, tt)
set_in-Unique q v (a ∷ as') u = ground (
  arith,
  find_attr-set_in q a.name v as',
  qname_eq_iff a.name q,
  qname_eq_iff q a.name,
  set_in-Unique q v as' u.1,
)

find_attr_same :
    (q r : QName) (as' : List XmlAttr) → qname_eq q r ≡ true → find_attr q as' ≡ find_attr r as'
find_attr_same q r as' h = ap (λ n. find_attr n as') ((qname_eq_iff q r).0 h)

find_attr-clear_in :
    (q r : QName) (as' : List XmlAttr)
    → UniqueNames as'
    → find_attr r (clear_in q as') ≡ (if qname_eq q r then none else find_attr r as')
unfolding find_attr clear_in
find_attr-clear_in q r [] u = ground arith
find_attr-clear_in q r (a ∷ as') u = ground (
  arith,
  qname_eq_iff a.name q,
  qname_eq_iff a.name r,
  qname_eq_iff q r,
  find_attr_same a.name r as',
  find_attr-clear_in q r as' u.1,
)

clear_in-Unique : (q : QName) (as' : List XmlAttr) → UniqueNames as' → UniqueNames (clear_in q as')
unfolding clear_in
clear_in-Unique q [] u = tt
clear_in-Unique q (a ∷ as') u = ground (
  arith,
  find_attr-clear_in q a.name as' u.1,
  qname_eq_iff q a.name,
  qname_eq_iff a.name q,
  clear_in-Unique q as' u.1,
)

find_attr-append :
    (r : QName) (a : XmlAttr) (as' : List XmlAttr)
    → find_attr r as' ≡ none
    → find_attr r (as' ++ a ∷ []) ≡ (if qname_eq a.name r then some a.value else none)
unfolding find_attr
find_attr-append r a [] h = refl
find_attr-append r a (b ∷ as') h = ground (arith, find_attr-append r a as')

append-Unique :
    (a : XmlAttr) (as' : List XmlAttr)
    → UniqueNames as'
    → find_attr a.name as' ≡ none
    → UniqueNames (as' ++ a ∷ [])
unfolding find_attr
append-Unique a [] u h = (refl, tt)
append-Unique a (b ∷ as') u h = ground (
  arith,
  find_attr-append b.name a as' u.0,
  qname_eq_iff a.name b.name,
  qname_eq_iff b.name a.name,
  append-Unique a as' u.1,
)

-- SetAttr and ClearAttr keep the names of the attributes distinct where they are, and so does AddAttr unless the
-- name is there already.
pub attributes-UniqueNames :
    (q : QName) (v : Bytes) (e : XmlElement)
    → UniqueNames (attributes e)
    → UniqueNames (attributes (set_attr q v e))
      × UniqueNames (attributes (clear_attr q e))
      × ((has_attr q e ≡ true) ⊎ UniqueNames (attributes (add_attr q v e)))
unfolding set_attr clear_attr add_attr has_attr
attributes-UniqueNames q v (element n as' cs c) u = (
  set_in-Unique q v as' u,
  clear_in-Unique q as' u,
  elim (Option-cases (find_attr q as')) [
    | inl e ↦ inr (append-Unique _ as' u e)
    | inr (w, e) ↦ inl (rw e refl)
  ],
)

-- With distinct names ClearAttr takes the attribute away and leaves every other as it is.
pub attr-clear_attr :
    (q r : QName) (e : XmlElement)
    → UniqueNames (attributes e)
    → (attr r (clear_attr q e) ≡ (if qname_eq q r then [] else attr r e))
      × (has_attr r (clear_attr q e) ≡ (not (qname_eq q r) && has_attr r e))
unfolding attr has_attr clear_attr
attr-clear_attr q r (element n as' cs c) u = ground (arith, find_attr-clear_in q r as' u)
