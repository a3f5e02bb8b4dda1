-- ===== src/Xml/Element/Contents.antt =====
-- The children of an element: its text, its elements, and what the operations keep of them.
use mathlib.Core.List.{append-nil, append_assoc}
use txmpp.Common.{
  true, ◌≡◌, ◌≢◌, ◌⊎◌, refl, sym, ap, arith, List, [], ◌∷◌, ◌++◌, Option, none, some, Bytes,
  if◌then◌else◌,
}
use txmpp.Xml.Element.{
  XmlElement, Children, element, end, text, child, name, children, find_element, first_named,
  fst_of, body_text, append_child, append_text, add_element, add_text, set_body, set_body_text,
  remove_named, clear_named_children, find_or_add_named_child, new_element,
}
use txmpp.Xml.QName.{QName, qname_eq, qname_eq_iff, qname_eq_refl}

-- BodyText gives back what SetBodyText was given, whatever children there were.
pub body_text-set_body_text : (s : Bytes) (e : XmlElement) → body_text (set_body_text s e) ≡ s
unfolding body_text set_body_text
body_text-set_body_text [] (element q as' cs c) = refl
body_text-set_body_text (x ∷ s) (element q as' end c) = refl
body_text-set_body_text (x ∷ s) (element q as' (child y cs) c) = refl
body_text-set_body_text (x ∷ s) (element q as' (text t end) c) = refl
body_text-set_body_text (x ∷ s) (element q as' (text t (text u cs)) c) = refl
body_text-set_body_text (x ∷ s) (element q as' (text t (child y cs)) c) = refl

-- No text node is empty, and no two stand side by side.
abbrev pub IsCoalesced : Children → Type 0
IsCoalesced end = Unit {0}
IsCoalesced (child e cs) = IsCoalesced cs
IsCoalesced (text t end) = t ≢ []
IsCoalesced (text t (text u cs)) = ⊥
IsCoalesced (text t (child e cs)) = (t ≢ []) × IsCoalesced cs

append_child-IsCoalesced :
    (e : XmlElement) (cs : Children) → IsCoalesced cs → IsCoalesced (append_child e cs)
unfolding append_child
append_child-IsCoalesced e end h = tt
append_child-IsCoalesced e (child x cs) h = append_child-IsCoalesced e cs h
append_child-IsCoalesced e (text t end) h = (h, tt)
append_child-IsCoalesced e (text t (text u cs)) h = absurd h
append_child-IsCoalesced e (text t (child x cs)) h = (h.0, append_child-IsCoalesced e cs h.1)

append_text-IsCoalesced :
    (s : Bytes) (cs : Children) → s ≢ [] → IsCoalesced cs → IsCoalesced (append_text s cs)
unfolding append_text
append_text-IsCoalesced s end ne h = ne
append_text-IsCoalesced s (child x cs) ne h = append_text-IsCoalesced s cs ne h
append_text-IsCoalesced s (text [] end) ne h = absurd (h refl)
append_text-IsCoalesced s (text (c ∷ t) end) ne h = λ e. cc
append_text-IsCoalesced s (text t (text u cs)) ne h = absurd h
append_text-IsCoalesced s (text t (child x cs)) ne h = (h.0, append_text-IsCoalesced s cs ne h.1)

-- AddElement, AddText and SetBodyText keep the text nodes coalesced: none empty, no two adjacent.
pub add-IsCoalesced :
    (s : Bytes) (x e : XmlElement)
    → IsCoalesced (children e)
    → IsCoalesced (children (add_element x e))
      × IsCoalesced (children (add_text s e))
      × IsCoalesced (children (set_body_text s e))
unfolding add_element add_text set_body_text
add-IsCoalesced [] x (element q as' cs c) h = (append_child-IsCoalesced x cs h, h, tt)
add-IsCoalesced (b ∷ s) x (element q as' cs c) h =
    (append_child-IsCoalesced x cs h, append_text-IsCoalesced (b ∷ s) cs (λ e. cc) h, body cs)
  where
    ne : b ∷ s ≢ []
    ne = λ e. cc

    body : (ks : Children) → IsCoalesced (children (set_body (b ∷ s) ks (element q as' ks c)))
    body end = ne
    body (child y ks) = ne
    body (text t end) = ne
    body (text t (text u ks)) = ne
    body (text t (child y ks)) = ne

-- All the character data of a chain, in order, and its elements, in order.
abbrev pub text_content : Children → Bytes
text_content end = []
text_content (text t cs) = t ++ text_content cs
text_content (child e cs) = text_content cs

abbrev pub elements : Children → List XmlElement
elements end = []
elements (text t cs) = elements cs
elements (child e cs) = e ∷ elements cs

append_text-contents :
    (s : Bytes) (cs : Children)
    → (text_content (append_text s cs) ≡ text_content cs ++ s)
      × (elements (append_text s cs) ≡ elements cs)
unfolding append_text
append_text-contents s end = (append-nil s, refl)
append_text-contents s (child x cs) = let (t, e) = append_text-contents s cs in (t, ap (◌∷◌ x) e)
append_text-contents s (text t end) = (simp append-nil, refl)
append_text-contents s (text t (text u cs)) =
    let (i, e) = append_text-contents s (text u cs) in (rw i (rw (append_assoc t)), e)
append_text-contents s (text t (child x cs)) =
    let (i, e) = append_text-contents s cs in (rw i (rw append_assoc), ap (◌∷◌ x) e)

append_child-contents :
    (x : XmlElement) (cs : Children)
    → (text_content (append_child x cs) ≡ text_content cs)
      × (elements (append_child x cs) ≡ elements cs ++ x ∷ [])
unfolding append_child
append_child-contents x end = (refl, refl)
append_child-contents x (text t cs) = let (i, e) = append_child-contents x cs in (ap (◌++◌ t) i, e)
append_child-contents x (child y cs) = let (i, e) = append_child-contents x cs in (i, ap (◌∷◌ y) e)

-- AddText puts its text at the end of the character data and keeps the elements; AddElement puts
-- its element at the end of the elements and keeps the character data.
pub add-contents :
    (s : Bytes) (x e : XmlElement)
    → (text_content (children (add_text s e)) ≡ text_content (children e) ++ s)
      × (elements (children (add_text s e)) ≡ elements (children e))
      × (text_content (children (add_element x e)) ≡ text_content (children e))
      × (elements (children (add_element x e)) ≡ elements (children e) ++ x ∷ [])
unfolding add_element add_text
add-contents [] x (element q as' cs c) =
    let (i, j) = append_child-contents x cs in (sym (append-nil (text_content cs)), refl, i, j)
add-contents (b ∷ s) x (element q as' cs c) =
    let (i, j) = append_child-contents x cs in
    let (k, l) = append_text-contents (b ∷ s) cs in (k, l, i, j)

first_in : QName → Children → Option XmlElement
first_in q cs = fst_of (find_element (λ x. qname_eq (name x) q) cs)

first_in-remove_named :
    (q r : QName) (cs : Children)
    → first_in r (remove_named q cs) ≡ (if qname_eq q r then none else first_in r cs)
unfolding first_in find_element remove_named
first_in-remove_named q r end = ground arith
first_in-remove_named q r (text t cs) = first_in-remove_named q r cs
first_in-remove_named q r (child e cs) = ground (
  arith,
  qname_eq_iff (name e) q,
  qname_eq_iff (name e) r,
  qname_eq_iff q r,
  first_in-remove_named q r cs,
)

remove_named-text : (q : QName) (cs : Children) → text_content (remove_named q cs) ≡ text_content cs
unfolding remove_named
remove_named-text q end = refl
remove_named-text q (text t cs) = ap (◌++◌ t) (remove_named-text q cs)
remove_named-text q (child e cs) = ground (arith, remove_named-text q cs)

-- ClearNamedChildren leaves no child of that name; the first child of any other name, and the
-- character data, are what they were.
pub first_named-clear :
    (q r : QName) (e : XmlElement)
    → (first_named r (clear_named_children q e) ≡ (if qname_eq q r then none else first_named r e))
      × (text_content (children (clear_named_children q e)) ≡ text_content (children e))
unfolding first_named clear_named_children
first_named-clear q r (element n as' cs c) =
    (unfold first_in in first_in-remove_named q r cs, remove_named-text q cs)

first_in-append_child :
    (r : QName) (x : XmlElement) (cs : Children)
    → first_in r (append_child x cs) ≡ elim (first_in r cs) [
      | some y ↦ some y
      | none ↦ if qname_eq (name x) r then some x else none
    ]
unfolding first_in find_element append_child
first_in-append_child r x end = ground arith
first_in-append_child r x (text t cs) = first_in-append_child r x cs
first_in-append_child r x (child y cs) = ground (arith, first_in-append_child r x cs)

-- FindOrAddNamedChild returns the first child of that name of the element that it leaves, and
-- leaves the first child of any other name as it was.
pub find_or_add_named_child_lem :
    (q r : QName) (e : XmlElement)
    → (first_named q (find_or_add_named_child q e).0 ≡ some (find_or_add_named_child q e).1)
      × ((qname_eq q r ≡ true) ⊎ (first_named r (find_or_add_named_child q e).0 ≡ first_named r e))
unfolding first_named find_or_add_named_child first_in
find_or_add_named_child_lem q r (element n as' cs c) = ground (
  arith,
  first_in-append_child q (new_element q) cs,
  first_in-append_child r (new_element q) cs,
  qname_eq_refl q,
)
