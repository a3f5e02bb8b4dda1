-- ===== src/Xml/Element/Path.antt =====
-- Going down an element by its last children (xmlelement.cc, the forms with a depth): an element
-- with one place in it, and changes at that place.
use txmpp.Common.{ℕ, zero, suc, ◌≡◌, refl, ap, sym, ◌∙◌, Option, none, some, ◌>>=◌}
use txmpp.Xml.Element.{
  XmlElement, Children, element, end, text, child, children, with_children, append_child,
  add_element, at_last, at_depth,
}

-- A step down, and n of them.
abbrev descend : (XmlElement → Option XmlElement) → XmlElement → Option XmlElement
descend f e = at_last f (children e) >>= (λ cs. some (with_children cs e))

abbrev pub at_path : ℕ → (XmlElement → Option XmlElement) → XmlElement → Option XmlElement
at_path zero f = f
at_path (suc n) f = descend (at_path n f)

pub at_depth-at_path :
    (n : ℕ) (f : XmlElement → XmlElement) → at_depth n f ≡ at_path n (λ x. some (f x))
unfolding at_depth
at_depth-at_path zero f = refl
at_depth-at_path (suc n) f = ap descend (at_depth-at_path n f)

at_path-suc :
    (n : ℕ) (f : XmlElement → Option XmlElement) → at_path (suc n) f ≡ at_path n (descend f)
at_path-suc zero f = refl
at_path-suc (suc n) f = ap descend (at_path-suc n f)

bind_some {ℓ} : {A : Type ℓ} (m : Option A) → (m >>= (λ a. some a)) ≡ m
bind_some none = refl
bind_some (some a) = refl

bind_assoc {ℓ κ μ} :
    {A : Type ℓ} {B : Type κ} {C : Type μ} (m : Option A) (f : A → Option B) (g : B → Option C)
    → ((m >>= f) >>= g) ≡ (m >>= (λ a. f a >>= g))
bind_assoc none f g = refl
bind_assoc (some a) f g = refl

-- The last child, once it is put there, is the one that is changed.
pub at_last-append_child :
    (f : XmlElement → Option XmlElement) (x : XmlElement) (cs : Children)
    → at_last f (append_child x cs) ≡ (f x >>= (λ y. some (append_child y cs)))
unfolding at_last append_child
at_last-append_child f x end = refl
at_last-append_child f x (text t end) = bind_assoc (f x) _ _
at_last-append_child f x (text t (text u cs)) =
    ap (λ m. m >>= (λ r. some (text t r))) (at_last-append_child f x (text u cs))
    ∙ bind_assoc (f x) _ _
at_last-append_child f x (text t (child z cs)) =
    ap (λ m. m >>= (λ r. some (text t r))) (at_last-append_child f x (child z cs))
    ∙ bind_assoc (f x) _ _
at_last-append_child f x (child z end) = bind_assoc (f x) _ _
at_last-append_child f x (child z (text u cs)) =
    ap (λ m. m >>= (λ r. some (child z r))) (at_last-append_child f x (text u cs))
    ∙ bind_assoc (f x) _ _
at_last-append_child f x (child z (child w cs)) =
    ap (λ m. m >>= (λ r. some (child z r))) (at_last-append_child f x (child w cs))
    ∙ bind_assoc (f x) _ _

descend-add_element :
    (f : XmlElement → Option XmlElement) (x e : XmlElement)
    → descend f (add_element x e) ≡ (f x >>= (λ y. some (add_element y e)))
unfolding add_element
descend-add_element f x (element q attrs cs cdata) =
    ap (λ m. m >>= (λ r. some (element q attrs r cdata))) (at_last-append_child f x cs)
    ∙ bind_assoc (f x) _ _

-- An element with a place n steps down: what is done there is done to what stands there.
abbrev pub IsHole : ℕ → (XmlElement → XmlElement) → Type 0
IsHole n c =
    (f : XmlElement → Option XmlElement) (x : XmlElement)
    → at_path n f (c x) ≡ (f x >>= (λ y. some (c y)))

pub whole_IsHole : IsHole 0 (λ x. x)
whole_IsHole f x = sym (bind_some (f x))

pub child_IsHole :
    (n : ℕ) (c : XmlElement → XmlElement) (e : XmlElement)
    → IsHole n c
    → IsHole (suc n) (λ x. c (add_element x e))
child_IsHole n c e h f x =
    ap (λ g. g (c (add_element x e))) (at_path-suc n f)
    ∙ h (descend f) (add_element x e)
    ∙ ap (λ m. m >>= (λ y. some (c y))) (descend-add_element f x e)
    ∙ bind_assoc (f x) _ _

pub at_depth-hole :
    (n : ℕ) (c : XmlElement → XmlElement) (f : XmlElement → XmlElement) (x : XmlElement)
    → IsHole n c
    → at_depth n f (c x) ≡ some (c (f x))
at_depth-hole n c f x h = ap (λ g. g (c x)) (at_depth-at_path n f) ∙ h (λ y. some (f y)) x
