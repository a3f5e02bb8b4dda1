-- ===== src/Xml/NsStack/Names.antt =====
-- Writing a qualified name with a prefix and resolving it again, and the scopes of declarations.
use txmpp.Common.{
  Bool, true, false, not, ◌&&◌, ◌||◌, ◌≡◌, refl, sym, ap, ◌∙◌, arith, List, [], ◌∷◌, ◌++◌, Option,
  none, some, Bytes, codes, beq, beq_iff, is_empty, if◌then◌else◌, AllTrue, nil, cons, inl, inr,
  ◌⊎◌, Bool-cases, differs,
}
use txmpp.Xml.NsStack.{
  XmlnsStack, ns_for_prefix, is_ns, prefix_matches_ns, find_prefix, prefix_for_ns, format_qname,
  split_first_colon, name_in, resolve_qname,
}
use txmpp.Xml.NsStack.Suggest.{is_xml_like}
use txmpp.Xml.QName.{QName, qn, ns_xml, ns_xmlns}

abbrev pub NoColon : Bytes → Type 0
NoColon s = AllTrue (differs b':') s

-- No declared prefix holds a colon.
abbrev pub PrefixesOk : List (Bytes × Bytes) → Type 0
PrefixesOk [] = Unit {0}
PrefixesOk ((p, ns) ∷ l) = NoColon p × PrefixesOk l

split_first_none : {s : Bytes} → NoColon s → split_first_colon s ≡ none
unfolding split_first_colon
split_first_none nil = refl
split_first_none (cons h t) = ground (arith, split_first_none t)

split_first-append :
    {p : Bytes} (s : Bytes) → NoColon p → split_first_colon (p ++ (b':' ∷ s)) ≡ some (p, s)
unfolding split_first_colon
split_first-append s nil = refl
split_first-append s (cons h t) = ground (arith, split_first-append s t)

-- What a found prefix is good for: it is empty only where the empty one stands for the
-- namespace, and otherwise NsForPrefix answers it with the namespace.
record IsPrefixFor (ns : Bytes) (is_attr : Bool) (st : XmlnsStack) (p : Bytes) : Type 0 where
  no_colon : NoColon p
  plain_attr : is_empty p ≡ true → is_attr ≡ true → ns ≡ []
  answers : (is_attr ≡ false) ⊎ (is_empty p ≡ false) → ns_for_prefix p st ≡ some ns

is_empty_nil : (s : Bytes) → is_empty s ≡ true → s ≡ []
unfolding is_empty
is_empty_nil [] h = refl
is_empty_nil (x ∷ s) h = cc

is_ns_inv : (ns : Bytes) (o : Option Bytes) → is_ns ns o ≡ true → o ≡ some ns
is_ns_inv ns none h = cc
is_ns_inv ns (some m) h = ap some ((beq_iff m ns).0 h)

find_prefix-IsPrefixFor :
    (ns : Bytes) (a : Bool) (st : XmlnsStack) (l : List (Bytes × Bytes))
    → PrefixesOk l
    → (find_prefix ns a st l).1 ≡ true
    → IsPrefixFor ns a st (find_prefix ns a st l).0
unfolding find_prefix prefix_matches_ns
find_prefix-IsPrefixFor ns a st [] ok h = cc
find_prefix-IsPrefixFor ns a st ((p, n) ∷ l) ok h =
    elim (Bool-cases (beq n ns && (not a || not (is_empty p)) && is_ns ns (ns_for_prefix p st))) [
      | inl e ↦ rw e (record {
        no_colon = ok.0;
        plain_attr = λ x y. ground arith;
        answers = λ x. is_ns_inv ns (ns_for_prefix p st) (ground arith);
      })
      | inr e ↦ rw e (find_prefix-IsPrefixFor ns a st l ok.1 (rw e at h))
    ]

reserved-IsPrefixFor :
    (ns : Bytes) (a : Bool) (st : XmlnsStack)
    → ((beq ns ns_xml ≡ true) → IsPrefixFor ns a st (codes "xml"))
      × ((beq ns ns_xmlns ≡ true) → IsPrefixFor ns a st (codes "xmlns"))
unfolding ns_for_prefix is_xml_like beq is_empty
reserved-IsPrefixFor ns a st = (
  λ e. record {
    no_colon = cons refl (cons refl (cons refl nil));
    plain_attr = λ x y. cc;
    answers = λ x. ap some (sym ((beq_iff ns ns_xml).0 e));
  },
  λ e. record {
    no_colon = cons refl (cons refl (cons refl (cons refl (cons refl nil))));
    plain_attr = λ x y. cc;
    answers = λ x. ap some (sym ((beq_iff ns ns_xmlns).0 e));
  },
)

plain-IsPrefixFor :
    (ns : Bytes) (a : Bool) (st : XmlnsStack)
    → (if a then is_empty ns else prefix_matches_ns [] ns st) ≡ true
    → IsPrefixFor ns a st []
unfolding prefix_matches_ns is_empty
plain-IsPrefixFor ns true st h = record {
  no_colon = nil;
  plain_attr = λ x y. is_empty_nil ns h;
  answers = λ x. ground arith;
}
plain-IsPrefixFor ns false st h = record {
  no_colon = nil;
  plain_attr = λ x y. cc;
  answers = λ x. is_ns_inv ns (ns_for_prefix [] st) h;
}

prefix_for_ns-IsPrefixFor :
    (ns : Bytes) (a : Bool) (st : XmlnsStack)
    → PrefixesOk st.xmlns
    → (prefix_for_ns ns a st).1 ≡ true
    → IsPrefixFor ns a st (prefix_for_ns ns a st).0
unfolding prefix_for_ns
prefix_for_ns-IsPrefixFor ns a st ok h =
    let plain = if a then is_empty ns else prefix_matches_ns [] ns st in
    elim (Bool-cases (beq ns ns_xml)) [
      | inl e ↦ rw e ((reserved-IsPrefixFor ns a st).0 e)
      | inr e ↦ rw e (elim (Bool-cases (beq ns ns_xmlns)) [
        | inl e' ↦ rw e' ((reserved-IsPrefixFor ns a st).1 e')
        | inr e' ↦ rw e' (elim (Bool-cases plain) [
          | inl e'' ↦ rw e'' (plain-IsPrefixFor ns a st e'')
          | inr e'' ↦ rw e'' (find_prefix-IsPrefixFor ns a st st.xmlns ok (rw (e, e', e'') at h))
        ])
      ])
    ]

-- A name whose local part holds no colon, written with a prefix that PrefixForNs found where no
-- declared prefix holds a colon, resolves to itself.
pub resolve-format :
    (q : QName) (a : Bool) (st : XmlnsStack)
    → NoColon q.local_part
    → PrefixesOk st.xmlns
    → (prefix_for_ns q.namespace a st).1 ≡ true
    → resolve_qname (format_qname q a st) a st ≡ q
unfolding format_qname resolve_qname
resolve-format q a st local ok found =
    let p = (prefix_for_ns q.namespace a st).0 in
    let good = prefix_for_ns-IsPrefixFor q.namespace a st ok found in
    elim (Bool-cases (is_empty p)) [
      | inl e ↦ rw (e, split_first_none local) (bare a p e good)
      | inr e ↦
          rw (e, split_first-append q.local_part good.no_colon)
            (ap (name_in q.local_part) (good.answers (inr e)))
    ]
  where
    bare :
        (b : Bool) (s : Bytes)
        → is_empty s ≡ true
        → IsPrefixFor q.namespace b st s
        → (if b then qn [] q.local_part else name_in q.local_part (ns_for_prefix [] st)) ≡ q
    bare true s e good = ap (λ n. qn n q.local_part) (sym (good.plain_attr e refl))
    bare false s e good =
        ap (name_in q.local_part)
          (ap (λ n. ns_for_prefix n st) (sym (is_empty_nil s e)) ∙ good.answers (inl refl))
