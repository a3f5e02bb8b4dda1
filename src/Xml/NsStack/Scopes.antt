-- ===== src/Xml/NsStack/Scopes.antt =====
-- What AddNewPrefix adds, and what a frame takes away again.
use txmpp.Common.{
  ◌-◌, Bool, true, false, ◌≡◌, refl, sym, ap, ◌∙◌, arith, List, [], ◌∷◌, ◌++◌, none, some, Bytes,
  beq, beq_iff, beq_refl, length, drop, length-append, drop-append, if◌then◌else◌, ltb, inl, inr,
  ◌⊎◌, Bool-cases,
}
use txmpp.Xml.NsStack.{
  XmlnsStack, lookup_prefix, ns_for_prefix, prefix_matches_ns, find_prefix, prefix_for_ns,
  format_qname, resolve_qname, push_frame, pop_frame, add_xmlns, add_new_prefix,
}
use txmpp.Xml.NsStack.Names.{NoColon, PrefixesOk, resolve-format}
use txmpp.Xml.NsStack.Search.{IsCandidate, candidate-lookup, free_prefix_total}
use txmpp.Xml.NsStack.Suggest.{suggest_prefix, suggest_prefix-IsBase}
use txmpp.Xml.QName.{QName}

module _ (r ns : Bytes) (st : XmlnsStack) (cand : IsCandidate r) where
  added_answers : ns_for_prefix r (add_xmlns r ns st) ≡ some ns
  unfolding add_xmlns
  added_answers =
      candidate-lookup r (add_xmlns r ns st) cand ∙ unfold lookup_prefix in rw (beq_refl r) refl

  added_found : (a : Bool) → (prefix_for_ns ns a (add_xmlns r ns st)).1 ≡ true
  unfolding prefix_for_ns find_prefix prefix_matches_ns add_xmlns
  added_found a = ground (arith, added_answers, cand.nonempty, beq_refl ns)

  -- A prefix that had no namespace hides no declaration.
  added_keeps :
      (s : Bytes)
      → ns_for_prefix r st ≡ none
      → (ns_for_prefix s (add_xmlns r ns st) ≡ ns_for_prefix s st) ⊎ (ns_for_prefix s st ≡ none)
  added_keeps s free = elim (Bool-cases (beq r s)) [
    | inl e ↦ inr (ap (λ x. ns_for_prefix x st) (sym ((beq_iff r s).0 e)) ∙ free)
    | inr e ↦ inl (unfold ns_for_prefix add_xmlns lookup_prefix in rw e refl)
  ]

-- For a name whose local part holds no colon, and declared prefixes that hold none, AddNewPrefix
-- ends, declares no prefix with a colon, and makes a name of that namespace printable: written with the prefix
-- that PrefixForNs then finds, and resolved as the parser does, the name is the one it was. No
-- other prefix loses its namespace.
pub add_new_prefix_lem :
    (q : QName) (a : Bool) (st : XmlnsStack) (s : Bytes)
    → NoColon q.local_part
    → PrefixesOk st.xmlns
    → (p : Bytes) × (new : Bool) × (st' : XmlnsStack) × (add_new_prefix q.namespace a st
        ≡ some (p, new, st'))
      × (resolve_qname (format_qname q a st') a st' ≡ q)
      × PrefixesOk st'.xmlns
      × ((ns_for_prefix s st' ≡ ns_for_prefix s st) ⊎ (ns_for_prefix s st ≡ none))
unfolding add_new_prefix
add_new_prefix_lem q a st s local ok =
    let ns = q.namespace in
    let (r, found, free, cand) =
      free_prefix_total (suggest_prefix ns) st (suggest_prefix-IsBase ns) in
    elim (Bool-cases (prefix_for_ns ns a st).1) [
      | inl e ↦ ([], false, st, rw e refl, resolve-format q a st local ok e, ok, inl refl)
      | inr e ↦ (
        r,
        true,
        add_xmlns r ns st,
        rw (e, found) refl,
        resolve-format q a (add_xmlns r ns st) local (unfold add_xmlns in (cand.no_colon, ok))
            (added_found r ns st cand a),
        unfold add_xmlns in (cand.no_colon, ok),
        added_keeps r ns st cand s free,
      )
    ]

drop_back :
    (a x : List (Bytes × Bytes))
    → (if ltb (length x) (length (a ++ x))
        then drop (length (a ++ x) - length x) (a ++ x)
        else a ++ x)
      ≡ x
drop_back [] x = ground arith
drop_back (b ∷ a) x =
    let n = length-append (b ∷ a) x in
    let k : length ((b ∷ a) ++ x) - length x ≡ length (b ∷ a) = omega (arith, n) in
    let e : drop (length ((b ∷ a) ++ x) - length x) ((b ∷ a) ++ x) ≡ x =
      rw k (drop-append (b ∷ a) x) in
    elim (Bool-cases (ltb (length x) (length ((b ∷ a) ++ x)))) [
      | inl lt ↦ rw lt e
      | inr ge ↦ absurd (ground (arith, n))
    ]

-- A run of calls of AddXmlns, the last one first.
abbrev pub declare_all : List (Bytes × Bytes) → XmlnsStack → XmlnsStack
declare_all [] st = st
declare_all ((p, ns) ∷ l) st = add_xmlns p ns (declare_all l st)

declare_all-parts :
    (l : List (Bytes × Bytes)) (st : XmlnsStack)
    → declare_all l st ≡ record st { xmlns = l ++ st.xmlns }
unfolding add_xmlns
declare_all-parts [] st = refl
declare_all-parts ((p, ns) ∷ l) st = ap (add_xmlns p ns) (declare_all-parts l st)

-- PopFrame takes away whatever was declared since the matching PushFrame, and nothing else.
pub pop_frame-push_frame :
    (st : XmlnsStack) (l : List (Bytes × Bytes))
    → pop_frame (declare_all l (push_frame st)) ≡ some st
unfolding pop_frame push_frame
pop_frame-push_frame st l =
    ap pop_frame (declare_all-parts l (push_frame st))
    ∙ ap (λ k. some (record st { xmlns = k })) (drop_back l st.xmlns)

pub declare_all-append :
    (k l : List (Bytes × Bytes)) (st : XmlnsStack)
    → declare_all (k ++ l) st ≡ declare_all k (declare_all l st)
declare_all-append [] l st = refl
declare_all-append ((p, ns) ∷ k) l st = ap (add_xmlns p ns) (declare_all-append k l st)

pub add_new_prefix_total :
    (ns : Bytes) (a : Bool) (st : XmlnsStack)
    → (p : Bytes) × (new : Bool) × (st' : XmlnsStack) × (add_new_prefix ns a st
        ≡ some (p, new, st'))
      × (l : List (Bytes × Bytes)) × (st' ≡ declare_all l st)
unfolding add_new_prefix
add_new_prefix_total ns a st =
    let (r, found, free, cand) =
      free_prefix_total (suggest_prefix ns) st (suggest_prefix-IsBase ns) in
    elim (Bool-cases (prefix_for_ns ns a st).1) [
      | inl e ↦ ([], false, st, rw e refl, [], refl)
      | inr e ↦ (r, true, add_xmlns r ns st, rw (e, found) refl, (r, ns) ∷ [], refl)
    ]
