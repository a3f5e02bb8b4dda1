-- ===== src/Parser/Contents.antt =====
-- What the stanza parser builds of the inside of a stanza (xmlbuilder.cc, xmppstanzaparser.cc).
use mathlib.Core.List.{append-nil, append_assoc}
use txmpp.Common.{
  ℕ, suc, true, false, ◌≡◌, refl, ap, sym, ◌∙◌, List, [], ◌∷◌, ◌++◌, Option, some, Bytes, codes,
  beq, ◌>>=◌, Bool-cases, inl, inr, starts_with, is_empty,
}
use txmpp.Engine.Input.{ParseEvent}
use txmpp.Parser.{
  Token, start_tag, end_tag, char_data, no_error, StanzaParser, start_namespaces, callback,
  callbacks, expat_start_element, expat_end_element, incoming_start_element, incoming_end_element,
  incoming_character_data,
}
use txmpp.Parser.Runs.{after_events, then_run, callbacks-append}
use txmpp.Parser.Builder.{
  XmlBuilder, change, build_element, start_element, end_element, character_data, add_parsed_text,
}
use txmpp.Parser.Document.{
  Denotes, denotes, Fills, filled, with_text, with_child, Item, words, nested, tagged, content,
  attributes_of,
}
use txmpp.Parser.Items.{build_element-tagged, add_parsed_text-content, add_element-content}
use txmpp.Xml.Element.{XmlElement, add_element}
use txmpp.Xml.Element.Path.{IsHole, at_depth-hole, child_IsHole}
use txmpp.Xml.NsStack.{XmlnsStack, push_frame, pop_frame, add_xmlns, resolve_qname}
use txmpp.Xml.NsStack.Scopes.{declare_all, declare_all-append, pop_frame-push_frame}

-- What was declared in an element goes with its end.
pub start_namespaces-declare_all :
    (atts : List (Bytes × Bytes)) (st : XmlnsStack) {inner : XmlnsStack}
    → start_namespaces atts st ≡ (true, inner)
    → (l : List (Bytes × Bytes)) × (inner ≡ declare_all l st)
unfolding start_namespaces
start_namespaces-declare_all [] st h = ([], sym (ap (λ r. r.1) h))
start_namespaces-declare_all ((name, value) ∷ atts) st {inner} h =
    elim (Bool-cases (beq name (codes "xmlns"))) [
      | inl default ↦ after _ _ (start_namespaces-declare_all atts _ (rw default at h))
      | inr other ↦ elim (Bool-cases (starts_with (codes "xmlns:") name)) [
        | inl prefixed ↦ elim (Bool-cases (is_empty value)) [
          | inl none_given ↦
              absurd
                (let h' : (false, st) ≡ (true, inner) = rw (other, prefixed, none_given) at h in cc)
          | inr given ↦
              after _ _ (start_namespaces-declare_all atts _ (rw (other, prefixed, given) at h))
        ]
        | inr plain ↦ start_namespaces-declare_all atts st (rw (other, plain) at h)
      ]
    ]
  where
    after :
        (p ns : Bytes)
        → (l : List (Bytes × Bytes)) × (inner ≡ declare_all l (add_xmlns p ns st))
        → (l : List (Bytes × Bytes)) × (inner ≡ declare_all l st)
    after p ns (l, e) = (l ++ (p, ns) ∷ [], e ∙ sym (declare_all-append l ((p, ns) ∷ []) st))

pub scope_ends :
    (atts : List (Bytes × Bytes)) (st : XmlnsStack) {inner : XmlnsStack}
    → start_namespaces atts (push_frame st) ≡ (true, inner)
    → pop_frame inner ≡ some st
scope_ends atts st h =
    let (l, e) = start_namespaces-declare_all atts (push_frame st) h in
    ap pop_frame e ∙ pop_frame-push_frame st l

-- A parser without error, and a builder whose current element stands n steps down.
abbrev pub at : ℕ → XmlnsStack → XmlBuilder → StanzaParser
at d st b = record {
  context = record { xmlnsstack = st; raised = no_error };
  sent_error = false;
  depth = d;
  builder = b;
}

abbrev pub building : ℕ → List (Option ℕ) → XmlElement → XmlBuilder
building n ns r = record { current = some n; root = some r; parents = ns }

pub change_hole :
    (f : XmlElement → XmlElement) (n : ℕ) (ns : List (Option ℕ)) (c : XmlElement → XmlElement)
    (x : XmlElement)
    → IsHole n c
    → change f n (building n ns (c x)) ≡ some (building n ns (c (f x)))
change_hole f n ns c x h = ap (λ m. m >>= (λ r'. some (building n ns r'))) (at_depth-hole n c f x h)

module _ (d n : ℕ) (ns : List (Option ℕ)) (st : XmlnsStack) (c : XmlElement → XmlElement)
    (hole : IsHole n c) where
  abbrev pub inside : XmlElement → StanzaParser
  inside x = at (suc (suc d)) st (building n ns (c x))

  pub text_inside :
      (s : Bytes) (x : XmlElement)
      → callback (char_data s) (inside x) ≡ some (inside (add_parsed_text s x), [])
  unfolding callback incoming_character_data character_data
  text_inside s x =
      ap (λ m. m >>= (λ b. some (at (suc (suc d)) st b, [])))
        (change_hole (add_parsed_text s) n ns c x hole)

  pub start_inside :
      (name : Bytes) (atts : List (Bytes × Bytes)) (x y : XmlElement) {inner : XmlnsStack}
      → start_namespaces atts (push_frame st) ≡ (true, inner)
      → build_element name atts inner ≡ some y
      → callback (start_tag name atts) (inside x)
        ≡ some (
          at (suc (suc (suc d))) inner (building (suc n) (some n ∷ ns) (c (add_element y x))),
          [],
        )
  unfolding callback expat_start_element incoming_start_element start_element
  start_inside name atts x y h k = rw (h, k) (rw (change_hole (add_element y) n ns c x hole) refl)

  pub end_inside :
      (name : Bytes) (r : XmlElement) (inner : XmlnsStack)
      → pop_frame inner ≡ some st
      → callback (end_tag name) (at (suc (suc (suc d))) inner (building (suc n) (some n ∷ ns) r))
        ≡ some (at (suc (suc d)) st (building n ns r), [])
  unfolding callback expat_end_element incoming_end_element end_element
  end_inside name r inner h = rw h refl

-- A start tag, what stands between, and an end tag.
pub run_between :
    (t u : Token) (ts : List Token) (p p1 p2 p3 : StanzaParser) (v : List ParseEvent)
    → callback t p ≡ some (p1, [])
    → callbacks ts p1 ≡ some (p2, [])
    → callback u p2 ≡ some (p3, v)
    → callbacks (t ∷ (ts ++ u ∷ [])) p ≡ some (p3, v ++ [])
unfolding callbacks
run_between t u ts p p1 p2 p3 v h k m =
    ap (λ o. then_run o (callbacks (ts ++ u ∷ []))) h
    ∙ ap (after_events []) (callbacks-append ts (u ∷ []) p1)
    ∙ ap (λ o. after_events [] (then_run o (callbacks (u ∷ [])))) k
    ∙ ap (λ o. after_events [] (after_events [] (then_run o (callbacks [])))) m

-- An element that is filled so far with these items.
abbrev pub filled_with : Bytes → List (Bytes × Bytes) → XmlnsStack → List Item → XmlElement
filled_with name atts st items = tagged name atts st (content items)

-- Inside an element, a child and then a run of contents. The element has the tag of `name` and atts.
mutual
  unfolding callbacks

  pub child_read :
      {st : XmlnsStack} {us : List Token} {z : XmlElement}
      → Denotes st us z
      → (d n : ℕ) (ns : List (Option ℕ)) (c : XmlElement → XmlElement) (hole : IsHole n c)
        (x : XmlElement)
      → callbacks us (inside d n ns st c hole x)
        ≡ some (inside d n ns st c hole (add_element z x), [])
  child_read (denotes {st} {scope} {name} {atts} {items} {ts} h k f) d n ns c hole x =
      let c' = λ (w : XmlElement). c (add_element w x) in
      let hole' = child_IsHole n c x hole in
      let z = filled_with name atts scope items in
      run_between (start_tag name atts) (end_tag name) ts (inside d n ns st c hole x)
        (inside (suc d) (suc n) (some n ∷ ns) scope c' hole' (filled_with name atts scope []))
        (inside (suc d) (suc n) (some n ∷ ns) scope c' hole' z)
        (inside d n ns st c hole (add_element z x)) []
        (start_inside d n ns st c hole name atts x (filled_with name atts scope []) h
          (build_element-tagged name atts scope k))
        (contents_read f name atts scope [] (suc d) (suc n) (some n ∷ ns) c' hole')
        (end_inside d n ns st c hole name (c' z) scope (scope_ends atts st h))

  pub contents_read :
      {st : XmlnsStack} {ts : List Token} {items : List Item}
      → Fills st ts items
      → (name : Bytes) (atts : List (Bytes × Bytes)) (own : XmlnsStack) (prev : List Item) (d n : ℕ)
        (ns : List (Option ℕ)) (c : XmlElement → XmlElement) (hole : IsHole n c)
      → callbacks ts (inside d n ns st c hole (filled_with name atts own prev))
        ≡ some (inside d n ns st c hole (filled_with name atts own (prev ++ items)), [])
  contents_read {st} filled name atts own prev d n ns c hole =
      ap (λ l. some (inside d n ns st c hole (filled_with name atts own l), []))
        (sym (append-nil prev))
  contents_read (with_text {st} {items} {s} {ts} f) name atts own prev d n ns c hole =
      let q = resolve_qname name false own in
      let bs = attributes_of atts own in
      ap (λ o. then_run o (callbacks ts))
        (text_inside d n ns st c hole s (filled_with name atts own prev)
          ∙ ap (λ x. some (inside d n ns st c hole x, [])) (add_parsed_text-content s q bs prev))
      ∙ ap (after_events []) (contents_read f name atts own (prev ++ words s ∷ []) d n ns c hole)
      ∙ ap (λ l. some (inside d n ns st c hole (filled_with name atts own l), []))
          (append_assoc prev (words s ∷ []) items)
  contents_read (with_child {st} {items} {z} {us} {ts} e f) name atts own prev d n ns c hole =
      let q = resolve_qname name false own in
      let bs = attributes_of atts own in
      callbacks-append us ts (inside d n ns st c hole (filled_with name atts own prev))
      ∙ ap (λ o. then_run o (callbacks ts))
          (child_read e d n ns c hole (filled_with name atts own prev)
            ∙ ap (λ x. some (inside d n ns st c hole x, [])) (add_element-content z q bs prev))
      ∙ ap (after_events []) (contents_read f name atts own (prev ++ nested z ∷ []) d n ns c hole)
      ∙ ap (λ l. some (inside d n ns st c hole (filled_with name atts own l), []))
          (append_assoc prev (nested z ∷ []) items)
