-- ===== src/Parser/Balance.antt =====
-- The stanza parser on whatever expat reports (xmlparser.cc, xmlbuilder.cc, xmppstanzaparser.cc):
-- the shape of its state between two callbacks.
use txmpp.Common.{
  ℕ, suc, Bool, true, false, ◌≡◌, refl, ap, sym, ◌∙◌, subst, inl, inr, List, [], ◌∷◌, ◌++◌, Option,
  some, Option-cases, Bool-cases, Bytes, length, ◌>>=◌, arith, not, if◌then◌else◌,
}
use txmpp.Engine.Input.{ParseEvent, start_stream, xml_error}
use txmpp.Parser.{
  Token, XmlError, no_error, is_raised, StanzaParser, Report, start_namespaces, callback, callbacks,
  raise_error, other_error, syntax, incorrect_encoding, is_version, is_encoding, parse_chunk,
  finish_chunk, settle, expat_start_element, expat_end_element, expat_xml_decl,
  incoming_start_element, incoming_end_element, incoming_character_data,
}
use txmpp.Parser.Builder.{
  XmlBuilder, new_builder, build_element, start_element, end_element, character_data,
  create_element, add_parsed_text,
}
use txmpp.Parser.Contents.{building, change_hole}
use txmpp.Parser.Runs.{after_events, then_run, parse_sent, parse_fresh}
use txmpp.Xml.Element.{add_element}
use txmpp.Xml.NsStack.{XmlnsStack, push_frame, pop_frame}
use txmpp.Parser.Shape.{
  Moves, Balanced, plug, plug_IsHole, chain, Shaped, IsSane, raise_error-IsSane,
  depths-start_namespaces, by_start, by_end, by_text, by_decl, done, moves, here, under, outside,
  between, within, raised, sane,
}

-- A parser without error, by its parts.
abbrev calm : ℕ → List (Bytes × Bytes) → List ℕ → XmlBuilder → StanzaParser
calm n l fs b = record {
  context = record { xmlnsstack = record { xmlns = l; depths = fs }; raised = no_error };
  sent_error = false;
  depth = n;
  builder = b;
}

-- A report that is no fault, with n elements open.
abbrev Goes : ℕ → Option Report → Type 0
Goes n m = (r : Report) × (m ≡ some r) × IsSane n r.0

IsSane-if :
    {n : ℕ} (c : Bool) (p q : StanzaParser)
    → IsSane n p
    → IsSane n q
    → IsSane n (if c then p else q)
IsSane-if true p q h k = h
IsSane-if false p q h k = k

module _ (l : List (Bytes × Bytes)) where
  declared_sane :
      {n : ℕ} {fs : List ℕ} {b : XmlBuilder} (name : Bytes) (atts : List (Bytes × Bytes))
      (l' : List (Bytes × Bytes)) (f : ℕ)
      → Shaped n fs b
      → Goes (suc n) (incoming_start_element name atts (calm n l' (f ∷ fs) b))
  unfolding incoming_start_element start_element
  declared_sane name atts l' f outside =
      let left = calm 1 l' (f ∷ []) new_builder in
      elim (Option-cases (build_element name atts (record { xmlns = l'; depths = f ∷ [] }))) [
        | inl bad ↦
            ((raise_error syntax left, []), rw bad refl, raise_error-IsSane 1 syntax left refl)
        | inr (x, good) ↦ ((left, start_stream x ∷ []), rw good refl, sane refl refl between)
      ]
  declared_sane name atts l' f (between {f = g}) =
      let left = calm 2 l' (f ∷ g ∷ []) in
      elim (Option-cases (build_element name atts (record { xmlns = l'; depths = f ∷ g ∷ [] }))) [
        | inl bad ↦ (
          (raise_error syntax (left new_builder), []),
          rw bad refl,
          raise_error-IsSane 2 syntax (left new_builder) refl,
        )
        | inr (x, good) ↦
            ((left (building 0 (chain 0) x), []), rw good refl, sane refl refl (within here x refl))
      ]
  declared_sane name atts l' f (within {n} {f = g} {g = h} {fs} k x e) =
      let left = calm (suc (suc (suc n))) l' (f ∷ g ∷ h ∷ fs) in
      let b = building n (chain n) (plug k x) in
      elim (Option-cases
        (build_element name atts (record { xmlns = l'; depths = f ∷ g ∷ h ∷ fs }))) [
          | inl bad ↦ (
            (raise_error syntax (left b), []),
            rw bad refl,
            raise_error-IsSane (suc (suc (suc n))) syntax (left b) refl,
          )
          | inr (y, good) ↦ (
            (left (building (suc n) (chain (suc n)) (plug k (add_element y x))), []),
            rw good (rw (change_hole (add_element y) n (chain n) (plug k) x (plug_IsHole k)) refl),
            sane refl refl (within (under k x) y (ap suc e)),
          )
        ]

  end_sane :
      {n : ℕ} {fs : List ℕ} {b : XmlBuilder}
      → Shaped (suc n) fs b
      → Goes n (expat_end_element (calm (suc n) l fs b))
  unfolding expat_end_element incoming_end_element end_element create_element pop_frame
  end_sane between = (_, refl, sane refl refl outside)
  end_sane (within {f} {g} {fs = []} here x e) = (_, refl, sane refl refl between)
  end_sane (within {f} {g} {fs = h ∷ fs} here x e) = absurd (omega arith)
  end_sane (within {f} {g} {fs = []} (under k y) x e) = absurd (omega arith)
  end_sane (within {f} {g} {fs = h ∷ fs} (under k y) x e) =
      (_, refl, sane refl refl (within k (add_element x y) (omega arith)))

  text_sane :
      {n : ℕ} {fs : List ℕ} {b : XmlBuilder} (s : Bytes)
      → Shaped n fs b
      → Goes n (incoming_character_data s (calm n l fs b))
  unfolding incoming_character_data character_data
  text_sane s outside = (_, refl, sane refl refl outside)
  text_sane s between = (_, refl, sane refl refl between)
  text_sane s (within {n} {f} {g} {fs} k x e) =
      let left = calm (suc (suc n)) l (f ∷ g ∷ fs) in
      (
        (left (building n (chain n) (plug k (add_parsed_text s x))), []),
        ap (λ m. m >>= (λ b. some (left b, [])))
            (change_hole (add_parsed_text s) n (chain n) (plug k) x (plug_IsHole k)),
        sane refl refl (within k (add_parsed_text s x) e),
      )

  decl-IsSane :
      {n : ℕ} {fs : List ℕ} {b : XmlBuilder} (ver enc : Option Bytes) (off : Bool)
      → Shaped n fs b
      → IsSane n (expat_xml_decl ver enc off (calm n l fs b))
  unfolding expat_xml_decl
  decl-IsSane {n} {fs} {b} ver enc off h =
      let p = calm n l fs b in
      let bad = raise_error-IsSane n syntax p refl in
      let last =
        IsSane-if (not (is_encoding enc)) _ p (raise_error-IsSane n incorrect_encoding p refl)
          (sane refl refl h) in
      IsSane-if (not (is_version ver)) (raise_error syntax p) _ bad
        (IsSane-if off (raise_error syntax p) _ bad last)

  start_sane :
      {n : ℕ} {fs : List ℕ} {b : XmlBuilder} (name : Bytes) (atts : List (Bytes × Bytes))
      → Shaped n fs b
      → Goes (suc n) (expat_start_element name atts (calm n l fs b))
  unfolding expat_start_element push_frame
  start_sane {n} {fs} {b} name atts h =
      let st : XmlnsStack = record { xmlns = l; depths = length l ∷ fs } in
      let st' = (start_namespaces atts st).1 in
      elim (Bool-cases (start_namespaces atts st).0) [
        | inl legal ↦ rw legal (
            subst (λ ds. Goes (suc n) (incoming_start_element name atts (calm n st'.xmlns ds b)))
              (sym (depths-start_namespaces atts st))
              (declared_sane name atts st'.xmlns (length l) h))
        | inr illegal ↦
            let bad = calm n st'.xmlns st'.depths b in
            rw illegal
              ((raise_error syntax bad, []), refl, raise_error-IsSane (suc n) syntax bad refl)
      ]

calm_code : (e : XmlError) → is_raised e ≡ false → e ≡ no_error
calm_code no_error h = refl
calm_code syntax h = absurd (ground arith)
calm_code incorrect_encoding h = absurd (ground arith)
calm_code (other_error n) h = absurd (ground arith)

calm-Goes :
    {n m : ℕ} {t : Token} (l : List (Bytes × Bytes)) {fs : List ℕ} {b : XmlBuilder}
    → Moves n t m
    → Shaped n fs b
    → Goes m (callback t (calm n l fs b))
unfolding callback
calm-Goes l (by_start name atts) h = start_sane l name atts h
calm-Goes l (by_end name) h = end_sane l h
calm-Goes l (by_text s) h = text_sane l s h
calm-Goes {n} l {fs} {b} (by_decl ver enc off) h =
    ((expat_xml_decl ver enc off (calm n l fs b), []), refl, decl-IsSane l ver enc off h)

callback-Goes :
    {n m : ℕ} {t : Token} (p : StanzaParser) → Moves n t m → IsSane n p → Goes m (callback t p)
callback-Goes {n} {m} {t} p move h = elim (Bool-cases (is_raised p.context.raised)) [
  | inl bad ↦ ((p, []), unfold callback in rw bad refl, raised bad)
  | inr fine ↦ still h fine
]
  where
    still : IsSane n p → is_raised p.context.raised ≡ false → Goes m (callback t p)
    still (raised bad) fine = absurd (let e : true ≡ false = sym bad ∙ fine in cc)
    still (sane fresh d shaped) fine =
        subst (λ k. Goes m (callback t (record p { depth = k }))) (sym d)
          (subst (λ k. Goes m (callback t (record p { depth = n; sent_error = k }))) (sym fresh)
            (subst
              (λ c. Goes m (
                callback t (record p {
                  depth = n;
                  sent_error = false;
                  context = record p.context { raised = c };
                })))
              (sym (calm_code p.context.raised fine))
              (calm-Goes p.context.xmlnsstack.xmlns move shaped)))

callbacks-Goes :
    {n m : ℕ} {ts : List Token}
    → Balanced n ts m
    → (p : StanzaParser) → IsSane n p
    → Goes m (callbacks ts p)
unfolding callbacks
callbacks-Goes done p h = ((p, []), refl, h)
callbacks-Goes (moves {ts} step rest) p h =
    let ((p1, v1), e1, h1) = callback-Goes p step h in
    let ((p2, v2), e2, h2) = callbacks-Goes rest p1 h1 in
    ((p2, v1 ++ v2), ap (λ o. then_run o (callbacks ts)) e1 ∙ ap (after_events v1) e2, h2)

IsSane-settle :
    {n : ℕ} (p : StanzaParser) (v : List ParseEvent)
    → IsSane n p
    → Goes n (settle p v (is_raised p.context.raised))
IsSane-settle p v h = elim (Bool-cases (is_raised p.context.raised)) [
  | inl bad ↦
      ((record p { sent_error = true }, v ++ xml_error ∷ []), ap (settle p v) bad, raised bad)
  | inr fine ↦ ((p, v), ap (settle p v) fine, h)
]

finish-Goes :
    {n : ℕ} (failure : XmlError) (r : Report) → IsSane n r.0 → Goes n (finish_chunk failure r)
finish-Goes {n} failure (p, v) h = elim (Bool-cases (is_raised failure)) [
  | inl failed ↦
      rw failed (IsSane-settle (raise_error failure p) v (raise_error-IsSane n failure p failed))
  | inr fine ↦ rw fine (IsSane-settle p v h)
]

-- Whatever expat reports, as long as it reports no end tag without a start tag: the parser reads
-- no null or dangling pointer, and stays in a state in which that holds of the next piece of input.
pub parse_chunk-IsSane :
    (n m : ℕ) (ts : List Token) (failure : XmlError) (p : StanzaParser)
    → Balanced n ts m
    → IsSane n p
    → (p' : StanzaParser) × (vs : List ParseEvent) × (parse_chunk ts failure p ≡ some (p', vs))
      × IsSane m p'
parse_chunk-IsSane n m ts failure p b h = elim (Bool-cases p.sent_error) [
  | inl sent ↦ (p, [], parse_sent ts failure p sent, still_raised sent h)
  | inr fresh ↦
      let (r, e, h1) = callbacks-Goes b p h in
      let ((p', v), e', h2) = finish-Goes failure r h1 in
      (p', v, parse_fresh ts failure p fresh ∙ ap (λ o. o >>= finish_chunk failure) e ∙ e', h2)
]
  where
    still_raised : p.sent_error ≡ true → IsSane n p → IsSane m p
    still_raised sent (raised bad) = raised bad
    still_raised sent (sane fresh d shaped) = absurd (let e : true ≡ false = sym sent ∙ fresh in cc)
