-- ===== src/Parser/Refine.antt =====
-- The stanza parser against the meaning of documents (xmlparser.cc, xmlbuilder.cc,
-- xmppstanzaparser.cc).
use txmpp.Common.{true, ◌≡◌, refl, ap, ◌∙◌, List, [], ◌∷◌, ◌++◌, none, some, Bytes, map, ◌>>=◌}
use txmpp.Engine.Input.{start_stream, stanza, end_stream}
use txmpp.Parser.{
  Token, start_tag, end_tag, no_error, StanzaParser, new_parser, start_namespaces, callback,
  callbacks, parse_chunk, finish_chunk, expat_start_element, expat_end_element,
  incoming_start_element, incoming_end_element, incoming_character_data,
}
use txmpp.Parser.Runs.{after_events, then_run, callbacks-append}
use txmpp.Parser.Builder.{new_builder, build_element, start_element, end_element, create_element}
use txmpp.Parser.Document.{
  Denotes, denotes, Holds, nothing, between, then_stanza, is_well_named, tagged,
}
use txmpp.Parser.Items.{build_element-tagged}
use txmpp.Xml.Element.{XmlElement, end}
use txmpp.Xml.Element.Path.{whole_IsHole}
use txmpp.Xml.NsStack.{XmlnsStack, empty, push_frame, pop_frame}
use txmpp.Parser.Contents.{scope_ends, at, run_between, inside, contents_read, filled_with}

-- Between two stanzas.
abbrev pub waiting : XmlnsStack → StanzaParser
waiting st = at 1 st new_builder

start_stanza :
    (name : Bytes) (atts : List (Bytes × Bytes)) (st : XmlnsStack) (y : XmlElement)
    {inner : XmlnsStack}
    → start_namespaces atts (push_frame st) ≡ (true, inner)
    → build_element name atts inner ≡ some y
    → callback (start_tag name atts) (waiting st)
      ≡ some (inside 0 0 (none ∷ []) inner (λ w. w) whole_IsHole y, [])
unfolding callback expat_start_element incoming_start_element start_element
start_stanza name atts st y h k = rw (h, k) refl

end_stanza :
    (name : Bytes) (y : XmlElement) (st inner : XmlnsStack)
    → pop_frame inner ≡ some st
    → callback (end_tag name) (inside 0 0 (none ∷ []) inner (λ w. w) whole_IsHole y)
      ≡ some (waiting st, stanza y ∷ [])
unfolding callback expat_end_element incoming_end_element end_element create_element
end_stanza name y st inner h = rw h refl

stanza_read :
    {st : XmlnsStack} {us : List Token} {z : XmlElement}
    → Denotes st us z
    → callbacks us (waiting st) ≡ some (waiting st, stanza z ∷ [])
stanza_read (denotes {st} {scope} {name} {atts} {items} {ts} h k f) =
    let y = filled_with name atts scope [] in
    let z = filled_with name atts scope items in
    run_between (start_tag name atts) (end_tag name) ts (waiting st)
      (inside 0 0 (none ∷ []) scope (λ w. w) whole_IsHole y)
      (inside 0 0 (none ∷ []) scope (λ w. w) whole_IsHole z) (waiting st) (stanza z ∷ [])
      (start_stanza name atts st y h (build_element-tagged name atts scope k))
      (contents_read f name atts scope [] 0 0 (none ∷ []) (λ w. w) whole_IsHole)
      (end_stanza name z st scope (scope_ends atts st h))

stanzas_read :
    {st : XmlnsStack} {ts : List Token} {xs : List XmlElement}
    → Holds st ts xs
    → callbacks ts (waiting st) ≡ some (waiting st, map stanza xs)
unfolding callbacks callback incoming_character_data
stanzas_read nothing = refl
stanzas_read (between {s} {ts} h) = ap (after_events []) (stanzas_read h)
stanzas_read {st} (then_stanza {us} {ts} {x} e h) =
    callbacks-append us ts (waiting st)
    ∙ ap (λ o. then_run o (callbacks ts)) (stanza_read e)
    ∙ ap (after_events (stanza x ∷ [])) (stanzas_read h)

start_read :
    (name : Bytes) (atts : List (Bytes × Bytes)) (st : XmlnsStack) (root : XmlElement)
    → start_namespaces atts (push_frame empty) ≡ (true, st)
    → build_element name atts st ≡ some root
    → callback (start_tag name atts) new_parser ≡ some (waiting st, start_stream root ∷ [])
unfolding callback expat_start_element incoming_start_element
start_read name atts st root h k = rw (h, k) refl

end_read :
    (name : Bytes) (st : XmlnsStack)
    → pop_frame st ≡ some empty
    → callback (end_tag name) (waiting st) ≡ some (new_parser, end_stream ∷ [])
unfolding callback expat_end_element incoming_end_element
end_read name st h = rw h refl

-- The stanza parser reads what the document means: an element has the name and the attributes of its
-- tag in the scope of namespaces that the tag makes, and as children what stands in it, in order,
-- with text that is not empty in one node as far as it goes. Let the start tag of the stream
-- declare its namespaces and be well named (each name can be resolved, and no name in a namespace
-- comes twice), and let what follows hold the stanzas xs; then a fresh parser that is given the
-- tags reports the start of the stream with the element of its tag and the stanzas xs, in their
-- order, and nothing else, and waits for the next stanza with nothing left half built. If the end
-- tag of the stream follows, it reports the end of the stream as well.
pub parse_chunk-Holds :
    (name : Bytes) (atts : List (Bytes × Bytes)) (st : XmlnsStack) (ts : List Token)
    (xs : List XmlElement)
    → start_namespaces atts (push_frame empty) ≡ (true, st)
    → is_well_named name atts st ≡ true
    → Holds st ts xs
    → let root = tagged name atts st end in
      (parse_chunk (start_tag name atts ∷ ts) no_error new_parser
        ≡ some (waiting st, start_stream root ∷ map stanza xs))
      × (parse_chunk (start_tag name atts ∷ (ts ++ end_tag name ∷ [])) no_error new_parser
          ≡ some (new_parser, start_stream root ∷ (map stanza xs ++ end_stream ∷ [])))
unfolding parse_chunk callbacks
parse_chunk-Holds name atts st ts xs h k held =
    let root = tagged name atts st end in
    let started = λ (us : List Token).
      ap (λ o. then_run o (callbacks us) >>= finish_chunk no_error)
        (start_read name atts st root h (build_element-tagged name atts st k)) in
    (
      started ts
          ∙ ap (λ o. after_events (start_stream root ∷ []) o >>= finish_chunk no_error)
              (stanzas_read held),
      started (ts ++ end_tag name ∷ [])
          ∙ ap (λ o. after_events (start_stream root ∷ []) o >>= finish_chunk no_error)
              (callbacks-append ts (end_tag name ∷ []) (waiting st)
                ∙ ap (λ o. then_run o (callbacks (end_tag name ∷ []))) (stanzas_read held)
                ∙ ap (λ o. after_events (map stanza xs) (then_run o (callbacks [])))
                    (end_read name st (scope_ends atts empty h))),
    )
