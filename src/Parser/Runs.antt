-- ===== src/Parser/Runs.antt =====
-- Runs of callbacks (xmlparser.cc), one after another.
use mathlib.Core.List.{append_assoc, append-nil}
use txmpp.Common.{
  subst, Bool, true, false, ◌≡◌, refl, ap, sym, ◌∙◌, List, [], ◌∷◌, ◌++◌, Option, none, some, ◌>>=◌,
  Bool-cases, inl, inr, arith, if◌then◌else◌,
}
use txmpp.Engine.Input.{ParseEvent, xml_error}
use txmpp.Parser.{
  Token, XmlError, no_error, is_raised, StanzaParser, Report, callback, callbacks, parse_chunk,
  settle, finish_chunk, raise_error, expat_start_element, expat_end_element, expat_xml_decl,
  incoming_character_data, incoming_start_element, incoming_end_element,
}
use txmpp.Parser.Builder.{start_element, end_element, character_data, create_element}

-- One run after another.
abbrev pub after_events : List ParseEvent → Option Report → Option Report
after_events v m = m >>= (λ r. some (r.0, v ++ r.1))

abbrev pub then_run : Option Report → (StanzaParser → Option Report) → Option Report
then_run m k = m >>= (λ r. after_events r.1 (k r.0))

then_run-report :
    (v : List ParseEvent) (m : Option Report) (k : StanzaParser → Option Report)
    → after_events v (then_run m k) ≡ then_run (after_events v m) k
then_run-report v none k = refl
then_run-report v (some (p, w)) k = last (k p)
  where
    last : (o : Option Report) → after_events v (after_events w o) ≡ after_events (v ++ w) o
    last none = refl
    last (some (p', u)) = ap (λ l. some (p', l)) (sym (append_assoc v w u))

no_report : (m : Option Report) → m ≡ after_events [] m
no_report none = refl
no_report (some r) = refl

pub callbacks-append :
    (a b : List Token) (p : StanzaParser)
    → callbacks (a ++ b) p ≡ then_run (callbacks a p) (callbacks b)
unfolding callbacks
callbacks-append [] b p = no_report (callbacks b p)
callbacks-append (t ∷ a) b p = first (callback t p) (callbacks-append a b)
  where
    first :
        (m : Option Report)
        → ((q : StanzaParser) → callbacks (a ++ b) q ≡ then_run (callbacks a q) (callbacks b))
        → then_run m (callbacks (a ++ b)) ≡ then_run (then_run m (callbacks a)) (callbacks b)
    first none rest = refl
    first (some (q, v)) rest =
        ap (after_events v) (rest q) ∙ then_run-report v (callbacks a q) (callbacks b)

-- A report that leaves the flag of the sent error as it was.
abbrev KeepsSent : Bool → Option Report → Type 0
KeepsSent b none = Unit
KeepsSent b (some r) = r.0.sent_error ≡ b

KeepsSent-callback : (t : Token) (p : StanzaParser) → KeepsSent p.sent_error (callback t p)
unfolding callback expat_start_element expat_end_element expat_xml_decl incoming_character_data
    incoming_start_element incoming_end_element raise_error start_element end_element character_data
    create_element
KeepsSent-callback t p = ground arith

KeepsSent-then_run :
    (b : Bool) (m : Option Report) (k : StanzaParser → Option Report)
    → KeepsSent b m
    → ((p : StanzaParser) → p.sent_error ≡ b → KeepsSent b (k p))
    → KeepsSent b (then_run m k)
KeepsSent-then_run b none k h kept = tt
KeepsSent-then_run b (some (p, v)) k h kept = last (k p) (kept p h)
  where
    last : (o : Option Report) → KeepsSent b o → KeepsSent b (after_events v o)
    last none h = tt
    last (some r) h = h

KeepsSent-callbacks :
    (ts : List Token) (b : Bool) (p : StanzaParser)
    → p.sent_error ≡ b
    → KeepsSent b (callbacks ts p)
unfolding callbacks
KeepsSent-callbacks [] b p h = h
KeepsSent-callbacks (t ∷ ts) b p h =
    KeepsSent-then_run b (callback t p) (callbacks ts)
      (subst (λ c. KeepsSent c (callback t p)) h (KeepsSent-callback t p))
      (KeepsSent-callbacks ts b)

-- After an error the callbacks do nothing.
pub callbacks_raised :
    (ts : List Token) (p : StanzaParser)
    → is_raised p.context.raised ≡ true
    → callbacks ts p ≡ some (p, [])
unfolding callbacks callback
callbacks_raised [] p h = refl
callbacks_raised (t ∷ ts) p h = rw h (ap (after_events []) (callbacks_raised ts p h))

-- The end of a call, with calls made before.
settle-after :
    (p : StanzaParser) (v w : List ParseEvent) (b : Bool)
    → settle p (v ++ w) b ≡ after_events v (settle p w b)
settle-after p v w true =
    ap (λ l. some (record p { sent_error = true }, l)) (append_assoc v w (xml_error ∷ []))
settle-after p v w false = refl

finish_after :
    (failure : XmlError) (v : List ParseEvent) (m : Option Report)
    → (after_events v m >>= finish_chunk failure) ≡ after_events v (m >>= finish_chunk failure)
finish_after failure v none = refl
finish_after failure v (some (p, w)) =
    let q = if is_raised failure then raise_error failure p else p in
    settle-after q v w (is_raised q.context.raised)

finish_raised :
    (failure : XmlError) (p : StanzaParser) (v : List ParseEvent)
    → is_raised p.context.raised ≡ true
    → finish_chunk failure (p, v) ≡ some (record p { sent_error = true }, v ++ xml_error ∷ [])
unfolding raise_error
finish_raised failure p v h = elim (Bool-cases (is_raised failure)) [
  | inl failed ↦ rw failed (rw (h, h) refl)
  | inr fine ↦ rw fine (rw h refl)
]

pub parse_sent :
    (b : List Token) (failure : XmlError) (p : StanzaParser)
    → p.sent_error ≡ true
    → parse_chunk b failure p ≡ some (p, [])
unfolding parse_chunk
parse_sent b failure p h =
    ap (λ s. if s then some (p, []) else callbacks b p >>= finish_chunk failure) h

pub parse_fresh :
    (b : List Token) (failure : XmlError) (p : StanzaParser)
    → p.sent_error ≡ false
    → parse_chunk b failure p ≡ (callbacks b p >>= finish_chunk failure)
unfolding parse_chunk
parse_fresh b failure p h =
    ap (λ s. if s then some (p, []) else callbacks b p >>= finish_chunk failure) h

second_part :
    (b : List Token) (failure : XmlError) (m : Option Report)
    → KeepsSent false m
    → (then_run m (callbacks b) >>= finish_chunk failure)
      ≡ then_run (m >>= finish_chunk no_error) (parse_chunk b failure)
second_part b failure none kept = refl
second_part b failure (some (q, v)) kept = elim (Bool-cases (is_raised q.context.raised)) [
  | inl raised ↦
      ap (λ m. after_events v m >>= finish_chunk failure) (callbacks_raised b q raised)
      ∙ finish_raised failure q (v ++ []) raised
      ∙ ap (λ l. some (record q { sent_error = true }, l)) (once v)
      ∙ ap (after_events (v ++ xml_error ∷ []))
          (sym (parse_sent b failure (record q { sent_error = true }) refl))
      ∙ ap (λ m. then_run m (parse_chunk b failure)) (sym (finish_raised no_error q v raised))
  | inr calm ↦
      finish_after failure v (callbacks b q)
      ∙ ap (after_events v) (sym (parse_fresh b failure q kept))
      ∙ ap (λ m. then_run m (parse_chunk b failure)) (going_on q v calm)
]
  where
    once : (v : List ParseEvent) → (v ++ []) ++ xml_error ∷ [] ≡ (v ++ xml_error ∷ []) ++ []
    once v = simp append-nil

    going_on :
        (q : StanzaParser) (v : List ParseEvent)
        → is_raised q.context.raised ≡ false
        → some (q, v) ≡ finish_chunk no_error (q, v)
    going_on q v h = ap (settle q v) (sym h)

-- It does not matter how the input is cut up. The callbacks a, and then the callbacks b with the
-- error that they end in, handed to the parser in one call or in two, leave it in the same state
-- and make the same calls in the same order; that holds in any state, after an error as well, and
-- where an error is raised in the first part.
pub parse_chunk-append :
    (a b : List Token) (failure : XmlError) (p : StanzaParser)
    → parse_chunk (a ++ b) failure p ≡ then_run (parse_chunk a no_error p) (parse_chunk b failure)
parse_chunk-append a b failure p = elim (Bool-cases p.sent_error) [
  | inl sent ↦
      parse_sent (a ++ b) failure p sent
      ∙ ap (after_events []) (sym (parse_sent b failure p sent))
      ∙ ap (λ m. then_run m (parse_chunk b failure)) (sym (parse_sent a no_error p sent))
  | inr fresh ↦
      parse_fresh (a ++ b) failure p fresh
      ∙ ap (λ m. m >>= finish_chunk failure) (callbacks-append a b p)
      ∙ second_part b failure (callbacks a p) (KeepsSent-callbacks a false p fresh)
      ∙ ap (λ m. then_run m (parse_chunk b failure)) (sym (parse_fresh a no_error p fresh))
]
