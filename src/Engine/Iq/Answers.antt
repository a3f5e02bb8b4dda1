-- ===== src/Engine/Iq/Answers.antt =====
-- HandleIqResponse (xmppengineimpl_iq.cc): which request an answer goes to.
use txmpp.Common.{
  Bool, true, false, not, ◌&&◌, ◌≡◌, ◌⊎◌, inl, inr, refl, ap, List, [], ◌∷◌, ◌++◌, none, some,
  Bytes, beq, Bool-cases, AllTrue, nil, cons,
}
use txmpp.Engine.Internal.{call}
use txmpp.Engine.Iq.{take_entry, answered, is_response, handle_iq_response}
use txmpp.Engine.Names.{qn_id, qn_from}
use txmpp.Engine.Types.{Engine, IqEntry, iq_response}
use txmpp.Xml.Element.{XmlElement, attr}

abbrev pub answers : Bytes → Bytes → IqEntry → Bool
answers id from i = beq i.id id && beq i.to from

abbrev pub ignores : Bytes → Bytes → IqEntry → Bool
ignores id from i = not (answers id from i)

-- The first entry with the id and the address, and the entries round it.
abbrev pub FoundAt : Bytes → Bytes → List IqEntry → IqEntry → List IqEntry → Type 0
FoundAt id from entries i rest =
    (before : List IqEntry) × (after : List IqEntry) × (entries ≡ before ++ i ∷ after)
    × (rest ≡ before ++ after)
    × AllTrue (ignores id from) before
    × (answers id from i ≡ true)

take_entry_lem :
    (id from : Bytes) (entries : List IqEntry)
    → ((take_entry id from entries ≡ none) × AllTrue (ignores id from) entries)
      ⊎ ((i : IqEntry) × (rest : List IqEntry) × (take_entry id from entries ≡ some (i, rest))
          × FoundAt id from entries i rest)
unfolding take_entry
take_entry_lem id from [] = inl (refl, nil)
take_entry_lem id from (i ∷ entries) = elim (Bool-cases (answers id from i)) [
  | inl found ↦ inr (i, entries, rw found refl, ([], entries, refl, refl, nil, found))
  | inr other ↦ elim (take_entry_lem id from entries) [
    | inl (gone, rest) ↦ inl (rw (other, gone) refl, cons (ap not other) rest)
    | inr (j, rest, taken, (before, after, e, r, ignored, found)) ↦ inr (
      j,
      i ∷ rest,
      rw (other, taken) refl,
      (i ∷ before, after, ap (◌∷◌ i) e, ap (◌∷◌ i) r, cons (ap not other) ignored, found),
    )
  ]
]

-- A stanza that may be an answer (an iq of type result or error that has an id) is either no
-- answer to any registered request, and then nothing happens; or it answers the first request
-- with its id whose address is the stanza's sender: that request's handler is called, once, that
-- request is dropped, and all the others stay, in their order.
pub handle_iq_response_lem :
    (x : XmlElement) (e : Engine)
    → is_response x ≡ true
    → ((handle_iq_response x e ≡ (false, e))
        × AllTrue (ignores (attr qn_id x) (attr qn_from x)) e.iq_entries)
      ⊎ ((i : IqEntry) × (rest : List IqEntry) × (handle_iq_response x e
            ≡ (true, call (iq_response i.handler i.cookie x) (record e { iq_entries = rest })))
          × FoundAt (attr qn_id x) (attr qn_from x) e.iq_entries i rest)
unfolding handle_iq_response
handle_iq_response_lem x e response =
    elim (take_entry_lem (attr qn_id x) (attr qn_from x) e.iq_entries) [
      | inl (gone, ignored) ↦ inl (rw response (ap (answered x e) gone), ignored)
      | inr (i, rest, taken, found) ↦ inr (i, rest, rw response (ap (answered x e) taken), found)
    ]
