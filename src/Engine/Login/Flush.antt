-- ===== src/Engine/Login/Flush.antt =====
-- FlushQueuedStanzas (xmpplogintask.cc) as one write.
use mathlib.Core.List.{append_assoc, append-nil}
use txmpp.Common.{◌≡◌, ap, sym, ◌∙◌, List, [], ◌∷◌, ◌++◌, Bytes}
use txmpp.Engine.Internal.{printed, put, internal_send_stanza}
use txmpp.Engine.Login.{send_all}
use txmpp.Engine.Types.{Engine}
use txmpp.Xml.Element.{XmlElement}

abbrev pub printed_all : List XmlElement → Bytes
printed_all [] = []
printed_all (x ∷ xs) = printed x ++ printed_all xs

pub send_all_lem :
    (xs : List XmlElement) (e : Engine)
    → send_all xs e ≡ record e { output = e.output ++ printed_all xs }
unfolding send_all internal_send_stanza put
send_all_lem [] e = ap (λ o. record e { output = o }) (sym (append-nil e.output))
send_all_lem (x ∷ xs) e =
    send_all_lem xs (internal_send_stanza x e)
    ∙ ap (λ o. record e { output = o }) (append_assoc e.output (printed x) (printed_all xs))
