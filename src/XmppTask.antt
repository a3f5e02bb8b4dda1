-- ===== src/XmppTask.antt =====
-- XmppTask (xmpptask.cc): a task that sends stanzas through the client and queues those that it
-- takes. What it calls on the client is told by a list; the client is given by whether it is
-- there, and by the Jid that it has. Wake is that of Task.
pub mod Queue
pub mod Answers
pub mod MucLookup
pub mod Lookups
pub mod Handlers
pub mod Reports
use txmpp.Common.{
  ℕ, Bool, true, false, not, ◌&&◌, ◌||◌, List, [], ◌∷◌, ◌++◌, Option, none, some, Bytes, codes, beq,
  is_empty, if◌then◌else◌,
}
use txmpp.Engine.Login.{domain_name_of}
use txmpp.Engine.Names.{qn_iq, qn_to, qn_from, qn_type, qn_id}
use txmpp.Jid.{Jid, jid_empty, parse, str, jid_eq, bare_jid}
use txmpp.RateLimit.{Manager, verify_rate_limit}
use txmpp.Tasks.Steps.{Steps, Effect, stop, wake, signal_error}
use txmpp.Xml.Element.{XmlElement, name, attr, has_attr, new_element, add_attr, first_named}
use txmpp.Xml.QName.{QName, qname_eq}

pub record XmppTask : Type 0 where
  pub has_client : Bool
  pub stanza_queue : List XmlElement
  pub next : Option XmlElement
  pub id : Bytes
  pub steps : Steps

-- Calls on the client.
pub data ClientCall : Type 0 where
  add_xmpp_task : ℕ → ClientCall
  remove_xmpp_task : ClientCall
  connects_disconnected disconnects_disconnected : ClientCall

-- The constructor, with the id that the client gives and the level.
unfoldable pub new_xmpp_task : Bytes → ℕ → Steps → XmppTask × List ClientCall
new_xmpp_task next_id level steps = (
  record { has_client = true; stanza_queue = []; next = none; id = next_id; steps = steps },
  add_xmpp_task level ∷ connects_disconnected ∷ [],
)

unfoldable pub queue_stanza : XmlElement → XmppTask → XmppTask × List Effect
unfolding wake
queue_stanza stanza t =
    let (s, es) = wake t.steps in
    (record t { stanza_queue = t.stanza_queue ++ stanza ∷ []; steps = s }, es)

-- The result of NextStanza is next_stanza_.
abbrev pub taken : List XmlElement → XmppTask → XmppTask
taken [] t = record t { next = none }
taken (stanza ∷ queue) t = record t { next = some stanza; stanza_queue = queue }

unfoldable pub next_stanza : XmppTask → XmppTask
next_stanza t = taken t.stanza_queue t

-- The loop of StopImpl reads the queue to its end.
abbrev pub drained : List XmlElement → XmppTask → XmppTask
drained [] t = taken [] t
drained (stanza ∷ queue) t = drained queue (taken (stanza ∷ queue) t)

unfoldable pub stop_impl : XmppTask → XmppTask × List ClientCall
stop_impl t =
    let empty = drained t.stanza_queue t in
    if t.has_client
    then (record empty { has_client = false }, remove_xmpp_task ∷ disconnects_disconnected ∷ [])
    else (empty, [])

-- Stop, with the effect of Task::Stop.
unfoldable pub stop_task : XmppTask → XmppTask × List ClientCall × List Effect
unfolding stop_impl
stop_task t = let (stopped, calls) = stop_impl t in (stopped, calls, stop ∷ [])

-- OnDisconnect, which is Error of Task.
unfoldable pub on_disconnect : XmppTask → XmppTask × List Effect
unfolding signal_error
on_disconnect t = let (s, es) = signal_error t.steps in (record t { steps = s }, es)

-- SendStanza and SendStanzaError: what the client answers, or none for XMPP_RETURN_BADSTATE.
unfoldable pub send_to_client {ℓ} : {A : Type ℓ} → A → XmppTask → Option A
send_to_client answer t = if t.has_client then some answer else none

unfoldable pub make_iq : Bytes → Jid → Bytes → XmlElement
unfolding jid_eq
make_iq type to id =
    let result = new_element qn_iq in
    let typed = if not (is_empty type) then add_attr qn_type type result else result in
    let addressed = if not (jid_eq to jid_empty) then add_attr qn_to (str to) typed else typed in
    if not (is_empty id) then add_attr qn_id id addressed else addressed

unfoldable pub make_iq_result : XmlElement → XmlElement
make_iq_result query =
    let result = add_attr qn_type (codes "result") (new_element qn_iq) in
    let addressed =
      if has_attr qn_from query then add_attr qn_to (attr qn_from query) result else result in
    add_attr qn_id (attr qn_id query) addressed

-- me is the Jid of the client.
unfoldable pub match_stanza_from : (ℕ → ℕ) → Jid → XmlElement → Jid → Bool
unfolding jid_eq parse bare_jid
match_stanza_from tolower me stanza to =
    let from = parse tolower (attr qn_from stanza) in
    if jid_eq from to
    then true
    else if not (jid_eq to jid_empty)
    then false
    else jid_eq from (parse tolower (domain_name_of me)) || jid_eq from (bare_jid tolower me)

unfoldable pub match_response_iq : (ℕ → ℕ) → Jid → XmlElement → Jid → Bytes → Bool
unfolding match_stanza_from qname_eq
match_response_iq tolower me stanza to id =
    if not (qname_eq (name stanza) qn_iq)
    then false
    else if not (beq (attr qn_id stanza) id)
    then false
    else match_stanza_from tolower me stanza to

abbrev is_found : Option XmlElement → Bool
is_found none = false
is_found (some _) = true

unfoldable pub match_request_iq : XmlElement → Bytes → QName → Bool
unfolding qname_eq first_named
match_request_iq stanza type qn =
    if not (qname_eq (name stanza) qn_iq)
    then false
    else if not (beq (attr qn_type stanza) type)
    then false
    else is_found (first_named qn stanza)

-- With the shared manager of all tasks.
unfoldable pub verify_task_rate_limit : ℕ → Bytes → ℕ → ℕ → Manager → Option (Bool × Manager)
unfolding verify_rate_limit
verify_task_rate_limit now task_name max_count per_x_seconds manager =
    verify_rate_limit now task_name max_count per_x_seconds false manager
