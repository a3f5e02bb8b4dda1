-- ===== src/XmppTask/MucLookup.antt =====
-- MucRoomLookupTask (mucroomlookuptask.cc): a lookup of a room by its Jid, or by its name and
-- domain. What a handler returns is a state, none for STATE_BLOCKED; its signals are a list.
pub mod Life
use txmpp.Common.{
  ℕ, Bool, true, false, not, List, [], ◌∷◌, Option, none, some, Bytes, codes, beq, if◌then◌else◌,
}
use txmpp.Engine.Names.{qn_type, qn_error}
use txmpp.Jid.{Jid, jid_empty, jid_eq, parse, str, is_valid}
use txmpp.Tasks.{state_done, state_error, state_response}
use txmpp.Tasks.Steps.{Effect}
use txmpp.Xml.Element.{
  XmlElement, attr, has_attr, new_element, new_element_ns, first_named, body_text, set_body_text,
  add_element,
}
use txmpp.Xml.QName.{QName, qn}
use txmpp.XmppTask.{XmppTask, next_stanza, queue_stanza, make_iq, match_response_iq, send_to_client}

abbrev pub ns_search : Bytes
ns_search = codes "jabber:iq:search"

abbrev pub qn_search_query : QName
qn_search_query = qn ns_search (codes "query")

abbrev pub qn_search_item : QName
qn_search_item = qn ns_search (codes "item")

abbrev pub qn_search_room_name : QName
qn_search_room_name = qn ns_search (codes "room-name")

abbrev pub qn_search_organizers_domain : QName
qn_search_organizers_domain = qn ns_search (codes "organizers-domain")

abbrev pub qn_search_room_jid : QName
qn_search_room_jid = qn ns_search (codes "room-jid")

abbrev pub qn_jid : QName
qn_jid = qn [] (codes "jid")

abbrev pub k_lookup_timeout : ℕ
k_lookup_timeout = 15

abbrev pub muc_lookup_domain : Bytes
muc_lookup_domain = codes "lookup.groupchat.google.com"

pub record MucRoomInfo : Type 0 where
  pub room_jid : Jid
  pub room_name : Bytes
  pub organizer_domain : Bytes

pub record MucRoomLookupTask : Type 0 where
  pub base : XmppTask
  pub room_name : Bytes
  pub organizer_domain : Bytes
  pub room_jid : Jid

pub data Signal : Type 0 where
  room_lookup_response : MucRoomInfo → Signal
  room_lookup_error : Option XmlElement → Signal

unfoldable pub make_room_query : Bytes → Bytes → XmlElement
unfolding set_body_text add_element
make_room_query room_name org_domain =
    let room_elem = set_body_text room_name (new_element_ns qn_search_room_name false) in
    let domain_elem = set_body_text org_domain (new_element_ns qn_search_organizers_domain false) in
    add_element domain_elem (add_element room_elem (new_element_ns qn_search_query true))

unfoldable pub make_jid_query : Bytes → XmlElement
unfolding set_body_text add_element
make_jid_query room_jid =
    add_element (set_body_text room_jid (new_element qn_search_room_jid))
      (new_element qn_search_query)

abbrev body_or_empty : Option XmlElement → Bytes
body_or_empty none = []
body_or_empty (some e) = body_text e

unfoldable pub get_room_info_from_response : (ℕ → ℕ) → XmlElement → Option MucRoomInfo
unfolding parse is_valid first_named
get_room_info_from_response tolower stanza =
    let jid = parse tolower (attr qn_jid stanza) in
    if not (is_valid jid)
    then none
    else some (record {
      room_jid = jid;
      room_name = body_or_empty (first_named qn_search_room_name stanza);
      organizer_domain = body_or_empty (first_named qn_search_organizers_domain stanza);
    })

-- The stanza that ProcessStart sends.
unfoldable pub lookup_iq : (ℕ → ℕ) → MucRoomLookupTask → XmlElement
unfolding make_iq jid_eq make_room_query make_jid_query
lookup_iq tolower t =
    let lookup = make_iq (codes "set") (parse tolower muc_lookup_domain) t.base.id in
    if not (jid_eq t.room_jid jid_empty)
    then add_element (make_jid_query (str t.room_jid)) lookup
    else add_element (make_room_query t.room_name t.organizer_domain) lookup

-- The last argument is whether the client's SendStanza answers XMPP_RETURN_OK.
unfoldable pub process_start : MucRoomLookupTask → Bool → Option ℕ × List Signal
unfolding send_to_client
process_start t sent = elim (send_to_client sent t.base) [
  | some true ↦ (some state_response, [])
  | _ ↦ (some state_error, room_lookup_error none ∷ [])
]

-- The item of the query of a stanza, and the room that it tells of.
abbrev item_of : Option XmlElement → Option XmlElement
item_of none = none
item_of (some query_elem) = first_named qn_search_item query_elem

abbrev info_of : (ℕ → ℕ) → Option XmlElement → Option MucRoomInfo
info_of tolower none = none
info_of tolower (some item_elem) =
    if has_attr qn_jid item_elem then get_room_info_from_response tolower item_elem else none

unfoldable pub room_of : (ℕ → ℕ) → XmlElement → Option MucRoomInfo
unfolding first_named get_room_info_from_response
room_of tolower stanza = info_of tolower (item_of (first_named qn_search_query stanza))

abbrev answered : Option MucRoomInfo → Signal
answered (some info) = room_lookup_response info
answered none = room_lookup_error none

abbrev responded : (ℕ → ℕ) → Option XmlElement → Option ℕ × List Signal
responded tolower none = (none, [])
responded tolower (some stanza) = (
  some state_done,
  (if beq (attr qn_type stanza) (codes "error")
        then room_lookup_error (first_named qn_error stanza)
        else answered (room_of tolower stanza))
      ∷ [],
)

unfoldable pub process_response :
    (ℕ → ℕ) → MucRoomLookupTask → MucRoomLookupTask × Option ℕ × List Signal
unfolding next_stanza room_of
process_response tolower t =
    let base = next_stanza t.base in
    let (state, signals) = responded tolower base.next in (record t { base = base }, state, signals)

unfoldable pub on_timeout : Option ℕ × List Signal
on_timeout = (some state_done, room_lookup_error none ∷ [])

-- The Boolean is whether the stanza is taken.
unfoldable pub handle_stanza :
    (ℕ → ℕ) → Jid → XmlElement → MucRoomLookupTask → Bool × MucRoomLookupTask × List Effect
unfolding match_response_iq queue_stanza
handle_stanza tolower me stanza t =
    if match_response_iq tolower me stanza (parse tolower muc_lookup_domain) t.base.id
    then (let (base, effects) = queue_stanza stanza t.base in
        (true, record t { base = base }, effects))
    else (false, t, [])
