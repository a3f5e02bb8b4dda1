-- ===== src/Tests/Clients.antt =====
-- The tasks of a client (xmpptask.cc, mucroomlookuptask.cc, xmppclient.cc) at concrete inputs.
use txmpp.Common.{
  true, false, ℕ, ◌+◌, Option, ◌≡◌, refl, [], ◌∷◌, List, none, some, codes, is_empty,
}
use txmpp.Client.{
  Client, Settings, Out, connect_client, new_client, ClientEvent, starts, engine_runs, disconnects,
  connects, opens_socket, client_runs,
}
use txmpp.Client.Serves.{closings, once, has_engine}
use txmpp.Client.Signals.{all_served, client_runs-Counts}
use txmpp.Engine.Session.{connection_closed}
use txmpp.Engine.Names.{qn_iq, qn_to}
use txmpp.Jid.{str}
use txmpp.Tasks.Steps.{new_steps}
use txmpp.Xml.Element.{attr, new_element}
use txmpp.Tests.Jids.{ascii, joe, ann, joe-IsNormal}
use txmpp.XmppTask.{XmppTask, match_response_iq, make_iq, make_iq_result, stop_impl}
use txmpp.XmppTask.Answers.{match_response_iq-make_iq, delivered}
use txmpp.XmppTask.MucLookup.Life.{LookupEvent, lookup_steps, lookup_wakes, lookup_runs}
use txmpp.XmppTask.MucLookup
use txmpp.XmppTask.Queue.{next_stanza-queue_stanza, reads, queue_all, IsStopped}

abbrev listener : XmppTask
listener = record {
  has_client = true;
  stanza_queue = new_element qn_iq ∷ [];
  next = none;
  id = codes "7";
  steps = new_steps;
}

next_stanza-queue_stanza_example :
    (reads 3 (queue_all (new_element qn_to ∷ []) listener)
      ≡ some (new_element qn_iq) ∷ some (new_element qn_to) ∷ none ∷ [])
    × IsStopped (stop_impl (queue_all (new_element qn_to ∷ []) listener)).0
    × ((stop_impl (stop_impl (queue_all (new_element qn_to ∷ []) listener)).0).1 ≡ [])
next_stanza-queue_stanza_example = next_stanza-queue_stanza (new_element qn_to ∷ []) listener

match_response_iq-make_iq_example :
    let request = delivered (some ann) (make_iq (codes "get") (some joe) (codes "7")) in
    let answer = delivered (some joe) (make_iq_result request) in
    (match_response_iq (λ c. c) (some ann) answer (some joe) (codes "7") ≡ true)
    × (attr qn_to answer ≡ str (some ann))
unfolding is_empty
match_response_iq-make_iq_example =
    match_response_iq-make_iq ascii (codes "get") (codes "7") ann joe (some ann) joe-IsNormal refl

abbrev lookup : MucLookup.MucRoomLookupTask
lookup = record {
  base = record listener { stanza_queue = [] };
  room_name = codes "room";
  organizer_domain = codes "example.com";
  room_jid = none;
}

-- It starts, sends its request, is not answered, and times out.
abbrev unanswered : List LookupEvent
unanswered =
    lookup_steps false true
    ∷ lookup_steps false true
    ∷ lookup_steps false true
    ∷ lookup_wakes
    ∷ lookup_steps true true
    ∷ []

signals_timeout : (lookup_runs (λ c. c) unanswered lookup).1 ≡ MucLookup.room_lookup_error none ∷ []
unfolding lookup_runs
signals_timeout = refl

-- A client without an authentication helper.
abbrev settings : Settings
settings = record {
  resource = codes "home";
  use_tls = true;
  user = some ann;
  google = false;
  pass = codes "secret";
  auth_cookie = [];
  allow_plain = false;
}

abbrev client : Client
client = (connect_client settings (codes "en") true none (new_client new_steps)).1

-- It is connected and closed by the server, then connected and closed again.
abbrev twice : List ClientEvent
twice =
    starts
    ∷ engine_runs (λ e. (connection_closed 0 e).1)
    ∷ disconnects
    ∷ connects settings (codes "en") true none
    ∷ engine_runs (λ e. (connection_closed 0 e).1)
    ∷ []

client_has_engine : has_engine client.engine ≡ true
unfolding connect_client
client_has_engine = refl

twice_served : all_served twice client ≡ true
unfolding connect_client client_runs connection_closed is_empty txmpp.Engine.Internal.exit
    txmpp.Engine.Internal.enter
twice_served = refl

client_runs-Counts_example :
    (after : Client) × (outs : List Out) × (client_runs twice client ≡ some (after, outs))
    × (closings outs + once client.signal_closed ≡ once after.signal_closed)
    × (has_engine after.engine ≡ true)
client_runs-Counts_example = client_runs-Counts twice client client_has_engine twice_served

abbrev closings_of : Option (Client × List Out) → ℕ
closings_of none = 0
closings_of (some (c, outs)) = closings outs

-- Where Disconnect comes before the task opens the socket, ProcessStartXmppLogin reads a null
-- socket.
opened_late : client_runs (starts ∷ disconnects ∷ opens_socket true ∷ []) client ≡ none
unfolding client_runs connect_client txmpp.Engine.Session.disconnect is_empty
    txmpp.Engine.Internal.exit txmpp.Engine.Internal.enter
opened_late = refl

-- The end of the second connection is not signalled.
second_end_missed : closings_of (client_runs twice client) ≡ 1
unfolding client_runs connect_client connection_closed is_empty txmpp.Engine.Internal.exit
    txmpp.Engine.Internal.enter
second_end_missed = refl
