-- ===== src/Engine/Names.antt =====
-- The namespaces and qualified names of constants.cc that the engine and the login task use.
use txmpp.Common.{Bytes, codes, []}
use txmpp.Xml.QName.{QName, qn}

abbrev pub ns_client : Bytes
ns_client = codes "jabber:client"

abbrev pub ns_stream : Bytes
ns_stream = codes "http://etherx.jabber.org/streams"

abbrev pub ns_tls : Bytes
ns_tls = codes "urn:ietf:params:xml:ns:xmpp-tls"

abbrev pub ns_sasl : Bytes
ns_sasl = codes "urn:ietf:params:xml:ns:xmpp-sasl"

abbrev pub ns_bind : Bytes
ns_bind = codes "urn:ietf:params:xml:ns:xmpp-bind"

abbrev pub ns_session : Bytes
ns_session = codes "urn:ietf:params:xml:ns:xmpp-session"

abbrev pub ns_stanza : Bytes
ns_stanza = codes "urn:ietf:params:xml:ns:xmpp-stanzas"

abbrev pub qn_stream_stream : QName
qn_stream_stream = qn ns_stream (codes "stream")

abbrev pub qn_stream_features : QName
qn_stream_features = qn ns_stream (codes "features")

abbrev pub qn_stream_error : QName
qn_stream_error = qn ns_stream (codes "error")

abbrev pub qn_tls_starttls : QName
qn_tls_starttls = qn ns_tls (codes "starttls")

abbrev pub qn_tls_proceed : QName
qn_tls_proceed = qn ns_tls (codes "proceed")

abbrev pub qn_sasl_mechanisms : QName
qn_sasl_mechanisms = qn ns_sasl (codes "mechanisms")

abbrev pub qn_sasl_mechanism : QName
qn_sasl_mechanism = qn ns_sasl (codes "mechanism")

abbrev pub qn_sasl_auth : QName
qn_sasl_auth = qn ns_sasl (codes "auth")

abbrev pub qn_sasl_challenge : QName
qn_sasl_challenge = qn ns_sasl (codes "challenge")

abbrev pub qn_sasl_success : QName
qn_sasl_success = qn ns_sasl (codes "success")

abbrev pub qn_sasl_abort : QName
qn_sasl_abort = qn ns_sasl (codes "abort")

abbrev pub qn_bind_bind : QName
qn_bind_bind = qn ns_bind (codes "bind")

abbrev pub qn_bind_resource : QName
qn_bind_resource = qn ns_bind (codes "resource")

abbrev pub qn_bind_jid : QName
qn_bind_jid = qn ns_bind (codes "jid")

abbrev pub qn_session_session : QName
qn_session_session = qn ns_session (codes "session")

abbrev pub qn_iq : QName
qn_iq = qn ns_client (codes "iq")

abbrev pub qn_error : QName
qn_error = qn ns_client (codes "error")

abbrev pub qn_stanza_text : QName
qn_stanza_text = qn ns_stanza (codes "text")

abbrev pub qn_version : QName
qn_version = qn [] (codes "version")

abbrev pub qn_to : QName
qn_to = qn [] (codes "to")

abbrev pub qn_from : QName
qn_from = qn [] (codes "from")

abbrev pub qn_type : QName
qn_type = qn [] (codes "type")

abbrev pub qn_id : QName
qn_id = qn [] (codes "id")

abbrev pub qn_code : QName
qn_code = qn [] (codes "code")

abbrev pub qn_mechanism : QName
qn_mechanism = qn [] (codes "mechanism")
