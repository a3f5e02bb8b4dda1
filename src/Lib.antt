-- ===== src/Lib.antt =====
-- The core of txmpp, the XMPP client library under src/: addresses, the XML tree with its parser and
-- printer, the engine that logs in and carries stanzas, the encodings and mechanisms of the login,
-- and the tasks of a client with their timeouts, and limits on their rate.
--
-- The parts and how they interact. The bytes that come in go to expat, whose callbacks are turned
-- into namespaces (src/xmlparser.cc) and elements (src/xmlbuilder.cc) and cut into stanzas
-- (src/xmppstanzaparser.cc). The engine (src/xmppengineimpl.cc) is given these, one by one. Until
-- the session is bound it hands each stanza to the login task (src/xmpplogintask.cc), which asks
-- for TLS, for authentication by a SASL mechanism, for a resource and for a session, and writes by
-- the engine. The client (src/xmppclient.cc) is a task that drives the engine and the socket, and
-- signals their changes. The mechanisms that are built in (src/saslplainmechanism.h,
-- src/saslcookiemechanism.h) send their credentials in Base64 (src/base64.cc). From then on a
-- stanza goes to the request it answers (src/xmppengineimpl_iq.cc) or to the stanza handlers. What
-- goes out is an element (src/xmlelement.cc), printed (src/xmlprinter.cc) in a scope of prefixes
-- (src/xmlnsstack.cc). Addresses are Jids (src/jid.cc). Other strings are encoded for URLs, XML and
-- HTML (src/stringencode.cc, src/urlencode.cc). The tasks of a client (src/task.cc) form a tree
-- (src/taskparent.cc) and are run, and woken when they time out, by a runner (src/taskrunner.cc).
-- Those of src/xmpptask.cc and src/mucroomlookuptask.cc queue stanzas and answer them. Events are
-- limited in rate (src/ratelimitmanager.cc) by 32-bit times (src/time.cc). A byte buffer
-- (src/bytebuffer.cc) holds what is written until it is read.
--
-- Which file models which part:
--   Common          names and lemmas that all files share: numbers, lists, byte strings, numerals
--   Jid             Jid: constructors, Str, BareJid, Compare, ComputeLameHash (src/jid.cc)
--   Jid/Prep        prepNode, prepResource, prepDomain and their tables
--   Jid/Chars, Jid/Domain    the characters and labels that those let through
--   Jid/RoundTrip, Jid/Order, Jid/Bare    theorems on Jids
--   Xml/QName       QName (src/qname.cc); Xml/QName/Merged, its merged form
--   Xml/Element     XmlElement (src/xmlelement.cc); Xml/Element/Attrs and Xml/Element/Contents,
--                   theorems on attributes and on children
--   Xml/NsStack     XmlnsStack (src/xmlnsstack.cc) and ResolveQName (src/xmlparser.cc);
--                   Xml/NsStack/Suggest, SuggestPrefix; Search, Names and Scopes, theorems
--   Xml/Printer     PrintElement and PrintXml (src/xmlprinter.cc); Xml/Printer/Escape, the escapes;
--                   ReadBack, how XML reads them; Total, that printing ends
--   Parser          XmlParser with its ParseContext (src/xmlparser.cc) and XmppStanzaParser
--                   (src/xmppstanzaparser.cc); Parser/Builder, XmlBuilder (src/xmlbuilder.cc);
--                   Parser/Document, what a document means; Runs, Items, Contents, Refine, Shape
--                   and Balance, theorems
--   Engine/Names    the names of src/constants.cc that the engine uses
--   Engine/Types    the state of XmppEngineImpl and XmppLoginTask
--   Engine/Internal the private operations of XmppEngineImpl and its EnterExit guard
--   Engine/Login    XmppLoginTask: step_tls_init is LOGINSTATE_TLS_INIT, and so on; advance is
--                   Advance. Rounds, Safety and Flush, theorems on it
--   Engine/Session  the public operations of XmppEngineImpl but for the next two
--   Engine/Iq       SendIq, RemoveIqHandler, SendStanzaError, HandleIqResponse
--                   (src/xmppengineimpl_iq.cc); Answers and Errors, theorems
--   Engine/Input    HandleInput and the calls of the stanza parser
--   Engine/Reach    theorems on whole calls: Core, what a call leaves alone; Live, the invariant;
--                   Events, input; Closing, Connect
--   Engine/Stream   HandleInput with the stanza parser, and the parser's reset
--   Base64          the encoder and the decoder (src/base64.cc); Tables, Scan, RoundTrip and
--                   Bounds, theorems
--   Sasl            the two mechanisms and PlainSaslHandler (src/plainsaslhandler.h);
--                   Sasl/Credentials, theorems
--   StringEncode    the encodings of src/stringencode.cc: escapes and URLs;
--                   StringEncode/Utf8, UTF-8; Entities, XML and HTML; Fields, hexadecimal strings,
--                   split and tokenize. Theorems: Utf8Bytes and Characters on UTF-8; Loops, Pieces
--                   and RoundTrip on the loops over a buffer; Cuts on fields; ReadBack, XmlText,
--                   HtmlPieces and HtmlText on entities
--   UrlEncode       UrlEncode and UrlDecode (src/urlencode.cc); Pieces and RoundTrip, theorems
--   Tasks           the timeouts of Task (src/task.cc) and TaskRunner (src/taskrunner.cc); Store,
--                   Soonest and Update, theorems; Tasks/Steps, Step, Abort, Wake and Error of
--                   one task; Tasks/Stops, theorems on them; Tasks/Tree, a task with its children
--                   (src/taskparent.cc); Aborts and Family, theorems on the tree
--   XmppTask        XmppTask (src/xmpptask.cc), and MUC lookups in
--                   XmppTask/MucLookup (src/mucroomlookuptask.cc), with MucLookup/Life, a lookup
--                   over a run; Queue, Answers, Lookups, Handlers and Reports, theorems
--   Client          XmppClient (src/xmppclient.cc) but for the reading of the socket;
--                   Client/Serves and Client/Signals, theorems
--   Clock           the wrapping arithmetic of times (src/time.cc); Compare, theorems
--   RateLimit       RateLimitManager (src/ratelimitmanager.cc); Window, theorems
--   ByteOrder       numbers in memory (src/byteorder.h); Numbers, theorems
--   ByteBuffer      ByteBuffer (src/bytebuffer.cc); Queue, theorems; ByteBuffer/Integers, its
--                   integers, with theorems in Widths
--   Tests           the theorems at concrete inputs
--
-- How state and operations correspond. An operation is a function from the state to the state, with
-- its result beside it. A string is a list of bytes; a shared, counted or copied object is a value;
-- a chain of nodes or a vector is a list. The null Jid is none. A callback is a call on the list
-- `calls` of the engine, and what it answers is a parameter: `handles` for stanza handlers, the
-- SaslHandler and SaslMechanism records for SASL. tolower of the C library is a parameter; the
-- record Ctype (Jid/Prep) says what the theorems ask of it: that it leaves its own results and the
-- bytes from 0x80 on where they are. isalnum and strtoul are parameters too, with what the theorems
-- ask of them: that isalnum is that of ASCII (IsAsciiAlnum), and that strtoul reads the decimal
-- digits up to the semicolon (ReadsDecimal). So are htons, htonl, ntohs and ntohl, which convert
-- between the order of the host and that of the network (IsHost). The socket and the helper that
-- authenticates before the session are given by what their methods answer.
--
-- Bounds and fuel. The search for a free prefix gets one round more than there are declarations
-- (`enough`): a candidate is refused only where it is declared, and the candidates differ. The loop
-- of Advance gets four rounds (`rounds`): a stanza is read at most once in a call, and without one
-- each state goes on to a state that returns. The loop of the Base64 decoder gets as many rounds as
-- there are characters: each round but the last uses four. none stands for a null pointer that the
-- source would read, or for a place outside a block of memory.
--
-- Expat is not part of the repository: it is given by what it reports, a list of callbacks (Token)
-- and the error that it ends in. Where a theorem asks anything of it, it is that it reports no end
-- tag without a start tag (Balanced).
--
-- Not modelled: callbacks that call back into the engine; negative subcodes; counters that wrap;
-- the interning table of names; InsertChildAfter and RemoveChildAfter; the positions that the XML
-- parser keeps for the log, and the log; the loops of RunTasks and PollTasks; the loop of
-- OnSocketRead; sockets, threads, HTTP and TLS.
pub mod Common
pub mod Jid
pub mod Xml
pub mod Parser
pub mod Engine
pub mod Base64
pub mod Sasl
pub mod StringEncode
pub mod UrlEncode
pub mod Tasks
pub mod Clock
pub mod RateLimit
pub mod XmppTask
pub mod Client
pub mod ByteOrder
pub mod ByteBuffer
pub mod Tests
