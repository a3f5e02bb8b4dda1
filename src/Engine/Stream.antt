-- ===== src/Engine/Stream.antt =====
-- The engine and its stanza parser together (xmppengineimpl.cc: HandleInput on what expat reports
-- for the bytes, and the reset of the parser in EnterExit::~EnterExit).
use txmpp.Common.{
  ℕ, ◌-◌, Bool, true, false, not, ◌&&◌, ◌||◌, ◌≡◌, refl, List, Option, some, ◌⊎◌, Bool-cases, inl,
  inr, ◌>>=◌, ◌==◌, if◌then◌else◌,
}
use txmpp.Engine.Input.{handle_events}
use txmpp.Engine.Internal.{enter, exit}
use txmpp.Engine.Reach.Core.{core-enter, core-exit}
use txmpp.Engine.Reach.Events.{handle_events-IsLive}
use txmpp.Engine.Reach.Live.{IsLive, IsLive-core}
use txmpp.Engine.Types.{Engine, ReturnStatus, return_ok, return_badstate, is_opening, is_open}
use txmpp.Parser.{Token, XmlError, StanzaParser, parse_chunk, reset, new_parser}
use txmpp.Parser.Balance.{parse_chunk-IsSane}
use txmpp.Parser.Shape.{Balanced, IsSane, new_parser-IsSane}
use txmpp.Xml.Element.{XmlElement}

-- The outermost exit resets the parser, if a reset was asked for.
abbrev pub resets : Engine → Bool
resets e = e.engine_entered - 1 == 0 && e.raised_reset

-- XmppEngineImpl::HandleInput, with the parser.
unfoldable pub receive :
    (ℕ → ℕ)
    → (ℕ → XmlElement → Bool)
    → List Token
    → XmlError
    → Engine
    → StanzaParser
    → Option (ReturnStatus × Engine × StanzaParser)
unfolding handle_events parse_chunk reset
receive tolower handles ts failure e p =
    if not (is_opening e.state || is_open e.state) then some (return_badstate, e, p) else do
      (p1, vs) ← parse_chunk ts failure p
      e1 ← handle_events tolower handles vs (enter e)
      some (return_ok, exit e.state e1, if resets e1 then reset p1 else p1)

-- An engine that can go on, and a parser that can, with n elements open.
abbrev pub IsConnected : ℕ → Engine → StanzaParser → Type 0
IsConnected n e p = IsLive e × IsSane n p

IsSane-reset :
    (b : Bool) (m : ℕ) (p : StanzaParser)
    → IsSane m p
    → let p' = if b then reset p else p in (k : ℕ) × IsSane k p' × ((k ≡ m) ⊎ (p' ≡ new_parser))
unfolding reset
IsSane-reset true m p h = (0, new_parser-IsSane, inr refl)
IsSane-reset false m p h = (m, h, inl refl)

-- However the server behaves, as long as expat reports no end tag without a start tag: a live
-- engine with a sane parser takes the input to its end without reading a null or dangling pointer,
-- and both stay that way. There are then as many elements open as before, or as the input leaves
-- open, or the parser is new.
pub receive-IsConnected :
    (tolower : ℕ → ℕ) (handles : ℕ → XmlElement → Bool) (n m : ℕ) (ts : List Token)
    (failure : XmlError) (e : Engine) (p : StanzaParser)
    → Balanced n ts m
    → IsConnected n e p
    → (s : ReturnStatus) × (e' : Engine) × (p' : StanzaParser) × (receive tolower handles ts failure
          e p
        ≡ some (s, e', p'))
      × (k : ℕ) × IsConnected k e' p'
      × ((k ≡ n) ⊎ ((k ≡ m) ⊎ (p' ≡ new_parser)))
unfolding receive
receive-IsConnected tolower handles n m ts failure e p b (live, tidy) =
    elim (Bool-cases (is_opening e.state || is_open e.state)) [
      | inl on ↦
          let (p1, vs, parsed, tidy1) = parse_chunk-IsSane n m ts failure p b tidy in
          let (e1, ran, live1) =
            handle_events-IsLive tolower handles vs (enter e)
              (IsLive-core (enter e) e (core-enter e) live) in
          let (k, tidy2, which) = IsSane-reset (resets e1) m p1 tidy1 in
          (
            return_ok,
            exit e.state e1,
            if resets e1 then reset p1 else p1,
            rw (on, parsed) (rw ran refl),
            k,
            (IsLive-core (exit e.state e1) e1 (core-exit e.state e1) live1, tidy2),
            inr which,
          )
      | inr off ↦ (return_badstate, e, p, rw off refl, n, (live, tidy), inl refl)
    ]
