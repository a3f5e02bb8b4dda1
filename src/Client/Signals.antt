-- ===== src/Client/Signals.antt =====
-- The signals of a client (xmppclient.cc).
use txmpp.Client.{
  Client, PreAuth, Out, socket_connect, After, ensure_closed, through_engine, process_start,
  refused, authorized, process_cookie_login, socket_connects, process_start_xmpp_login, cut_off,
  disconnect_from, disconnect_client, connect_client, ClientEvent, engine_runs, starts,
  waits_for_auth, responds, disconnects, opens_socket, connects, client_happens, client_runs,
  Settings, without_state, without_status,
}
use txmpp.Common.{
  ◌+◌, Bool, true, false, not, ◌&&◌, ◌≡◌, refl, ap, sym, ◌∙◌, List, [], ◌∷◌, ◌++◌, Option, none,
  some, length, drop, Bytes, if◌then◌else◌, ◌>>=◌, arith, Bool-cases, Option-cases, false_not_true,
  inl, inr,
}
use txmpp.Engine.Types.{Engine, error_auth}
use txmpp.Engine.Session.{disconnect}
use txmpp.Client.Serves.{
  closings, closings-append, once, has_engine, ensure_closed-Counts, Works, are_served,
  are_served_all, through_engine-Serves,
}

engine_of : (o : Option Engine) → has_engine o ≡ true → (e : Engine) × (o ≡ some e)
engine_of (some e) h = (e, refl)
engine_of none h = absurd (false_not_true h)

starts-Works : (c : Client) → has_engine c.engine ≡ true → Works c (client_happens starts c)
unfolding client_happens process_start
starts-Works c h =
    let (e, k) = engine_of c.engine h in
    elim (Option-cases c.pre_auth) [
      | inl n ↦ rw (client_happens, process_start, k, n) (_, refl, (omega arith, refl))
      | inr (a, s) ↦ rw (client_happens, process_start, k, s) (_, refl, (omega arith, h))
    ]

gives_up-Works :
    (c c0 : Client)
    → c0.signal_closed ≡ c.signal_closed
    → has_engine c0.engine ≡ has_engine c.engine
    → Works c (some (ensure_closed c0))
gives_up-Works c c0 s e =
    let (n, k) = ensure_closed-Counts c0 in
    (ensure_closed c0, refl, (omega (arith, n, ap once s), k ∙ e))

refused_keeps :
    (a : PreAuth) (c : Client)
    → ((refused a c).signal_closed ≡ c.signal_closed)
      × (has_engine (refused a c).engine ≡ has_engine c.engine)
unfolding refused
refused_keeps a c = elim (Bool-cases a.had_error) [
  | inl e ↦ rw e (refl, refl)
  | inr e ↦ rw e (refl, refl)
]

authorized-Works :
    (a : PreAuth) (c : Client)
    → has_engine c.engine ≡ true
    → Works c (without_state (authorized a c))
unfolding authorized
authorized-Works a c h =
    let (e, k) = engine_of c.engine h in rw (authorized, k) (_, refl, (omega arith, refl))

-- ProcessCookieLogin with what the helper answers.
cookie-Works :
    (o : Option PreAuth) (c : Client)
    → c.pre_auth ≡ o
    → has_engine c.engine ≡ true
    → Works c (client_happens waits_for_auth c)
unfolding client_happens process_cookie_login
cookie-Works none c e h =
    rw (client_happens, process_cookie_login, e)
      (gives_up-Works c (record c { pre_engine_error = error_auth }) refl refl)
cookie-Works (some a) c e h = elim (Bool-cases a.is_auth_done) [
  | inr d ↦ rw (client_happens, process_cookie_login, e, d) ((c, []), refl, (omega arith, refl))
  | inl d ↦ elim (Bool-cases a.is_authorized) [
    | inr z ↦
        rw (client_happens, process_cookie_login, e, d, z)
          (gives_up-Works c (refused a c) (refused_keeps a c).0 (refused_keeps a c).1)
    | inl z ↦ rw (client_happens, process_cookie_login, e, d, z) (authorized-Works a c h)
  ]
]

login-Works :
    (connected : Bool) (c : Client)
    → c.has_socket ≡ true
    → Works c (client_happens (opens_socket connected) c)
unfolding client_happens process_start_xmpp_login
login-Works false c h =
    let (n, k) = ensure_closed-Counts c in
    (
      ((ensure_closed c).0, socket_connect ∷ (ensure_closed c).1),
      ap (λ b. without_state (if not b then none else some (socket_connects false c))) h,
      (n, k),
    )
login-Works true c h = (
  (c, socket_connect ∷ []),
  ap (λ b. without_state (if not b then none else some (socket_connects true c))) h,
  (omega arith, refl),
)

disconnect_from-Works :
    (b : Bool) (o : Option Engine) (c : Client)
    → c.has_socket ≡ b
    → has_engine o ≡ true
    → has_engine c.engine ≡ true
    → Works c (without_status (disconnect_from b o c))
unfolding cut_off
disconnect_from-Works false o c s k h = ((c, []), refl, (omega arith, refl))
disconnect_from-Works true none c s k h = absurd (false_not_true k)
disconnect_from-Works true (some e) c s k h =
    let calls = drop (length e.calls) (disconnect e).1.calls in
    let (r, eq, counts, same) =
      through_engine-Serves (λ e. (disconnect e).1) e c h
        (ap (λ b. are_served b calls) s ∙ are_served_all calls) in
    ((record r.0 { has_socket = false }, r.1), rw (cut_off, eq) refl, counts)

connects-Works :
    (settings : Settings) (lang : Bytes) (socket : Bool) (pre_auth : Option PreAuth) (c : Client)
    → has_engine c.engine ≡ true
    → Works c (client_happens (connects settings lang socket pre_auth) c)
unfolding client_happens connect_client
connects-Works settings lang false pre_auth c h = ((c, []), refl, (omega arith, refl))
connects-Works settings lang true pre_auth c h = elim (Bool-cases c.has_socket) [
  | inl s ↦ rw (client_happens, connect_client, s) (_, refl, (omega arith, refl))
  | inr s ↦ rw (client_happens, connect_client, s) (_, refl, (omega arith, sym h))
]

-- The engine calls on the socket, and the task opens it, only while the client has it.
abbrev pub calls_served : (Engine → Engine) → Bool → Option Engine → Bool
calls_served f socket none = true
calls_served f socket (some e) = are_served socket (drop (length e.calls) (f e).calls)

abbrev pub is_served : ClientEvent → Client → Bool
is_served (engine_runs f) c = calls_served f c.has_socket c.engine
is_served starts c = true
is_served waits_for_auth c = true
is_served responds c = true
is_served disconnects c = true
is_served (opens_socket connected) c = c.has_socket
is_served (connects settings lang socket pre_auth) c = true

abbrev pub all_served : List ClientEvent → Client → Bool
all_served [] c = true
all_served (v ∷ vs) c =
    is_served v c && elim (client_happens v c) [ none ↦ true | some r ↦ all_served vs r.0 ]

engine_runs-Works :
    (f : Engine → Engine) (o : Option Engine) (c : Client)
    → has_engine o ≡ true
    → has_engine c.engine ≡ true
    → calls_served f c.has_socket o ≡ true
    → Works c (o >>= λ e. through_engine f e c)
engine_runs-Works f none c k h served = absurd (false_not_true k)
engine_runs-Works f (some e) c k h served =
    let (r, eq, counts, same) = through_engine-Serves f e c h served in (r, eq, counts)

happens-Works :
    (v : ClientEvent) (c : Client)
    → has_engine c.engine ≡ true
    → is_served v c ≡ true
    → Works c (client_happens v c)
unfolding client_happens disconnect_client
happens-Works (engine_runs f) c h served = engine_runs-Works f c.engine c h h served
happens-Works starts c h served = starts-Works c h
happens-Works waits_for_auth c h served = cookie-Works c.pre_auth c refl h
happens-Works responds c h served = ((c, []), refl, (omega arith, refl))
happens-Works disconnects c h served = disconnect_from-Works c.has_socket c.engine c refl h h
happens-Works (opens_socket connected) c h served = login-Works connected c served
happens-Works (connects settings lang socket pre_auth) c h served =
    connects-Works settings lang socket pre_auth c h

rest_served :
    (v : ClientEvent) (vs : List ClientEvent) (c : Client) (r : After)
    → client_happens v c ≡ some r
    → all_served (v ∷ vs) c ≡ true
    → (is_served v c ≡ true) × (all_served vs r.0 ≡ true)
rest_served v vs c r e h =
    let h' : (is_served v c && all_served vs r.0) ≡ true = rw e at h in
    (ground (arith, h'), ground (arith, h'))

-- Let a client have been given an engine, and let the client have its socket wherever in a run its
-- engine calls on the socket or its task opens it. Then whatever happens to it, no null engine and
-- no null socket is read, and STATE_CLOSED is signalled at most once: once if the flag
-- signal_closed_ is set in the run, and not at all otherwise. That holds also over Disconnect,
-- which takes the socket away, and a second Connect, which does not clear the flag.
pub client_runs-Counts :
    (vs : List ClientEvent) (c : Client)
    → has_engine c.engine ≡ true
    → all_served vs c ≡ true
    → (after : Client) × (outs : List Out) × (client_runs vs c ≡ some (after, outs))
      × (closings outs + once c.signal_closed ≡ once after.signal_closed)
      × (has_engine after.engine ≡ true)
unfolding client_runs
client_runs-Counts [] c h served = (c, [], refl, omega arith, h)
client_runs-Counts (v ∷ vs) c h served =
    let first : is_served v c ≡ true = ground (arith, served) in
    let (r, e, counts) = happens-Works v c h first in
    let (n, k) = counts in
    let (_, rest) = rest_served v vs c r e served in
    let (after, outs, e', n', k') = client_runs-Counts vs r.0 (k ∙ h) rest in
    (
      after,
      r.1 ++ outs,
      rw (client_runs, e, e') refl,
      omega (arith, closings-append r.1 outs, n, n'),
      k',
    )
