-- ===== src/Client/Serves.antt =====
-- What the calls of an engine do to a client with a socket, and without (xmppclient.cc).
use txmpp.Client.{
  Client, Out, signal_state_change, start_pre_xmpp_auth, socket_connect, socket_close, socket_write,
  socket_start_tls, After, ensure_closed, state_changed, on_socket, engine_calls, all_calls,
  through_engine,
}
use txmpp.Common.{
  ℕ, ◌+◌, Bool, true, false, not, ◌&&◌, ◌||◌, ◌≡◌, refl, ap, sym, ◌∙◌, List, [], ◌∷◌, ◌++◌, Option,
  none, some, length, drop, if◌then◌else◌, arith,
}
use txmpp.Engine.Types.{
  Engine, State, is_closed, Call, write_output, call_start_tls, close_connection, on_state_change,
  handle_stanza, iq_response,
}

-- How often STATE_CLOSED is signalled.
abbrev pub closings : List Out → ℕ
closings [] = 0
closings (signal_state_change state ∷ outs) = (if is_closed state then 1 else 0) + closings outs
closings (start_pre_xmpp_auth jid pass cookie ∷ outs) = closings outs
closings (socket_connect ∷ outs) = closings outs
closings (socket_close ∷ outs) = closings outs
closings (socket_write bytes ∷ outs) = closings outs
closings (socket_start_tls domain ∷ outs) = closings outs

pub closings-append : (a b : List Out) → closings (a ++ b) ≡ closings a + closings b
closings-append [] b = omega arith
closings-append (signal_state_change state ∷ a) b = omega (arith, closings-append a b)
closings-append (start_pre_xmpp_auth jid pass cookie ∷ a) b = closings-append a b
closings-append (socket_connect ∷ a) b = closings-append a b
closings-append (socket_close ∷ a) b = closings-append a b
closings-append (socket_write bytes ∷ a) b = closings-append a b
closings-append (socket_start_tls domain ∷ a) b = closings-append a b

abbrev pub once : Bool → ℕ
once b = if b then 1 else 0

abbrev pub has_engine : Option Engine → Bool
has_engine none = false
has_engine (some e) = true

-- The signal goes with the flag, and the engine stays.
abbrev pub Counts : Client → After → Type 0
Counts c (c', outs) =
    (closings outs + once c.signal_closed ≡ once c'.signal_closed)
    × (has_engine c'.engine ≡ has_engine c.engine)

pub ensure_closed-Counts : (c : Client) → Counts c (ensure_closed c)
unfolding ensure_closed
ensure_closed-Counts c = ground arith

pub state_changed-Counts : (s : State) (c : Client) → Counts c (state_changed s c)
unfolding state_changed ensure_closed
state_changed-Counts s c = ground arith

pub Counts-append :
    (c c1 c2 : Client) (a b : List Out)
    → Counts c (c1, a)
    → Counts c1 (c2, b)
    → Counts c (c2, a ++ b)
Counts-append c c1 c2 a b (n, e) (n', e') = (omega (arith, closings-append a b, n, n'), e' ∙ e)

-- An event goes on, and counts.
abbrev pub Works : Client → Option After → Type 0
Works c m = (r : After) × (m ≡ some r) × Counts c r

-- The same, and the socket stays.
abbrev pub Serves : Client → Option After → Type 0
Serves c m = (r : After) × (m ≡ some r) × Counts c r × (r.0.has_socket ≡ c.has_socket)

-- Whether a call goes to the socket.
abbrev pub needs_socket : Call → Bool
needs_socket (write_output bytes) = true
needs_socket (call_start_tls domain) = true
needs_socket close_connection = true
needs_socket (on_state_change state) = false
needs_socket (handle_stanza handler stanza) = false
needs_socket (iq_response cookie handler stanza) = false

abbrev pub are_served : Bool → List Call → Bool
are_served socket [] = true
are_served socket (call ∷ calls) = (socket || not (needs_socket call)) && are_served socket calls

pub are_served_all : (calls : List Call) → are_served true calls ≡ true
are_served_all [] = refl
are_served_all (call ∷ calls) = are_served_all calls

pub on_socket-Serves :
    (out : Out) (c : Client)
    → closings (out ∷ []) ≡ 0
    → c.has_socket ≡ true
    → Serves c (on_socket out c)
on_socket-Serves out c silent h = (
  (c, out ∷ []),
  ap (λ b. if b then some (c, out ∷ []) else none) h,
  (omega (arith, silent), refl),
  refl,
)

pub state_changed-Serves :
    (s : State) (c : Client) → (state_changed s c).0.has_socket ≡ c.has_socket
unfolding state_changed ensure_closed
state_changed-Serves s c = ground arith

pub engine_calls-Serves :
    (call : Call) (c : Client)
    → (c.has_socket || not (needs_socket call)) ≡ true
    → Serves c (engine_calls call c)
unfolding engine_calls
engine_calls-Serves (write_output bytes) c h =
    on_socket-Serves (socket_write bytes) c refl (ground (arith, h))
engine_calls-Serves (call_start_tls domain) c h =
    on_socket-Serves (socket_start_tls domain) c refl (ground (arith, h))
engine_calls-Serves close_connection c h = on_socket-Serves socket_close c refl (ground (arith, h))
engine_calls-Serves (on_state_change state) c h =
    (state_changed state c, refl, state_changed-Counts state c, state_changed-Serves state c)
engine_calls-Serves (handle_stanza handler stanza) c h = ((c, []), refl, (omega arith, refl), refl)
engine_calls-Serves (iq_response cookie handler stanza) c h =
    ((c, []), refl, (omega arith, refl), refl)

pub all_calls-Serves :
    (calls : List Call) (c : Client)
    → are_served c.has_socket calls ≡ true
    → Serves c (all_calls calls c)
unfolding all_calls
all_calls-Serves [] c h = ((c, []), refl, (omega arith, refl), refl)
all_calls-Serves (call ∷ calls) c h =
    let (r, e, n, k) = engine_calls-Serves call c (ground (arith, h)) in
    let served : are_served c.has_socket calls ≡ true = ground (arith, h) in
    let (r', e', n', k') = all_calls-Serves calls r.0 (ap (λ b. are_served b calls) k ∙ served) in
    (
      (r'.0, r.1 ++ r'.1),
      rw (all_calls, e, e') refl,
      Counts-append c r.0 r'.0 r.1 r'.1 n n',
      k' ∙ k,
    )

pub through_engine-Serves :
    (f : Engine → Engine) (e : Engine) (c : Client)
    → has_engine c.engine ≡ true
    → are_served c.has_socket (drop (length e.calls) (f e).calls) ≡ true
    → Serves c (through_engine f e c)
unfolding through_engine
through_engine-Serves f e c h served =
    let (r, eq, counts, k) =
      all_calls-Serves (drop (length e.calls) (f e).calls) (record c { engine = some (f e) })
        served in
    (r, eq, (counts.0, counts.1 ∙ sym h), k)
