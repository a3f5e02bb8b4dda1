-- ===== src/Engine/Reach/Closing.antt =====
-- The start of a session (xmppengineimpl.cc): Connect.
use txmpp.Common.{ℕ, true, false, not, ◌≡◌, refl, ap, ◌∙◌, none, some}
use txmpp.Engine.Internal.{enter, exit, has_error}
use txmpp.Engine.Login.Safety.{is_ready}
use txmpp.Engine.Reach.Core.{core-exit}
use txmpp.Engine.Reach.Live.{IsLive, IsLive-core, login_takes-IsLive}
use txmpp.Engine.Session.{connect, start_login}
use txmpp.Engine.Types.{Engine, LoginTask, start, opening, is_start_state, is_done, return_ok}

-- Connect on an engine in its first state, without error, whose login task can go on: it returns
-- OK and leaves a live engine.
pub connect-IsLive :
    (tolower : ℕ → ℕ) (e : Engine) (l : LoginTask)
    → e.state ≡ start
    → e.login_task ≡ some l
    → has_error e ≡ false
    → is_done l ≡ false
    → is_ready e l ≡ true
    → (e' : Engine) × (connect tolower e ≡ some (return_ok, e')) × IsLive e'
unfolding connect enter has_error
connect-IsLive tolower e l at task no_error not_done ready =
    let (e', ran, live) =
      login_takes-IsLive tolower none false l (record (enter e) { state = opening }) refl no_error
        not_done ready in
    let started : start_login tolower e.login_task (record (enter e) { state = opening })
        ≡ some e' =
      ap (λ t. start_login tolower t (record (enter e) { state = opening })) task ∙ ran in
    (
      exit e.state e',
      goes (ap (λ s. not (is_start_state s)) at) started,
      IsLive-core (exit e.state e') e' (core-exit e.state e') live,
    )
  where
    goes :
        {e' : Engine}
        → not (is_start_state e.state) ≡ false
        → start_login tolower e.login_task (record (enter e) { state = opening }) ≡ some e'
        → connect tolower e ≡ some (return_ok, exit e.state e')
    goes h k = rw (h, k) refl
