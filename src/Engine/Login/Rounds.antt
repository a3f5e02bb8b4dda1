-- ===== src/Engine/Login/Rounds.antt =====
-- The loop of Advance (xmpplogintask.cc): the rounds that are left from each state, with a stanza
-- and without.
use txmpp.Common.{ℕ, zero, suc, ◌≤◌, ltb, Bool, true, false, Option, none, some, ◌≡◌, refl, arith}
use txmpp.Engine.Login.{
  Outcome, again, return, fault, step_in, step_init, step_streamstart_sent, step_started_xmpp,
  step_tls_init, step_tls_requested, step_auth_init, step_sasl_running, step_bind_init,
  step_bind_requested, step_session_requested, advance, rounds, failure,
}
use txmpp.Engine.Types.{
  Engine, LoginTask, LoginState, login_init, streamstart_sent, started_xmpp, tls_init, auth_init,
  bind_init, tls_requested, sasl_running, bind_requested, session_requested, login_done,
}
use txmpp.Xml.Element.{is_some}

-- The rounds that are left in a state, by whether a stanza waits.
abbrev left : LoginState → Bool → ℕ
left login_init _ = 2
left streamstart_sent _ = 1
left started_xmpp true = 3
left started_xmpp false = 1
left tls_init true = 4
left tls_init false = 2
left tls_requested true = 3
left tls_requested false = 1
left auth_init true = 4
left auth_init false = 2
left sasl_running true = 3
left sasl_running false = 1
left bind_init true = 3
left bind_init false = 2
left bind_requested true = 2
left bind_requested false = 1
left session_requested _ = 1
left login_done _ = 1

abbrev left_in : LoginTask → ℕ
left_in l = left l.state (is_some l.stanza)

-- An outcome after which fewer than n rounds are left.
abbrev fits : ℕ → Outcome → Bool
fits n (again e l) = ltb (left_in l) n
fits n _ = true

step_init-fits :
    (e : Engine) (l : LoginTask) → fits (left login_init (is_some l.stanza)) (step_init e l) ≡ true
unfolding step_init
step_init-fits e l = refl

module _ (tolower : ℕ → ℕ) (e : Engine) (l : LoginTask) where
  streamstart_sent-fits : fits 1 (step_streamstart_sent e l) ≡ true
  unfolding step_streamstart_sent failure
  streamstart_sent-fits = ground arith

  started_xmpp-fits : fits (left started_xmpp (is_some l.stanza)) (step_started_xmpp e l) ≡ true
  unfolding step_started_xmpp failure
  started_xmpp-fits = ground arith

  tls_init-fits : fits (left tls_init (is_some l.stanza)) (step_tls_init e l) ≡ true
  unfolding step_tls_init failure
  tls_init-fits = ground arith

  tls_requested-fits : fits (left tls_requested (is_some l.stanza)) (step_tls_requested e l) ≡ true
  unfolding step_tls_requested failure
  tls_requested-fits = ground arith

  auth_init-fits : fits (left auth_init (is_some l.stanza)) (step_auth_init e l) ≡ true
  unfolding step_auth_init failure
  auth_init-fits = ground arith

  sasl_running-fits : fits (left sasl_running (is_some l.stanza)) (step_sasl_running e l) ≡ true
  unfolding step_sasl_running failure
  sasl_running-fits = ground arith

  bind_init-fits : fits (left bind_init (is_some l.stanza)) (step_bind_init e l) ≡ true
  unfolding step_bind_init failure
  bind_init-fits = ground arith

  bind_requested-fits :
      fits (left bind_requested (is_some l.stanza)) (step_bind_requested tolower e l) ≡ true
  unfolding step_bind_requested failure
  bind_requested-fits = ground arith

  session_requested-fits : fits 1 (step_session_requested e l) ≡ true
  unfolding step_session_requested failure
  session_requested-fits = ground arith

  step_in-fits : (s : LoginState) → fits (left s (is_some l.stanza)) (step_in tolower s e l) ≡ true
  unfolding step_in
  step_in-fits login_init = step_init-fits e l
  step_in-fits streamstart_sent = streamstart_sent-fits
  step_in-fits started_xmpp = started_xmpp-fits
  step_in-fits tls_init = tls_init-fits
  step_in-fits tls_requested = tls_requested-fits
  step_in-fits auth_init = auth_init-fits
  step_in-fits sasl_running = sasl_running-fits
  step_in-fits bind_init = bind_init-fits
  step_in-fits bind_requested = bind_requested-fits
  step_in-fits session_requested = session_requested-fits
  step_in-fits login_done = refl

-- An outcome that is no fault and whose state passes a test, and the same of a finished run.
abbrev pub keeps : (Engine → LoginTask → Bool) → Outcome → Bool
keeps t (again e l) = t e l
keeps t (return _ e l) = t e l
keeps t fault = false

abbrev pub settles : (Engine → LoginTask → Bool) → Option Outcome → Bool
settles t (some (return _ e l)) = t e l
settles t _ = false

module _ (tolower : ℕ → ℕ) (t : Engine → LoginTask → Bool) where
  after_step :
      (fuel n : ℕ) (o : Outcome)
      → n ≤ suc fuel
      → fits n o ≡ true
      → keeps t o ≡ true
      → ((e : Engine) (l : LoginTask)
          → left_in l ≤ fuel
          → t e l ≡ true
          → settles t (advance tolower fuel e l) ≡ true)
      → settles t (elim o [
        | again e l ↦ advance tolower fuel e l
        | return b e l ↦ some (return b e l)
        | fault ↦ some fault
      ])
        ≡ true
  after_step fuel n (again e l) enough fitting kept run = run e l (ground arith) kept
  after_step fuel n (return b e l) enough fitting kept run = kept
  after_step fuel n fault enough fitting kept run = kept

  left-positive : (s : LoginState) (b : Bool) → 1 ≤ left s b
  left-positive s b = ground arith

  settled :
      ((e : Engine) (l : LoginTask) → t e l ≡ true → keeps t (step_in tolower l.state e l) ≡ true)
      → (fuel : ℕ) (e : Engine) (l : LoginTask) → left_in l ≤ fuel
      → t e l ≡ true
      → settles t (advance tolower fuel e l) ≡ true
  unfolding advance
  settled step zero e l enough given =
      let p = left-positive l.state (is_some l.stanza) in ground arith
  settled step (suc fuel) e l enough given =
      after_step fuel (left_in l) (step_in tolower l.state e l) enough
        (step_in-fits tolower e l l.state) (step e l given) (settled step fuel)

  left-rounds : (s : LoginState) (b : Bool) → left s b ≤ rounds
  left-rounds s b = ground arith

  -- A test that every round keeps holds where Advance returns, and Advance returns.
  pub advance-settles :
      ((e : Engine) (l : LoginTask) → t e l ≡ true → keeps t (step_in tolower l.state e l) ≡ true)
      → (e : Engine) (l : LoginTask) → t e l ≡ true
      → settles t (advance tolower rounds e l) ≡ true
  advance-settles step e l = settled step rounds e l (left-rounds l.state (is_some l.stanza))

pub settles-returned :
    (t : Engine → LoginTask → Bool) (o : Option Outcome)
    → settles t o ≡ true
    → (b : Bool) × (e : Engine) × (l : LoginTask) × (o ≡ some (return b e l)) × (t e l ≡ true)
settles-returned t none h = ground arith
settles-returned t (some (again e l)) h = ground arith
settles-returned t (some (return b e l)) h = (b, e, l, refl, h)
settles-returned t (some fault) h = ground arith
