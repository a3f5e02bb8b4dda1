-- ===== src/Engine/Reach/Live.antt =====
-- The invariant of an engine between two stanzas, and the login task under it
-- (xmppengineimpl.cc, xmpplogintask.cc).
use txmpp.Common.{
  ℕ, Bool, true, false, not, ◌&&◌, ◌||◌, ◌≡◌, refl, ap, ◌∙◌, Option, none, some, arith, inl, inr,
  ◌⊎◌, if◌then◌else◌,
}
use txmpp.Engine.Internal.{has_error}
use txmpp.Engine.Login.Safety.{wants_features, wants_mechanism, is_ready, login_incoming_settled}
use txmpp.Engine.Reach.Core.{core}
use txmpp.Engine.Session.{login_takes}
use txmpp.Engine.Types.{
  Engine, LoginTask, State, opening, opened, closed, start, is_done, is_error_none, is_closed,
  is_opening, is_open,
}
use txmpp.Xml.Element.{XmlElement, is_some}

-- Opening, with a login task under way that can go on, and no error; or open, past the login,
-- without error; or closed by an error.
pub data IsLive (e : Engine) : Type 0 where
  live_opening :
      (l : LoginTask)
      → e.state ≡ opening
      → e.login_task ≡ some l
      → has_error e ≡ false
      → is_done l ≡ false
      → is_ready e l ≡ true
      → IsLive e
  live_open : e.state ≡ opened → e.login_task ≡ none → has_error e ≡ false → IsLive e
  live_closed : e.state ≡ closed → has_error e ≡ true → IsLive e

-- It looks at the core only.
module _ (a b : Engine) (h : core a ≡ core b) where
  state-core : a.state ≡ b.state
  unfolding core
  state-core = ap (λ c. c.0) h

  pub login_task-core : a.login_task ≡ b.login_task
  unfolding core
  login_task-core = ap (λ c. c.1) h

  has_error-core : has_error a ≡ has_error b
  unfolding core has_error
  has_error-core = ap (λ c. not (is_error_none c.2)) h

  is_ready-core : (l : LoginTask) → is_ready a l ≡ is_ready b l
  unfolding core
  is_ready-core l =
      ap
        (λ h.
          is_some h
          && (not (wants_features l.state) || is_some l.features)
          && (not (wants_mechanism l.state) || is_some l.sasl_mech))
        (ap (λ c. c.3) h)

  pub IsLive-core : IsLive b → IsLive a
  IsLive-core (live_opening l at task no_error not_done ready) =
      live_opening l (state-core ∙ at) (login_task-core ∙ task) (has_error-core ∙ no_error) not_done
        (is_ready-core l ∙ ready)
  IsLive-core (live_open at task no_error) =
      live_open (state-core ∙ at) (login_task-core ∙ task) (has_error-core ∙ no_error)
  IsLive-core (live_closed at error) = live_closed (state-core ∙ at) (has_error-core ∙ error)

settled_of :
    (s : State) (done error : Bool)
    → ((is_opening s && not done && not error)
        || (is_open s && done && not error)
        || (is_closed s && done && error))
      ≡ true
    → ((s ≡ opening) × (done ≡ false) × (error ≡ false))
      ⊎ (((s ≡ opened) × (done ≡ true) × (error ≡ false)) ⊎ ((s ≡ closed) × (error ≡ true)))
settled_of start done error h = ground arith
settled_of opening done error h = inl (refl, ground arith, ground arith)
settled_of opened done error h = inr (inl (refl, ground arith, ground arith))
settled_of closed done error h = inr (inr (refl, ground arith))

settled_from :
    (s : State) (done error : Bool)
    → s ≡ opening
    → done ≡ false
    → error ≡ false
    → ((is_opening s && not done && not error)
        || (is_open s && done && not error)
        || (is_closed s && done && error))
      ≡ true
settled_from s done error h k m = rw (h, k, m) refl

-- The login task takes a stanza.
pub login_takes-IsLive :
    (tolower : ℕ → ℕ) (x : Option XmlElement) (b : Bool) (l : LoginTask) (e : Engine)
    → e.state ≡ opening
    → has_error e ≡ false
    → is_done l ≡ false
    → is_ready e l ≡ true
    → (e' : Engine) × (login_takes tolower x b l e ≡ some e') × IsLive e'
unfolding login_takes has_error
login_takes-IsLive tolower x b l e at no_error not_done ready =
    let (e', l', ran, ready', settled) =
      login_incoming_settled tolower x b e l ready
        (settled_from e.state (is_done l) (has_error e) at not_done no_error) in
    let kept = λ (d : Bool). if d then none else some l' in
    (
      record e' { login_task = if is_done l' then none else some l' },
      rw ran refl,
      elim (settled_of e'.state (is_done l') (has_error e') settled) [
        | inl (s, d, r) ↦ live_opening l' s (ap kept d) r d ready'
        | inr (inl (s, d, r)) ↦ live_open s (ap kept d) r
        | inr (inr (s, r)) ↦ live_closed s r
      ],
    )
