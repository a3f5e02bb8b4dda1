-- ===== src/Engine/Reach/Core.antt =====
-- The part of the engine that decides what it does next, and the operations of xmppengineimpl.cc
-- on the rest.
use txmpp.Common.{
  ℕ, Bool, true, false, not, ◌&&◌, ◌||◌, ◌≡◌, refl, ◌∙◌, List, [], ◌∷◌, Option, Bytes, is_empty,
  ◌-◌, Bool-cases, inl, inr, ◌==◌, if◌then◌else◌,
}
use txmpp.Engine.Input.{show_all, offer, or_offer, deliver}
use txmpp.Engine.Internal.{
  put, call, enter, exit, flush, flush_if_due, leave_outermost, leave_if_outermost,
}
use txmpp.Engine.Types.{
  is_closed, same_state, Call, close_connection, Engine, State, LoginTask, Error, SaslHandler,
  write_output, handle_stanza, peek, single, sender, type', all,
}
use txmpp.Xml.Element.{XmlElement}

abbrev pub Core : Type 0
Core = State × Option LoginTask × Error × Option SaslHandler

unfoldable pub core : Engine → Core
core e = (e.state, e.login_task, e.error_code, e.sasl_handler)

core-if :
    (b : Bool) (x y e : Engine)
    → core x ≡ core e
    → core y ≡ core e
    → core (if b then x else y) ≡ core e
core-if true x y e p q = p
core-if false x y e p q = q

pub core-call : (c : Call) (e : Engine) → core (call c e) ≡ core e
unfolding core call
core-call c e = refl

pub core-put : (s : Bytes) (e : Engine) → core (put s e) ≡ core e
unfolding core put
core-put s e = refl

pub core-enter : (e : Engine) → core (enter e) ≡ core e
unfolding core enter
core-enter e = refl

core-emptied : (e : Engine) → core (record e { output = [] }) ≡ core e
unfolding core
core-emptied e = refl

core-cut_off : (e : Engine) → core (record e { output_handler = false }) ≡ core e
unfolding core
core-cut_off e = refl

core-calm : (e : Engine) → core (record e { raised_reset = false }) ≡ core e
unfolding core
core-calm e = refl

core-left : (n : ℕ) (e : Engine) → core (record e { engine_entered = n }) ≡ core e
unfolding core
core-left n e = refl

core-flush : (closing : Bool) (e : Engine) → core (flush closing e) ≡ core e
unfolding flush
core-flush closing e =
    let written =
      core-if (is_empty e.output) e (call (write_output e.output) e) e refl (core-call _ e) in
    let emptied = core-emptied _ ∙ written in
    core-if closing _ _ e (core-cut_off _ ∙ core-call close_connection _ ∙ emptied) emptied

core-leave : (saved : State) (e : Engine) → core (leave_outermost saved e) ≡ core e
unfolding leave_outermost
core-leave saved e =
    let calm = core-if e.raised_reset (record e { raised_reset = false }) e e (core-calm e) refl in
    core-if _ _ _ e (core-call _ _ ∙ calm) calm

core-flush_if_due : (saved : State) (e : Engine) → core (flush_if_due saved e) ≡ core e
unfolding flush_if_due
core-flush_if_due saved e =
    let closing = not (same_state e.state saved) && is_closed e.state in
    core-if (e.output_handler && (closing || e.engine_entered == 0)) (flush closing e) e e
      (core-flush closing e) refl

core-leave_if_outermost : (saved : State) (e : Engine) → core (leave_if_outermost saved e) ≡ core e
core-leave_if_outermost saved e =
    core-if (not (e.engine_entered == 0)) e (leave_outermost saved e) e refl (core-leave saved e)

pub core-exit : (saved : State) (e : Engine) → core (exit saved e) ≡ core e
unfolding exit
core-exit saved e =
    core-leave_if_outermost saved _ ∙ core-flush_if_due saved _ ∙ core-left (e.engine_entered - 1) e

pub core-show_all : (hs : List ℕ) (x : XmlElement) (e : Engine) → core (show_all hs x e) ≡ core e
unfolding show_all
core-show_all [] x e = refl
core-show_all (h ∷ hs) x e = core-show_all hs x (call (handle_stanza h x) e) ∙ core-call _ e

core-offer :
    (handles : ℕ → XmlElement → Bool) (hs : List ℕ) (x : XmlElement) (e : Engine)
    → core (offer handles hs x e).1 ≡ core e
unfolding offer
core-offer handles [] x e = refl
core-offer handles (h ∷ hs) x e = elim (Bool-cases (handles h x)) [
  | inl taken ↦ rw taken (core-call _ e)
  | inr passed ↦ rw passed (core-offer handles hs x (call (handle_stanza h x) e) ∙ core-call _ e)
]

core-or_offer :
    (handles : ℕ → XmlElement → Bool) (hs : List ℕ) (x : XmlElement) (r : Bool × Engine)
    → core (or_offer handles hs x r).1 ≡ core r.1
core-or_offer handles hs x (true, e) = refl
core-or_offer handles hs x (false, e) = core-offer handles hs x e

pub core-deliver :
    (handles : ℕ → XmlElement → Bool) (x : XmlElement) (e : Engine)
    → core (deliver handles x e).1 ≡ core e
unfolding deliver
core-deliver handles x e =
    let o1 =
      core-offer handles (e.stanza_handlers single) x (show_all (e.stanza_handlers peek) x e) in
    let o2 = core-or_offer handles (e.stanza_handlers sender) x _ in
    let o3 = core-or_offer handles (e.stanza_handlers type') x _ in
    let o4 = core-or_offer handles (e.stanza_handlers all) x _ in
    o4 ∙ o3 ∙ o2 ∙ o1 ∙ core-show_all (e.stanza_handlers peek) x e
