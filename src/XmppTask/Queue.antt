-- ===== src/XmppTask/Queue.antt =====
-- The queue of an XmppTask (xmpptask.cc): QueueStanza, NextStanza and StopImpl.
use mathlib.Core.List.{append-nil, append_assoc}
use txmpp.Common.{
  ℕ, zero, suc, Bool, true, false, ◌≡◌, refl, ap, sym, ◌∙◌, List, [], ◌∷◌, ◌++◌, map, Option, none,
  some, length, if◌then◌else◌,
}
use txmpp.Xml.Element.{XmlElement}
use txmpp.XmppTask.{XmppTask, ClientCall, queue_stanza, next_stanza, taken, drained, stop_impl}

-- Stanzas that are queued one behind the other.
abbrev pub queue_all : List XmlElement → XmppTask → XmppTask
queue_all [] t = t
queue_all (x ∷ xs) t = queue_all xs (queue_stanza x t).0

-- What n calls of NextStanza return.
abbrev pub reads : ℕ → XmppTask → List (Option XmlElement)
reads zero t = []
reads (suc n) t = let t1 = next_stanza t in t1.next ∷ reads n t1

queued :
    (xs : List XmlElement) (t : XmppTask) → (queue_all xs t).stanza_queue ≡ t.stanza_queue ++ xs
unfolding queue_stanza
queued [] t = sym (append-nil t.stanza_queue)
queued (x ∷ xs) t = queued xs (queue_stanza x t).0 ∙ append_assoc t.stanza_queue (x ∷ []) xs

reads_all :
    (q : List XmlElement) (t : XmppTask)
    → t.stanza_queue ≡ q
    → reads (suc (length q)) t ≡ map some q ++ none ∷ []
unfolding next_stanza
reads_all [] t e = rw e refl
reads_all (x ∷ q) t e =
    let u : XmppTask = record t { next = some x; stanza_queue = q } in
    let step : next_stanza t ≡ u = ap (λ k. taken k t) e in
    ap (λ v. v.next ∷ reads (suc (length q)) v) step ∙ ap (◌∷◌ (some x)) (reads_all q u refl)

drained_lem :
    (q : List XmlElement) (t : XmppTask)
    → t.stanza_queue ≡ q
    → (drained q t).has_client ≡ t.has_client
drained_lem [] t e = refl
drained_lem (x ∷ q) t e = drained_lem q (taken (x ∷ q) t) refl

drained_empty :
    (q : List XmlElement) (t : XmppTask)
    → t.stanza_queue ≡ q
    → ((drained q t).stanza_queue ≡ []) × ((drained q t).next ≡ none)
drained_empty [] t e = (e, refl)
drained_empty (x ∷ q) t e = drained_empty q (taken (x ∷ q) t) refl

-- The state that StopImpl leaves.
abbrev pub IsStopped : XmppTask → Type 0
IsStopped t = (t.has_client ≡ false) × (t.stanza_queue ≡ []) × (t.next ≡ none)

IsStopped-if :
    (b : Bool) (t : XmppTask) (calls : List ClientCall)
    → (b ≡ false → t.has_client ≡ false)
    → t.stanza_queue ≡ []
    → t.next ≡ none
    → let r : XmppTask × List ClientCall =
        if b then (record t { has_client = false }, calls) else (t, []) in
      IsStopped r.0
IsStopped-if true t calls h e n = (refl, e, n)
IsStopped-if false t calls h e n = (h refl, e, n)

stop_impl-IsStopped : (t : XmppTask) → IsStopped (stop_impl t).0
unfolding stop_impl
stop_impl-IsStopped t =
    let (a, b) = drained_empty t.stanza_queue t refl in
    IsStopped-if t.has_client (drained t.stanza_queue t) _
      (λ e. drained_lem t.stanza_queue t refl ∙ e) a b

stop_impl_calls : (t : XmppTask) → t.has_client ≡ false → (stop_impl t).1 ≡ []
unfolding stop_impl
stop_impl_calls t e = rw e refl

-- The stanzas that a task reads are those that were queued, in the order in which they were, and
-- then none; StopImpl leaves nothing in the queue and no client, and where it is called a second
-- time it calls nothing on the client.
pub next_stanza-queue_stanza :
    (xs : List XmlElement) (t : XmppTask)
    → (reads (suc (length (t.stanza_queue ++ xs))) (queue_all xs t)
        ≡ map some (t.stanza_queue ++ xs) ++ none ∷ [])
      × IsStopped (stop_impl (queue_all xs t)).0
      × ((stop_impl (stop_impl (queue_all xs t)).0).1 ≡ [])
next_stanza-queue_stanza xs t =
    let stopped = stop_impl-IsStopped (queue_all xs t) in
    (
      reads_all (t.stanza_queue ++ xs) (queue_all xs t) (queued xs t),
      stopped,
      stop_impl_calls (stop_impl (queue_all xs t)).0 stopped.0,
    )
