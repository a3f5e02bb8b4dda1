-- ===== src/Tasks/Stops.antt =====
-- The flags of a task over any run of its operations (task.cc).
use txmpp.Common.{
  ℕ, suc, ◌+◌, Bool, true, false, not, ◌&&◌, ◌||◌, ◌≡◌, refl, ap, sym, ◌∙◌, ◌⊎◌, inl, inr, List, [],
  ◌∷◌, ◌++◌, Option, none, some, if◌then◌else◌, arith, Bool-cases,
}
use txmpp.Tasks.Steps.{
  Steps, Effect, stop, wake_tasks, reset_timeout, After, wake, signal_error, abort, SelfCall,
  calls_wake, calls_error, calls_abort, self_call, self_calls, after_process, process_step, step,
  Event, steps, aborts, wakes, errors, happens, run,
}

-- How often Stop is called.
abbrev pub stops : List Effect → ℕ
stops [] = 0
stops (stop ∷ es) = suc (stops es)
stops (wake_tasks ∷ es) = stops es
stops (reset_timeout ∷ es) = stops es

stops-append : (es fs : List Effect) → stops (es ++ fs) ≡ stops es + stops fs
stops-append [] fs = omega arith
stops-append (stop ∷ es) fs = omega (arith, stops-append es fs)
stops-append (wake_tasks ∷ es) fs = stops-append es fs
stops-append (reset_timeout ∷ es) fs = stops-append es fs

abbrev pub once_if : Bool → ℕ
once_if b = if b then 1 else 0

-- Between two operations: not in Process, blocked if done, done if aborted.
abbrev pub is_coherent : Steps → Bool
is_coherent t = not t.busy && (not t.done || t.blocked) && (not t.aborted || t.done)

-- In Process nothing is stopped.
abbrev Running : After → Type 0
Running (t, es) = (t.busy ≡ true) × (t.done ≡ false) × (stops es ≡ 0)

self_call-Running :
    (c : SelfCall) (t : Steps) → t.busy ≡ true → t.done ≡ false → Running (self_call c t)
unfolding self_call wake signal_error abort
self_call-Running calls_wake t b d = ground arith
self_call-Running calls_error t b d = ground arith
self_call-Running (calls_abort nowake) t b d = ground arith

self_calls-Running :
    (cs : List SelfCall) (t : Steps) → t.busy ≡ true → t.done ≡ false → Running (self_calls cs t)
unfolding self_calls
self_calls-Running [] t b d = (b, d, refl)
self_calls-Running (c ∷ cs) t b d =
    let (t1, es1) = self_call c t in
    let (b1, d1, s1) = self_call-Running c t b d in
    let (b2, d2, s2) = self_calls-Running cs t1 b1 d1 in
    (b2, d2, stops-append es1 (self_calls cs t1).1 ∙ omega arith)

-- An operation stops a task exactly where it becomes done, and leaves a task that is done alone.
abbrev pub Behaves : Steps → After → Type 0
Behaves t (t', es) =
    (is_coherent t' ≡ true)
    × (stops es + once_if t.done ≡ once_if t'.done)
    × ((t.done ≡ false)
        ⊎ ((t'.done ≡ true) × (t'.state ≡ t.state) × (t'.error ≡ t.error) × (es ≡ [])))

ends :
    (new_state : Option ℕ) (t : Steps)
    → t.busy ≡ false
    → t.done ≡ false
    → t.aborted ≡ false
    → Behaves t (after_process new_state t)
unfolding after_process
ends none t b d a = ground arith
ends (some s) t b d a = ground arith

aborts_now : (t : Steps) → t.busy ≡ false → t.done ≡ false → Behaves t (abort true t)
unfolding abort
aborts_now t b d = ground arith

Behaves-self_calls :
    (t idle : Steps) (es1 : List Effect) (r : After)
    → stops es1 ≡ 0
    → t.done ≡ false
    → idle.done ≡ false
    → Behaves idle r
    → Behaves t (r.0, es1 ++ r.1)
Behaves-self_calls t idle es1 r none_yet d d' (coherent, count, kept) =
    let zero_before : once_if t.done ≡ 0 = rw d refl in
    let zero_idle : once_if idle.done ≡ 0 = rw d' refl in
    let counted : stops (es1 ++ r.1) + once_if t.done ≡ once_if r.0.done =
      omega (arith, stops-append es1 r.1, none_yet, count, zero_before, zero_idle) in
    (coherent, counted, inl d)

coherent_calm : (t : Steps) → is_coherent t ≡ true → t.busy ≡ false
coherent_calm t h = ground arith

aborted_or : (b : Bool) → (not b || true) ≡ true
aborted_or true = refl
aborted_or false = refl

finishing-Behaves :
    (new_state : Option ℕ) (t : Steps) (b : Bool)
    → t.aborted ≡ b
    → t.busy ≡ false
    → t.done ≡ false
    → Behaves t (if b then abort true t else after_process new_state t)
finishing-Behaves new_state t true a calm going = aborts_now t calm going
finishing-Behaves new_state t false a calm going = ends new_state t calm going a

process_step-Behaves :
    (calls : List SelfCall) (new_state : Option ℕ) (t : Steps)
    → t.done ≡ false
    → Behaves t (process_step calls new_state t)
unfolding process_step
process_step-Behaves calls new_state t going =
    let (t1, es1) = self_calls calls (record t { busy = true }) in
    let (b1, d1, s1) = self_calls-Running calls (record t { busy = true }) refl going in
    let idle : Steps = record t1 { busy = false } in
    let r = if t1.aborted then abort true idle else after_process new_state idle in
    Behaves-self_calls t idle es1 r s1 going d1
      (finishing-Behaves new_state idle t1.aborted refl refl d1)

Behaves-if :
    (b : Bool) (t : Steps) (x y : After)
    → (b ≡ true → Behaves t x)
    → (b ≡ false → Behaves t y)
    → Behaves t (if b then x else y)
Behaves-if true t x y h k = h refl
Behaves-if false t x y h k = k refl

step-Behaves :
    (calls : List SelfCall) (new_state : Option ℕ) (t : Steps)
    → is_coherent t ≡ true
    → Behaves t (step calls new_state t)
unfolding step
step-Behaves calls new_state t h =
    let calm = coherent_calm t h in
    Behaves-if t.done t _ _
      (λ over. rw (over, calm) (aborted_or t.aborted, refl, inr (refl, refl, refl, refl)))
      (λ going.
        Behaves-if t.error t _ _ (λ failed. rw (going, calm) (aborted_or t.aborted, refl, inl refl))
          (λ fine. process_step-Behaves calls new_state t going))

pub happens-Behaves : (v : Event) (t : Steps) → is_coherent t ≡ true → Behaves t (happens v t)
unfolding happens abort wake signal_error
happens-Behaves (steps calls new_state) t h = step-Behaves calls new_state t h
happens-Behaves (aborts nowake) t h = ground arith
happens-Behaves wakes t h = ground arith
happens-Behaves errors t h = ground arith

abbrev Kept : Steps → After → Type 0
Kept t (t', es) =
    (t.done ≡ false) ⊎ ((t'.done ≡ true) × (t'.state ≡ t.state) × (t'.error ≡ t.error) × (es ≡ []))

Kept-none : (t : Steps) → Kept t (t, [])
Kept-none t = elim (Bool-cases t.done) [
  | inl over ↦ inr (over, refl, refl, refl)
  | inr going ↦ inl going
]

Kept-append :
    (t t1 t2 : Steps) (es1 es2 : List Effect)
    → Kept t (t1, es1)
    → Kept t1 (t2, es2)
    → Kept t (t2, es1 ++ es2)
Kept-append t t1 t2 es1 es2 (inl going) k = inl going
Kept-append t t1 t2 es1 es2 (inr (over, s, e, n)) (inl going) =
    absurd (let w : true ≡ false = sym over ∙ going in cc)
Kept-append t t1 t2 es1 es2 (inr (over, s, e, n)) (inr (over', s', e', n')) =
    inr (over', s' ∙ s, e' ∙ e, ap (λ es. es ++ es2) n ∙ n')

-- Let a task not be in Process, be blocked if it is done, and be done if it is aborted. Over any run
-- of steps, aborts, wakes and errors, whatever Process returns and calls on its own task, that stays
-- so, and Stop is called once if the task becomes done in the run and not at all otherwise. If it
-- was done before, the run changes neither state nor error and calls nothing.
pub run-Behaves : (vs : List Event) (t : Steps) → is_coherent t ≡ true → Behaves t (run vs t)
unfolding run
run-Behaves [] t h = (h, omega arith, Kept-none t)
run-Behaves (v ∷ vs) t h =
    let (t1, es1) = happens v t in
    let (h1, n1, k1) = happens-Behaves v t h in
    let (t2, es2) = run vs t1 in
    let (h2, n2, k2) = run-Behaves vs t1 h1 in
    (h2, omega (arith, stops-append es1 es2, n1, n2), Kept-append t t1 t2 es1 es2 k1 k2)
