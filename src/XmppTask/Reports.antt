-- ===== src/XmppTask/Reports.antt =====
-- What a room lookup signals over any run (mucroomlookuptask.cc, task.cc).
use txmpp.Common.{ℕ, ◌+◌, ◌≤◌, Bool, true, not, ◌||◌, ◌≡◌, ◌⊎◌}
use txmpp.Jid.{Jid}
use txmpp.Tasks.Steps.{Steps}
use txmpp.Tasks.Stops.{once_if}
use txmpp.XmppTask.Handlers.{is_fine, is_troubled}

-- From the flags s to s', with n signals; d is whether Abort or Error has been called.
abbrev Goes : Steps → ℕ → Bool → Steps → Type 0
Goes s n d s' =
    (is_fine s' ≡ true)
    × (n + once_if s.done ≤ once_if s'.done)
    × ((n + once_if s.done ≡ once_if s'.done) ⊎ ((d || is_troubled s) ≡ true))
    × ((not (is_troubled s') || d || is_troubled s) ≡ true)
