-- ===== src/Clock/Compare.antt =====
-- The two implementations of the comparisons of times (time.cc).
use txmpp.Clock.{
  word, half, time_after, time_is_between, time_is_later_or_equal, time_is_later_or_equal_portable,
  time_is_later, time_is_later_portable, time_diff, time_diff_portable,
}
use txmpp.Common.{ℕ, ◌<◌, true, false, ◌≡◌, ◌⊎◌, arith}

-- The two implementations agree on any two times below 2 ^ 32: on the difference, on which is later,
-- and, but for two times that are half the range apart, on which is later or equal.
pub time_diff-portable :
    (earlier later : ℕ)
    → earlier < word
    → later < word
    → (time_diff later earlier ≡ time_diff_portable later earlier)
      × (time_is_later earlier later ≡ time_is_later_portable earlier later)
      × ((time_diff later earlier ≡ half)
          ⊎ (time_is_later_or_equal earlier later ≡ time_is_later_or_equal_portable earlier later))
unfolding time_diff time_diff_portable time_is_later time_is_later_portable time_is_later_or_equal
    time_is_later_or_equal_portable time_is_between
time_diff-portable earlier later he hl = (ground arith, ground arith, ground arith)

-- What is added to a time, if it is less than half the range, comes back as the difference; the sum
-- is later or equal, and the time is not later than it, across the wrap-around too.
pub time_diff-time_after :
    (now elapsed : ℕ)
    → now < word
    → elapsed < half
    → (time_diff (time_after now elapsed) now ≡ elapsed)
      × (time_is_later_or_equal now (time_after now elapsed) ≡ true)
      × (time_is_later (time_after now elapsed) now ≡ false)
unfolding time_diff time_after time_is_later_or_equal time_is_later
time_diff-time_after now elapsed h k = (ground arith, ground arith, ground arith)
