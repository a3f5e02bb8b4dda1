-- ===== src/Clock.antt =====
-- The arithmetic of times (time.h, time.cc). A uint32 is a number below 2 ^ 32, with its
-- wrap-around; an int32 is its bit pattern, negative from 2 ^ 31 on. The file has two
-- implementations of the comparisons, of which EFFICIENT_IMPLEMENTATION takes the first; the
-- others are those with _portable.
pub mod Compare
use txmpp.Common.{
  ℕ, suc, ◌+◌, ◌-◌, ◌%◌, ◌^◌, Bool, true, false, not, ◌&&◌, ltb, leb, ◌==◌, if◌then◌else◌,
}

abbrev pub word : ℕ
word = 2 ^ 32

abbrev pub half : ℕ
half = 0x80000000

abbrev pub last : ℕ
last = 0xffffffff

abbrev pub sub32 : ℕ → ℕ → ℕ
sub32 a b = (a + word - b) % word

abbrev pub is_not_negative : ℕ → Bool
is_not_negative d = ltb d half

-- TimeAfter, from the current time.
unfoldable pub time_after : ℕ → ℕ → ℕ
time_after now elapsed = (now + elapsed) % word

unfoldable pub time_is_between : ℕ → ℕ → ℕ → Bool
time_is_between earlier middle later =
    if leb earlier later
    then leb earlier middle && leb middle later
    else not (ltb later middle && ltb middle earlier)

unfoldable pub time_is_later_or_equal : ℕ → ℕ → Bool
time_is_later_or_equal earlier later =
    let diff = sub32 later earlier in is_not_negative diff && ltb diff half

unfoldable pub time_is_later_or_equal_portable : ℕ → ℕ → Bool
unfolding time_is_between
time_is_later_or_equal_portable earlier later =
    time_is_between earlier later ((earlier + half) % word)

unfoldable pub time_is_later : ℕ → ℕ → Bool
time_is_later earlier later =
    let diff = sub32 later earlier in is_not_negative diff && not (diff == 0) && ltb diff half

unfoldable pub time_is_later_portable : ℕ → ℕ → Bool
unfolding time_is_between
time_is_later_portable earlier later = not (time_is_between later earlier ((later + half) % word))

unfoldable pub time_diff : ℕ → ℕ → ℕ
time_diff later earlier = sub32 later earlier

-- The results are of type long, and made an int32.
abbrev pub negated : ℕ → ℕ
negated x = sub32 0 x

unfoldable pub time_diff_portable : ℕ → ℕ → ℕ
unfolding time_is_between
time_diff_portable later earlier =
    if time_is_between earlier later ((earlier + half) % word)
    then (if leb earlier later then later - earlier else (later + (last - earlier) + 1) % word)
    else if leb later earlier
    then negated (earlier - later)
    else negated ((earlier + (last - later) + 1) % word)
