-- ===== src/Tests/Limits.antt =====
-- Times and rate limits (time.cc, ratelimitmanager.h).
use txmpp.Clock.{
  half, time_diff, time_diff_portable, time_is_later, time_is_later_portable,
  time_is_later_or_equal, time_is_later_or_equal_portable,
}
use txmpp.Clock.Compare.{time_diff-portable}
use txmpp.Common.{true, false, ◌≡◌, refl, ◌⊎◌, [], ◌∷◌, some, codes, arith, beq, leb}
use txmpp.RateLimit.{is_within, Limit, new_limit, update, verify_rate_limit}
use txmpp.RateLimit.Window.{recent, IsRing, ring, update-is_within}

time_diff-portable_example :
    (time_diff 5 0xffff_fff0 ≡ time_diff_portable 5 0xffff_fff0)
    × (time_is_later 0xffff_fff0 5 ≡ time_is_later_portable 0xffff_fff0 5)
    × ((time_diff 5 0xffff_fff0 ≡ half)
        ⊎ (time_is_later_or_equal 0xffff_fff0 5 ≡ time_is_later_or_equal_portable 0xffff_fff0 5))
time_diff-portable_example = time_diff-portable 0xffff_fff0 5 (omega arith) (omega arith)

-- Half the range apart, each of two times is later or equal by one implementation, neither by the
-- other.
half_apart :
    (time_is_later_or_equal 0 half ≡ false) × (time_is_later_or_equal_portable 0 half ≡ true)
unfolding time_is_later_or_equal time_is_later_or_equal_portable
half_apart = (refl, refl)

-- Two events in ten seconds, the second of them at 1000.
abbrev crowded : Limit
crowded = record { counter = 1; max_count = 2; per_x_seconds = 10; event_times = 1000 ∷ 500 ∷ [] }

-- A second after the event at 500, which is the oldest.
update-is_within_example :
    (is_within 1500 crowded ≡ some (leb 10_000 1000))
    × (r' : Limit) × (update 1500 crowded ≡ some r')
    × (recent r' ≡ 1000 ∷ 1500 ∷ [])
    × IsRing r'
update-is_within_example =
    update-is_within crowded 500 (1000 ∷ []) 1000 (ring refl (omega arith)) refl (omega arith)
      (omega arith) (omega arith)

refused :
    verify_rate_limit 2000 (codes "song") 2 10 false ((codes "song", crowded) ∷ [])
    ≡ some (false, (codes "song", crowded) ∷ [])
unfolding verify_rate_limit beq
refused = refl

-- Of two events in ten seconds the second is refused for the zeros that the buffer begins with,
-- if the time stands in the upper half of its range.
second_refused :
    (update 0x9000_0000 (new_limit 2 10)
      ≡ some (record (new_limit 2 10) { counter = 1; event_times = 0x9000_0000 ∷ 0 ∷ [] }))
    × (is_within 0x9000_2000
          (record (new_limit 2 10) { counter = 1; event_times = 0x9000_0000 ∷ 0 ∷ [] })
        ≡ some false)
unfolding update is_within
second_refused = (refl, refl)
