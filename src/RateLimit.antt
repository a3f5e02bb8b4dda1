-- ===== src/RateLimit.antt =====
-- RateLimitManager (ratelimitmanager.h, ratelimitmanager.cc). The current time is an argument; a
-- read or a write outside the buffer, and the remainder by 0, are none.
pub mod Window
use txmpp.Clock.{word, is_not_negative, time_diff}
use txmpp.Common.{
  ℕ, zero, suc, ◌+◌, ◌*◌, ◌%◌, Bool, true, false, not, ◌&&◌, ◌||◌, List, [], ◌∷◌, Option, none,
  some, Bytes, beq, ◌==◌, if◌then◌else◌, ◌>>=◌,
}

-- RateLimitManager::RateLimit
pub record Limit : Type 0 where
  pub counter : ℕ
  pub max_count : ℕ
  pub per_x_seconds : ℕ
  pub event_times : List ℕ

abbrev pub zeros : ℕ → List ℕ
zeros zero = []
zeros (suc n) = 0 ∷ zeros n

-- RateLimit::RateLimit
abbrev pub new_limit : ℕ → ℕ → Limit
new_limit max per_x_secs = record {
  counter = 0;
  max_count = max;
  per_x_seconds = per_x_secs;
  event_times = zeros max;
}

abbrev pub nth : ℕ → List ℕ → Option ℕ
nth n [] = none
nth zero (x ∷ xs) = some x
nth (suc n) (x ∷ xs) = nth n xs

abbrev pub set_nth : ℕ → ℕ → List ℕ → List ℕ
set_nth n y [] = []
set_nth zero y (x ∷ xs) = y ∷ xs
set_nth (suc n) y (x ∷ xs) = x ∷ set_nth n y xs

-- NextTimeAllowedForCounter, from PreviousTimeAtCounter.
abbrev pub next_time_allowed : Limit → ℕ → ℕ
next_time_allowed r previous = (previous + r.per_x_seconds * 1000) % word

-- RateLimit::IsWithinRateLimit
unfoldable pub is_within : ℕ → Limit → Option Bool
unfolding time_diff
is_within now r = nth r.counter r.event_times >>= λ previous.
    some (is_not_negative (time_diff now (next_time_allowed r previous)))

-- RateLimit::UpdateRateLimit
unfoldable pub update : ℕ → Limit → Option Limit
update now r =
    if r.max_count == 0
    then none
    else nth r.counter r.event_times >>= λ previous. some (record r {
      event_times = set_nth r.counter now r.event_times;
      counter = (r.counter + 1) % r.max_count;
    })

abbrev pub Manager : Type 0
Manager = List (Bytes × Limit)

-- GetRateLimit
unfoldable pub get_rate_limit : Bytes → Manager → Option Limit
get_rate_limit event_name [] = none
get_rate_limit event_name ((n, r) ∷ m) =
    if beq n event_name then some r else get_rate_limit event_name m

unfoldable pub set_rate_limit : Bytes → Limit → Manager → Manager
set_rate_limit event_name r [] = (event_name, r) ∷ []
set_rate_limit event_name r ((n, s) ∷ m) =
    if beq n event_name then (n, r) ∷ m else (n, s) ∷ set_rate_limit event_name r m

-- RateLimitManager::IsWithinRateLimit and UpdateRateLimit
unfoldable pub is_within_rate_limit : ℕ → Bytes → Manager → Option Bool
unfolding is_within get_rate_limit
is_within_rate_limit now event_name m = elim (get_rate_limit event_name m) [
  | none ↦ some true
  | some r ↦ is_within now r
]

abbrev limit_or_new : ℕ → ℕ → Option Limit → Limit
limit_or_new max_count per_x_seconds none = new_limit max_count per_x_seconds
limit_or_new max_count per_x_seconds (some r) = r

unfoldable pub update_rate_limit : ℕ → Bytes → ℕ → ℕ → Manager → Option Manager
unfolding update get_rate_limit set_rate_limit
update_rate_limit now event_name max_count per_x_seconds m =
    update now (limit_or_new max_count per_x_seconds (get_rate_limit event_name m)) >>= λ r.
    some (set_rate_limit event_name r m)

-- VerifyRateLimit
unfoldable pub verify_rate_limit : ℕ → Bytes → ℕ → ℕ → Bool → Manager → Option (Bool × Manager)
unfolding is_within_rate_limit update_rate_limit
verify_rate_limit now event_name max_count per_x_seconds always_update m =
    is_within_rate_limit now event_name m >>= λ within.
    if within || always_update
    then (update_rate_limit now event_name max_count per_x_seconds m >>= λ m'. some (within, m'))
    else some (within, m)
