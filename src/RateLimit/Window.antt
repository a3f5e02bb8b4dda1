-- ===== src/RateLimit/Window.antt =====
-- The ring buffer of a rate limit as the queue of its last events (ratelimitmanager.h).
use mathlib.Core.List.{append_assoc, append-nil}
use txmpp.Clock.{is_not_negative, time_diff}
use txmpp.Common.{
  ℕ, zero, suc, ◌+◌, ◌*◌, ◌%◌, ◌^◌, ◌<◌, false, leb, ◌≡◌, refl, ap, sym, subst, ◌∙◌, List, [], ◌∷◌,
  ◌++◌, some, length, take, drop, length-append, take-append_eq, drop-append, drop-append_next,
  ◌==◌, arith,
}
use txmpp.RateLimit.{Limit, new_limit, zeros, nth, set_nth, next_time_allowed, is_within, update}

-- The times of the last events, the oldest first.
abbrev pub recent : Limit → List ℕ
recent r = drop r.counter r.event_times ++ take r.counter r.event_times

pub data IsRing (r : Limit) : Type 0 where
  ring : length r.event_times ≡ r.max_count → r.counter < r.max_count → IsRing r

-- A list cut at one of its places.
abbrev CutAt : ℕ → List ℕ → Type 0
CutAt n xs = (a : List ℕ) × (x : ℕ) × (b : List ℕ) × (xs ≡ a ++ (x ∷ b)) × (length a ≡ n)

CutAt-lt : (n : ℕ) (xs : List ℕ) → n < length xs → CutAt n xs
CutAt-lt n [] h = absurd (omega arith)
CutAt-lt zero (x ∷ xs) h = ([], x, xs, refl, refl)
CutAt-lt (suc n) (x ∷ xs) h =
    let (a, y, b, e, k) = CutAt-lt n xs (omega arith) in (x ∷ a, y, b, ap (◌∷◌ x) e, ap suc k)

nth-append : (a : List ℕ) (x : ℕ) (b : List ℕ) → nth (length a) (a ++ (x ∷ b)) ≡ some x
nth-append [] x b = refl
nth-append (y ∷ a) x b = nth-append a x b

set_nth-append :
    (a : List ℕ) (x y : ℕ) (b : List ℕ) → set_nth (length a) y (a ++ (x ∷ b)) ≡ a ++ (y ∷ b)
set_nth-append [] x y b = refl
set_nth-append (z ∷ a) x y b = ap (◌∷◌ z) (set_nth-append a x y b)

length-zeros : (n : ℕ) → length (zeros n) ≡ n
length-zeros zero = refl
length-zeros (suc n) = ap suc (length-zeros n)

pub new_limit-IsRing : (max per : ℕ) → 0 < max → IsRing (new_limit max per)
new_limit-IsRing max per h = ring (length-zeros max) h

-- A limit that is cut where its counter stands.
abbrev cut_limit : ℕ → ℕ → List ℕ → ℕ → List ℕ → Limit
cut_limit max per a x b = record {
  counter = length a;
  max_count = max;
  per_x_seconds = per;
  event_times = a ++ (x ∷ b);
}

recent-cut :
    (max per : ℕ) (a : List ℕ) (x : ℕ) (b : List ℕ)
    → recent (cut_limit max per a x b) ≡ x ∷ (b ++ a)
recent-cut max per a x b = rw (drop-append a (x ∷ b), take-append_eq a (x ∷ b) refl) refl

-- Where the buffer goes round, and where it does not.
recent-wrap :
    (max per now : ℕ) (a : List ℕ)
    → recent (record {
      counter = 0;
      max_count = max;
      per_x_seconds = per;
      event_times = a ++ (now ∷ []);
    })
      ≡ a ++ now ∷ []
recent-wrap max per now a = append-nil (a ++ now ∷ [])

recent-next :
    (max per now : ℕ) (a b : List ℕ)
    → recent (record {
      counter = length a + 1;
      max_count = max;
      per_x_seconds = per;
      event_times = a ++ (now ∷ b);
    })
      ≡ (b ++ a) ++ now ∷ []
recent-next max per now a b =
    let counted : length a + 1 ≡ length (a ++ now ∷ []) =
      omega (arith, length-append a (now ∷ [])) in
    let front : take (length a + 1) (a ++ (now ∷ b)) ≡ a ++ now ∷ [] =
      ap (take (length a + 1)) (sym (append_assoc a (now ∷ []) b))
      ∙ take-append_eq (a ++ now ∷ []) b counted in
    rw (drop-append_next a now b, front) (sym (append_assoc b a (now ∷ [])))

-- What an operation promises of the queue of the last events.
abbrev Slides : ℕ → Limit → Type 0
Slides now r =
    (oldest : ℕ) × (others : List ℕ) × (r' : Limit) × (recent r ≡ oldest ∷ others)
    × (is_within now r ≡ some (is_not_negative (time_diff now (next_time_allowed r oldest))))
    × (update now r ≡ some r')
    × (recent r' ≡ others ++ now ∷ [])
    × IsRing r'

moved : ℕ → ℕ → List ℕ → ℕ → List ℕ → Limit
moved max per a now b = record {
  counter = (length a + 1) % max;
  max_count = max;
  per_x_seconds = per;
  event_times = a ++ (now ∷ b);
}

recent-moved :
    (max per now : ℕ) (a : List ℕ) (x : ℕ) (b : List ℕ)
    → length (a ++ (x ∷ b)) ≡ max
    → recent (moved max per a now b) ≡ (b ++ a) ++ now ∷ []
unfolding moved
recent-moved max per now a x [] size =
    let round : (length a + 1) % max ≡ 0 =
      subst (λ m. (length a + 1) % m ≡ 0) (sym (length-append a (x ∷ [])) ∙ size) (grind arith) in
    rw round (recent-wrap max per now a)
recent-moved max per now a x (z ∷ b) size =
    let longer = length-append a (x ∷ z ∷ b) in
    let on : (length a + 1) % max ≡ length a + 1 = grind arith in
    rw on (recent-next max per now a (z ∷ b))

Slides-cut :
    (max per now : ℕ) (a : List ℕ) (x : ℕ) (b : List ℕ)
    → length (a ++ (x ∷ b)) ≡ max
    → Slides now (cut_limit max per a x b)
unfolding is_within update
Slides-cut max per now a x b size =
    let longer = length-append a (x ∷ b) in
    let same : length (a ++ (now ∷ b)) ≡ max = omega (arith, longer, length-append a (now ∷ b)) in
    let some_room : (max == 0) ≡ false = ground arith in
    (
      x,
      b ++ a,
      moved max per a now b,
      recent-cut max per a x b,
      rw (nth-append a x b) refl,
      unfold moved in rw (some_room, nth-append a x b, set_nth-append a x now b) refl,
      recent-moved max per now a x b size,
      unfold moved in ring same (grind arith),
    )

queue-Slides : (now : ℕ) (r : Limit) → IsRing r → Slides now r
queue-Slides now r (ring size inside) =
    let (a, x, b, e, at) = CutAt-lt r.counter r.event_times (omega arith) in
    subst (λ c. Slides now (record r { counter = c })) at
      (subst (λ ts. Slides now (record r { counter = length a; event_times = ts })) (sym e)
        (Slides-cut r.max_count r.per_x_seconds now a x b (ap length (sym e) ∙ size)))

-- The wrapping times, by what has gone by.
elapsed-leb :
    (oldest elapsed wait : ℕ)
    → oldest < 2 ^ 32
    → elapsed < 2 ^ 31
    → wait < 2 ^ 31
    → is_not_negative (time_diff ((oldest + elapsed) % 2 ^ 32) ((oldest + wait) % 2 ^ 32))
      ≡ leb wait elapsed
unfolding time_diff
elapsed-leb oldest elapsed wait h k m = ground arith

-- Let the buffer of a rate limit have max_count places, with the counter at one of them, and let
-- `oldest` be the time of the oldest of the last max_count events and `others` those of the others,
-- in order. An event that comes `elapsed` milliseconds after the oldest is within the limit just if
-- 1000 times the given seconds have gone by, also where the 32-bit time has wrapped around; both
-- spans are shorter than half the range of the time. An update drops the oldest event and puts the
-- current time behind the others. Neither reads or writes outside the buffer.
pub update-is_within :
    (r : Limit) (oldest : ℕ) (others : List ℕ) (elapsed : ℕ)
    → IsRing r
    → recent r ≡ oldest ∷ others
    → oldest < 2 ^ 32
    → elapsed < 2 ^ 31
    → r.per_x_seconds * 1000 < 2 ^ 31
    → let now = (oldest + elapsed) % 2 ^ 32 in
      (is_within now r ≡ some (leb (r.per_x_seconds * 1000) elapsed))
      × (r' : Limit) × (update now r ≡ some r')
      × (recent r' ≡ others ++ now ∷ [])
      × IsRing r'
update-is_within r oldest others elapsed h e a b c =
    let (x, xs, r', e', within, done, slid, kept) =
      queue-Slides ((oldest + elapsed) % 2 ^ 32) r h in
    let first : x ≡ oldest = cc in
    let rest : xs ≡ others = cc in
    let now = (oldest + elapsed) % 2 ^ 32 in
    (
      within
          ∙ ap (λ o. some (is_not_negative (time_diff now (next_time_allowed r o)))) first
          ∙ ap some (elapsed-leb oldest elapsed (r.per_x_seconds * 1000) a b c),
      r',
      done,
      slid ∙ ap (λ l. l ++ now ∷ []) rest,
      kept,
    )
