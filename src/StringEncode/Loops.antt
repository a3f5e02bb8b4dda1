-- ===== src/StringEncode/Loops.antt =====
-- The two loops of the string encodings (stringencode.cc), for any pieces and any reading of them.
use txmpp.Common.{
  ℕ, zero, suc, ◌+◌, ◌*◌, ◌≤◌, ◌<◌, Bool, true, false, ◌≡◌, refl, ap, inl, inr, [], ◌∷◌, ◌++◌,
  Bytes, length, length-append, ltb, leb, arith, Bool-cases, AllTrue, nil, cons,
}
use txmpp.StringEncode.{put_all, get_all}

-- A text that begins another.
abbrev pub Begins : Bytes → Bytes → Type 0
Begins a s = (rest : Bytes) × (s ≡ a ++ rest)

-- A piece is read back: it has a first character, from which the reading gives the character of
-- the piece, and it steps over the rest of the piece.
pub record Reads (piece : ℕ → Bytes) (reading : ℕ → Bytes → ℕ × ℕ) (ch : ℕ) : Type 0 where
  pub first : ℕ
  pub behind : Bytes
  pub splits : piece ch ≡ first ∷ behind
  pub reads : (rest : Bytes) → reading first (behind ++ rest) ≡ (ch, length behind)

pub put_all_bounds :
    (piece : ℕ → Bytes) (m a : ℕ) (s : Bytes) → a < m → a + length (put_all piece m a s) < m
unfolding put_all
put_all_bounds piece m a [] lt = omega arith
put_all_bounds piece m a (ch ∷ s) lt = elim (Bool-cases (leb m (a + length (piece ch)))) [
  | inl e ↦ ground arith
  | inr e ↦ elim (Bool-cases (ltb (a + 1) m)) [
    | inl g ↦
        let ih = put_all_bounds piece m (a + length (piece ch)) s (ground arith) in
        rw (g, e, length-append) (omega (arith, ih))
    | inr g ↦ rw g (omega arith)
  ]
]

pub get_all_bounds :
    (reading : ℕ → Bytes → ℕ × ℕ) (m a skip : ℕ) (s : Bytes)
    → a < m
    → a + length (get_all reading m a skip s) < m
unfolding get_all
get_all_bounds reading m a skip [] lt = omega arith
get_all_bounds reading m a (suc skip) (ch ∷ s) lt = get_all_bounds reading m a skip s lt
get_all_bounds reading m a zero (ch ∷ s) lt = elim (Bool-cases (ltb (a + 1) m)) [
  | inl g ↦
      let ih = get_all_bounds reading m (a + 1) (reading ch s).1 s (ground arith) in
      rw g (omega (arith, ih))
  | inr g ↦ rw g (omega arith)
]

get_all-skip :
    (reading : ℕ → Bytes → ℕ × ℕ) (n b : ℕ) (p s : Bytes)
    → get_all reading n b (length p) (p ++ s) ≡ get_all reading n b 0 s
unfolding get_all
get_all-skip reading n b [] s = refl
get_all-skip reading n b (x ∷ p) s = get_all-skip reading n b p s

get_all-piece :
    {piece : ℕ → Bytes} {reading : ℕ → Bytes → ℕ × ℕ} {ch : ℕ} (n b : ℕ) (s : Bytes)
    → Reads piece reading ch
    → b + 1 < n
    → get_all reading n b 0 (piece ch ++ s) ≡ ch ∷ get_all reading n (b + 1) 0 s
unfolding get_all
get_all-piece {reading = reading} n b s r lt =
    let room : ltb (b + 1) n ≡ true = ground arith in
    rw (r.splits, r.reads s, room, get_all-skip reading n (b + 1) r.behind s) refl

Reads-nonempty :
    {piece : ℕ → Bytes} {reading : ℕ → Bytes → ℕ × ℕ} {ch : ℕ}
    → Reads piece reading ch
    → 1 ≤ length (piece ch)
Reads-nonempty r = rw r.splits (omega arith)

-- The loop of a decoder reads the pieces back, up to where the loop of the encoder stopped.
module _ (piece : ℕ → Bytes) (reading : ℕ → Bytes → ℕ × ℕ) (p : ℕ → Bool)
    (back : (ch : ℕ) → p ch ≡ true → Reads piece reading ch) where
  pub get_all-put_all :
      {n m : ℕ} (a b : ℕ) {s : Bytes}
      → AllTrue p s
      → b ≤ a
      → m ≤ n
      → Begins (get_all reading n b 0 (put_all piece m a s)) s
  unfolding put_all get_all
  get_all-put_all a b nil le ge = ([], refl)
  get_all-put_all {n} {m} a b (cons {x} {xs} h t) le ge = elim (Bool-cases (ltb (a + 1) m)) [
    | inr g ↦ rw g (x ∷ xs, refl)
    | inl g ↦ elim (Bool-cases (leb m (a + length (piece x)))) [
      | inl e ↦ rw (g, e) (x ∷ xs, refl)
      | inr e ↦
          let big = Reads-nonempty (back x h) in
          let more =
            get_all-put_all {n = n} {m = m} (a + length (piece x)) (b + 1) t
              (omega (arith, big, le)) ge in
          let step =
            get_all-piece n b (put_all piece m (a + length (piece x)) xs) (back x h)
              (ground arith) in
          rw (g, e, step) (more.0, ap (◌∷◌ x) more.1)
    ]
  ]

  -- With room for k characters for each of the text it does not stop.
  pub get_all-put_all_whole :
      (k : ℕ)
      → ((ch : ℕ) → length (piece ch) ≤ k)
      → {n m : ℕ} (a b : ℕ) {s : Bytes} → AllTrue p s
      → b ≤ a
      → m ≤ n
      → a + k * length s < m
      → get_all reading n b 0 (put_all piece m a s) ≡ s
  unfolding put_all get_all
  get_all-put_all_whole k small a b nil le ge lt = refl
  get_all-put_all_whole k small {n} {m} a b (cons {x} {xs} h t) le ge lt =
      let big = Reads-nonempty (back x h) in
      let less = small x in
      let room : a + length (piece x) + k * length xs < m = omega (arith, lt, less) in
      let g : ltb (a + 1) m ≡ true = ground (arith, room, big) in
      let e : leb m (a + length (piece x)) ≡ false = ground (arith, room) in
      let more =
        get_all-put_all_whole k small {n = n} {m = m} (a + length (piece x)) (b + 1) t
          (omega (arith, big, le)) ge room in
      let step =
        get_all-piece n b (put_all piece m (a + length (piece x)) xs) (back x h)
          (ground (arith, g)) in
      rw (g, e, step) (ap (◌∷◌ x) more)
