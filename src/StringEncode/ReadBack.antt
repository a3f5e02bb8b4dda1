-- ===== src/StringEncode/ReadBack.antt =====
-- What xml_decode makes of pieces that it knows (stringencode.cc).
use mathlib.Core.Option
use txmpp.Common.{
  ℕ, ◌+◌, ◌-◌, ◌*◌, ◌≤◌, ◌<◌, Bool, true, List, [], ◌∷◌, ◌++◌, Option, some, Bytes, length, ltb,
  leb, arith, ◌≡◌, refl, ap, subst, ◌∙◌, ◌⊎◌, inl, inr, Bool-cases, AllTrue, nil, cons,
}
use txmpp.StringEncode.{put_all}
use txmpp.StringEncode.Entities.{Strtoul, xml_read, xml_loop, terminated}

-- The texts of a list of characters.
abbrev pub texts : (ℕ → Bytes) → List ℕ → Bytes
texts text [] = []
texts text (v ∷ cs) = text v ++ texts text cs

-- A piece is read back as the text of its character, wherever it fits itself.
pub record ReadsBack (strtoul : Strtoul) (piece text : ℕ → Bytes) (v : ℕ) : Type 0 where
  pub first : ℕ
  pub behind : Bytes
  pub splits : piece v ≡ first ∷ behind
  pub reads :
      (room : ℕ) (rest : Bytes)
      → length (piece v) ≤ room
      → xml_read strtoul room first (behind ++ rest) ≡ some (text v, length behind)
  pub shrinks : length (text v) ≤ length (piece v)

-- What comes back of the characters cs: the texts of those at the front, and all of them if size
-- is over k for each.
pub record Restored (text : ℕ → Bytes) (size k : ℕ) (cs : List ℕ) (result : Option Bytes)
    : Type 0 where
  pub done : List ℕ
  pub left : List ℕ
  pub parts : cs ≡ done ++ left
  pub restores : result ≡ some (texts text done)
  pub whole : (size ≤ k * length cs) ⊎ (left ≡ [])

module _ (strtoul : Strtoul) (piece text : ℕ → Bytes) (p : ℕ → Bool)
    (back : (v : ℕ) → p v ≡ true → ReadsBack strtoul piece text v) where
  xml_loop_skip :
      (n b : ℕ) (front s : Bytes)
      → xml_loop strtoul n b (length front) (front ++ s) ≡ xml_loop strtoul n b 0 s
  unfolding xml_loop
  xml_loop_skip n b [] s = refl
  xml_loop_skip n b (x ∷ front) s = xml_loop_skip n b front s

  xml_loop_step :
      (n b ch : ℕ) (s out : Bytes) (k : ℕ)
      → ltb (b + 1) n ≡ true
      → xml_read strtoul (n - b) ch s ≡ some (out, k)
      → xml_loop strtoul n b 0 (ch ∷ s)
        ≡ Option.map (◌++◌ out) (xml_loop strtoul n (b + length out) k s)
  unfolding xml_loop
  xml_loop_step n b ch s out k room e = rw (xml_loop, room, e) refl

  xml_loop-piece :
      (n b : ℕ) {v : ℕ} (s : Bytes)
      → ReadsBack strtoul piece text v
      → b + 1 < n
      → b + length (piece v) < n
      → xml_loop strtoul n b 0 (piece v ++ s)
        ≡ Option.map (◌++◌ (text v)) (xml_loop strtoul n (b + length (text v)) 0 s)
  xml_loop-piece n b {v} s r lt fits = rw r.splits (
      xml_loop_step n b r.first (r.behind ++ s) (text v) (length r.behind) (ground arith)
        (r.reads (n - b) s (omega (arith, fits)))
      ∙ ap (Option.map (◌++◌ (text v))) (xml_loop_skip n (b + length (text v)) r.behind s))

  stopped :
      (k n a b v : ℕ) (cs : List ℕ)
      → n - a ≤ k
      → b < n
      → Restored text (n - a) k (v ∷ cs) (terminated n b)
  unfolding terminated
  stopped k n a b v cs few lt = record {
    done = [];
    left = v ∷ cs;
    parts = refl;
    restores = ground arith;
    whole = inl (omega (arith, few));
  }

  nonempty : {v : ℕ} → ReadsBack strtoul piece text v → 1 ≤ length (piece v)
  nonempty r = rw r.splits (omega arith)

  longer :
      {k size size' v : ℕ} {cs : List ℕ} {result : Option Bytes}
      → Restored text size' k cs result
      → size ≤ k + size'
      → Restored text size k (v ∷ cs) (Option.map (◌++◌ (text v)) result)
  longer {k} {size} {v = v} {cs = cs} r few = record {
    done = v ∷ r.done;
    left = r.left;
    parts = ap (◌∷◌ v) r.parts;
    restores = rw r.restores refl;
    whole = elim r.whole [ inl h ↦ inl (omega (arith, h, few)) | inr h ↦ inr h ];
  }

  xml_loop-put_all :
      (k : ℕ)
      → ((v : ℕ) → p v ≡ true → length (piece v) ≤ k)
      → (n a b : ℕ) {cs : List ℕ} → AllTrue p cs
      → b ≤ a
      → a < n
      → Restored text (n - a) k cs (xml_loop strtoul n b 0 (put_all piece n a cs))
  unfolding put_all xml_loop terminated
  xml_loop-put_all k small n a b nil le lt = record {
    done = [];
    left = [];
    parts = refl;
    restores = ground arith;
    whole = inr refl;
  }
  xml_loop-put_all k small n a b (cons {x = v} {xs = cs} h t) le lt =
      let r = back v h in
      let big = nonempty r in
      let less = small v h in
      elim (Bool-cases (ltb (a + 1) n)) [
        | inr g ↦ rw g (stopped k n a b v cs (ground (arith, g, big, less)) (omega (arith, le, lt)))
        | inl g ↦ elim (Bool-cases (leb n (a + length (piece v)))) [
          | inl e ↦
              rw (g, e) (stopped k n a b v cs (ground (arith, e, less)) (omega (arith, le, lt)))
          | inr e ↦
              let fits : a + length (piece v) < n = ground (arith, e) in
              let shrinks = r.shrinks in
              let more =
                xml_loop-put_all k small n (a + length (piece v)) (b + length (text v)) t
                  (omega (arith, le, shrinks)) fits in
              let step =
                xml_loop-piece n b (put_all piece n (a + length (piece v)) cs) r
                  (ground (arith, g, le)) (omega (arith, le, fits)) in
              rw (g, e, step) (longer more (omega (arith, less)))
        ]
      ]

  -- With one buffer length for both.
  pub xml_loop_all :
      (k : ℕ)
      → ((v : ℕ) → p v ≡ true → length (piece v) ≤ k)
      → (n : ℕ) {cs : List ℕ} → AllTrue p cs
      → 0 < n
      → Restored text n k cs (xml_loop strtoul n 0 0 (put_all piece n 0 cs))
  xml_loop_all k small n {cs} h lt =
      let same : n - 0 ≡ n = omega arith in
      subst (λ z. Restored text z k cs (xml_loop strtoul n 0 0 (put_all piece n 0 cs))) same
        (xml_loop-put_all k small n 0 0 h (omega arith) lt)
