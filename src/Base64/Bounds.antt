-- ===== src/Base64/Bounds.antt =====
-- The Base64 decoder on any input (base64.cc).
use txmpp.Base64.{
  DecodeFlags, ParseFlag, is_pad_no, is_parse_any, is_parse_strict, Quantum, no_quantum, ignored,
  take_value, decode_char, scan_on, scan_quantum, get_next_quantum, octets, ends_well, decode_loop,
  at_end, decode_from_array, pd, sp, il,
}
use txmpp.Common.{
  ℕ, zero, suc, ◌+◌, ◌≤◌, ◌<◌, Bool, true, false, not, ◌&&◌, ◌||◌, ◌≡◌, refl, ap, ◌⊎◌, inl, inr,
  List, [], ◌∷◌, ◌++◌, Option, none, some, Bytes, length, length-append, drop, ltb, leb, ◌==◌,
  if◌then◌else◌, arith, Bool-cases, ◌>>=◌,
}

-- What holds at dpos in the scan of a quantum that began at d: no more values than characters, and
-- pads only after them.
abbrev Pads : ℕ → ℕ → Quantum → Type 0
Pads d dpos q = (q.pad_len ≡ 0) ⊎ ((length q.qbuf + d ≤ q.pad_start) × (q.pad_start ≤ dpos))

abbrev Scanned : ℕ → ℕ → Quantum → Type 0
Scanned d dpos q = (length q.qbuf + d ≤ dpos) × (length q.qbuf ≤ 4) × Pads d dpos q

-- What a character does: end the scan, nothing, count as a pad, or give a value.
data Takes (dpos v : ℕ) (q : Quantum) : Option Quantum → Type 0 where
  stops : Takes dpos v q none
  ignores : Takes dpos v q (some q)
  pads : Takes dpos v q (
      some (record q {
        pad_len = q.pad_len + 1;
        pad_start = if q.pad_len == 0 then dpos else q.pad_start;
      }))
  gives : Takes dpos v q (some (record q { qbuf = q.qbuf ++ v ∷ []; pad_len = 0 }))

Takes-ignored : (f : ParseFlag) (dpos v : ℕ) (q : Quantum) → Takes dpos v q (ignored f q)
Takes-ignored f dpos v q = elim (Bool-cases (is_parse_any f)) [
  | inl any ↦ rw any ignores
  | inr other ↦ rw other stops
]

Takes-if :
    {dpos v : ℕ} {q : Quantum} {a b : Option Quantum} (c : Bool)
    → Takes dpos v q a
    → Takes dpos v q b
    → Takes dpos v q (if c then a else b)
Takes-if true h k = h
Takes-if false h k = k

Takes-take_value :
    (f : ParseFlag) (ip : Bool) (dpos v : ℕ) (q : Quantum)
    → Takes dpos v q (take_value f ip dpos v q)
unfolding take_value
Takes-take_value f ip dpos v q =
    let skipped = Takes-ignored f dpos v q in
    Takes-if (v == il || ip && v == pd) skipped (
      Takes-if (v == sp) (Takes-if (is_parse_strict f) stops ignores) (
        Takes-if (v == pd)
          (Takes-if (ltb (length q.qbuf) 2) skipped
            (Takes-if (leb 4 (length q.qbuf + q.pad_len)) skipped pads))
          (Takes-if (ltb 0 q.pad_len && not (is_parse_any f)) stops gives)))

Scanned-later : (d dpos : ℕ) (q : Quantum) → Scanned d dpos q → Scanned d (dpos + 1) q
Scanned-later d dpos q (few, four, inl none_yet) = (omega arith, four, inl none_yet)
Scanned-later d dpos q (few, four, inr (after, before)) =
    (omega arith, four, inr (after, omega arith))

Scanned-pad :
    (d dpos : ℕ) (q : Quantum) (b : Bool)
    → (q.pad_len == 0) ≡ b
    → Scanned d dpos q
    → Scanned d
        (dpos + 1)
        (record q { pad_len = q.pad_len + 1; pad_start = if b then dpos else q.pad_start })
Scanned-pad d dpos q true e (few, four, h) = (omega arith, four, inr (few, omega arith))
Scanned-pad d dpos q false e (few, four, inl none_yet) = absurd (ground arith)
Scanned-pad d dpos q false e (few, four, inr (after, before)) =
    (omega arith, four, inr (after, omega arith))

Scanned-give :
    (d dpos v : ℕ) (q : Quantum)
    → length q.qbuf < 4
    → Scanned d dpos q
    → Scanned d (dpos + 1) (record q { qbuf = q.qbuf ++ v ∷ []; pad_len = 0 })
Scanned-give d dpos v q short (few, four, h) =
    let longer = length-append q.qbuf (v ∷ []) in (omega arith, omega arith, inl refl)

-- A scan that ended within n characters, in order.
abbrev Ended : ℕ → ℕ → Quantum × ℕ → Type 0
Ended d n (q, dpos) = Scanned d dpos q × (dpos ≤ n)

Ended-scan_on :
    (d dpos v n : ℕ) (q : Quantum) {o : Option Quantum} (next : Quantum → Quantum × ℕ)
    → Takes dpos v q o
    → length q.qbuf < 4
    → dpos ≤ n
    → Scanned d dpos q
    → ((q1 : Quantum) → Scanned d (dpos + 1) q1 → Ended d n (next q1))
    → Ended d n (scan_on dpos q o next)
Ended-scan_on d dpos v n q next stops short le h rest = (h, le)
Ended-scan_on d dpos v n q next ignores short le h rest = rest q (Scanned-later d dpos q h)
Ended-scan_on d dpos v n q next pads short le h rest =
    rest _ (Scanned-pad d dpos q (q.pad_len == 0) refl h)
Ended-scan_on d dpos v n q next gives short le h rest = rest _ (Scanned-give d dpos v q short h)

Ended-if :
    (d n : ℕ) (c : Bool) (a b : Quantum × ℕ)
    → (c ≡ true → Ended d n a)
    → Ended d n b
    → Ended d n (if c then a else b)
Ended-if d n true a b h k = h refl
Ended-if d n false a b h k = k

-- The scan ends within the data, and its invariant holds there.
Ended-scan_quantum :
    (f : ParseFlag) (ip : Bool) (d n : ℕ) (str : Bytes) (dpos : ℕ) (q : Quantum)
    → Scanned d dpos q
    → dpos + length str ≤ n
    → Ended d n (scan_quantum f ip str dpos q)
unfolding scan_quantum
Ended-scan_quantum f ip d n [] dpos q h le = (h, omega arith)
Ended-scan_quantum f ip d n (ch ∷ str) dpos q h le =
    Ended-if d n (ltb (length q.qbuf) 4) _ (q, dpos)
      (λ short.
        Ended-scan_on d dpos (decode_char ch) n q (scan_quantum f ip str (dpos + 1))
          (Takes-take_value f ip dpos (decode_char ch) q) (ground arith) (omega arith) h
          (λ q1 h1. Ended-scan_quantum f ip d n str (dpos + 1) q1 h1 (omega arith)))
      (h, omega arith)

-- A quantum moves on by as many characters as it has values, at least.
abbrev Quantal : ℕ → ℕ → List ℕ × Bool × ℕ → Type 0
Quantal d n (qbuf, padded, dpos) = (length qbuf + d ≤ dpos) × (length qbuf ≤ 4) × (dpos ≤ n)

length-drop : (d : ℕ) (xs : Bytes) → d ≤ length xs → d + length (drop d xs) ≡ length xs
length-drop zero xs h = omega arith
length-drop (suc d) [] h = absurd (omega arith)
length-drop (suc d) (x ∷ xs) h = omega (arith, length-drop d xs (omega arith))

rolled_back :
    (d dpos n : ℕ) (q : Quantum) (b : Bool)
    → (q.pad_len == 0) ≡ b
    → Ended d n (q, dpos)
    → Quantal d n (q.qbuf, false, if not b then q.pad_start else dpos)
rolled_back d dpos n q true e ((few, four, h), inside) = (few, four, inside)
rolled_back d dpos n q false e ((few, four, inl none_yet), inside) = absurd (ground arith)
rolled_back d dpos n q false e ((few, four, inr (after, before)), inside) =
    (after, four, omega arith)

Quantal-get_next_quantum :
    (f : ParseFlag) (ip : Bool) (str : Bytes) (d : ℕ)
    → d ≤ length str
    → Quantal d (length str) (get_next_quantum f ip str d)
unfolding get_next_quantum
Quantal-get_next_quantum f ip str d le =
    let size = length-drop d str le in
    let (q, dpos) = scan_quantum f ip (drop d str) d no_quantum in
    let ended : Ended d (length str) (q, dpos) =
      Ended-scan_quantum f ip d (length str) (drop d str) d no_quantum
        (omega arith, omega arith, inl refl) (omega arith) in
    elim (Bool-cases (length q.qbuf + q.pad_len == 4)) [
      | inl padded ↦ rw padded (ended.0.0, ended.0.1, ended.1)
      | inr short ↦ rw short (rolled_back d dpos (length str) q (q.pad_len == 0) refl ended)
    ]

length-octets : (qbuf : List ℕ) → length (octets qbuf).0 ≤ length qbuf
unfolding octets
length-octets [] = omega arith
length-octets (q0 ∷ []) = omega arith
length-octets (q0 ∷ q1 ∷ []) = omega arith
length-octets (q0 ∷ q1 ∷ q2 ∷ []) = omega arith
length-octets (q0 ∷ q1 ∷ q2 ∷ q3 ∷ qs) = omega arith

-- What the decoder comes to, in bounds.
abbrev Decodes : ℕ → Option (Bool × Bytes × ℕ) → Type 0
Decodes n o =
    (ok : Bool) × (result : Bytes) × (used : ℕ) × (o ≡ some (ok, result, used))
    × (length result ≤ used)
    × (used ≤ n)

Decodes-decode_loop :
    (n : ℕ) (flags : DecodeFlags) (str : Bytes) (d : ℕ) (result : Bytes)
    → length result ≤ d
    → d ≤ length str
    → length str ≤ d + n
    → Decodes (length str) (decode_loop n flags str d result)
unfolding decode_loop
Decodes-decode_loop zero flags str d result small inside fuel =
    (true, result, d, ground arith, small, inside)
Decodes-decode_loop (suc n) flags str d result small inside fuel =
    let (qbuf, padded, d') = get_next_quantum flags.parse_flags (is_pad_no flags.pad_flags) str d in
    let (few, four, inside') =
      Quantal-get_next_quantum flags.parse_flags (is_pad_no flags.pad_flags) str d inside in
    let (more, c) = octets qbuf in
    let grown = length-append result more in
    let made = length-octets qbuf in
    elim (Bool-cases (ltb d (length str))) [
      | inl on ↦ elim (Bool-cases (ltb (length qbuf) 4)) [
        | inl last ↦
            (ends_well flags padded c, result ++ more, d', rw (on, last) refl, omega arith, inside')
        | inr whole ↦
            let full : 4 ≤ length qbuf = ground arith in
            let (ok, result', used, ran, rest1, rest2) =
              Decodes-decode_loop n flags str d' (result ++ more) (omega arith) inside'
                (omega arith) in
            (ok, result', used, rw (on, whole) ran, rest1, rest2)
      ]
      | inr over ↦ (true, result, d, rw over refl, small, inside)
    ]

-- The decoder comes to an end on any input, with any flags. It reads no character past the end,
-- and makes no more bytes than it has used characters: the room it reserves is enough.
pub decode_from_array_bounds :
    (flags : DecodeFlags) (str : Bytes)
    → (ok : Bool) × (result : Bytes) × (used : ℕ) × (decode_from_array flags str
        ≡ some (ok, result, used))
      × (length result ≤ used)
      × (used ≤ length str)
unfolding decode_from_array
decode_from_array_bounds flags str =
    let (ok, result, used, ran, rest1, rest2) =
      Decodes-decode_loop (length str) flags str 0 [] (omega arith) (omega arith) (omega arith) in
    let (ok', result', used') = at_end flags str (ok, result, used) in
    (ok', result', used', ap (λ m. m >>= λ r. some (at_end flags str r)) ran, rest1, rest2)
