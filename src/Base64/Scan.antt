-- ===== src/Base64/Scan.antt =====
-- One quantum of the Base64 decoder (base64.cc: GetNextQuantum).
use txmpp.Base64.{
  base64_char, decode_char, k_pad, ParseFlag, Quantum, no_quantum, take_value, scan_quantum,
  get_next_quantum,
}
use txmpp.Base64.Tables.{decode_char-base64_char}
use txmpp.Common.{
  ℕ, ◌+◌, ◌≤◌, ◌<◌, Bool, true, false, ◌≡◌, refl, ap, ◌∙◌, [], ◌∷◌, ◌++◌, some, Bytes, length, drop,
  ◌==◌, if◌then◌else◌, arith,
}

take_value-sextet :
    (f : ParseFlag) (ip : Bool) (d v : ℕ) (q : Quantum)
    → v < 64
    → q.pad_len ≡ 0
    → take_value f ip d v q ≡ some (record q { qbuf = q.qbuf ++ v ∷ []; pad_len = 0 })
unfolding take_value
take_value-sextet f ip d v q h calm = ground arith

-- The loop takes a character of the alphabet.
scan_sextet :
    (f : ParseFlag) (ip : Bool) (d v : ℕ) (q : Quantum) (rest : Bytes)
    → v < 64
    → length q.qbuf < 4
    → q.pad_len ≡ 0
    → scan_quantum f ip (base64_char v ∷ rest) d q
      ≡ scan_quantum f ip rest (d + 1) (record q { qbuf = q.qbuf ++ v ∷ []; pad_len = 0 })
unfolding scan_quantum
scan_sextet f ip d v q rest h short calm =
    rw (decode_char-base64_char v h) (rw (take_value-sextet f ip d v q h calm) (ground arith))

-- The loop takes a pad, from the third character on.
scan_pad :
    (f : ParseFlag) (d : ℕ) (q : Quantum) (rest : Bytes)
    → 2 ≤ length q.qbuf
    → length q.qbuf + q.pad_len < 4
    → scan_quantum f false (k_pad ∷ rest) d q
      ≡ scan_quantum f false rest (d + 1) (record q {
        pad_len = q.pad_len + 1;
        pad_start = if q.pad_len == 0 then d else q.pad_start;
      })
unfolding scan_quantum decode_char take_value
scan_pad f d q rest two room = ground arith

scan_stop :
    (f : ParseFlag) (ip : Bool) (d : ℕ) (q : Quantum) (rest : Bytes)
    → length q.qbuf ≡ 4
    → scan_quantum f ip rest d q ≡ (q, d)
unfolding scan_quantum
scan_stop f ip d q [] h = refl
scan_stop f ip d q (ch ∷ rest) h = rw h refl

-- Whole quanta: four characters of the alphabet, or two or three and the pads.
pub get_next_quantum_four :
    (f : ParseFlag) (ip : Bool) (str : Bytes) (d : ℕ) (v0 v1 v2 v3 : ℕ) (rest : Bytes)
    → drop d str ≡ base64_char v0 ∷ base64_char v1 ∷ base64_char v2 ∷ base64_char v3 ∷ rest
    → v0 < 64
    → v1 < 64
    → v2 < 64
    → v3 < 64
    → get_next_quantum f ip str d ≡ (v0 ∷ v1 ∷ v2 ∷ v3 ∷ [], true, d + 4)
unfolding get_next_quantum
get_next_quantum_four f ip str d v0 v1 v2 v3 rest e h0 h1 h2 h3 =
    let full = record no_quantum { qbuf = v0 ∷ v1 ∷ v2 ∷ v3 ∷ [] } in
    let scanned : scan_quantum f ip (drop d str) d no_quantum ≡ (full, d + 1 + 1 + 1 + 1) =
      ap (λ s. scan_quantum f ip s d no_quantum) e
      ∙ scan_sextet f ip d v0 no_quantum (base64_char v1 ∷ base64_char v2 ∷ base64_char v3 ∷ rest)
          h0 (omega arith) refl
      ∙ scan_sextet f ip (d + 1) v1 (record no_quantum { qbuf = v0 ∷ [] })
          (base64_char v2 ∷ base64_char v3 ∷ rest) h1 (omega arith) refl
      ∙ scan_sextet f ip (d + 1 + 1) v2 (record no_quantum { qbuf = v0 ∷ v1 ∷ [] })
          (base64_char v3 ∷ rest) h2 (omega arith) refl
      ∙ scan_sextet f ip (d + 1 + 1 + 1) v3 (record no_quantum { qbuf = v0 ∷ v1 ∷ v2 ∷ [] }) rest h3
          (omega arith) refl
      ∙ scan_stop f ip (d + 1 + 1 + 1 + 1) full rest refl in
    let last : d + 1 + 1 + 1 + 1 ≡ d + 4 = omega arith in
    rw scanned (ap (λ n. (v0 ∷ v1 ∷ v2 ∷ v3 ∷ [], true, n)) last)

pub get_next_quantum_three :
    (f : ParseFlag) (str : Bytes) (d : ℕ) (v0 v1 v2 : ℕ)
    → drop d str ≡ base64_char v0 ∷ base64_char v1 ∷ base64_char v2 ∷ k_pad ∷ []
    → v0 < 64
    → v1 < 64
    → v2 < 64
    → get_next_quantum f false str d ≡ (v0 ∷ v1 ∷ v2 ∷ [], true, d + 4)
unfolding get_next_quantum
get_next_quantum_three f str d v0 v1 v2 e h0 h1 h2 =
    let three = record no_quantum { qbuf = v0 ∷ v1 ∷ v2 ∷ [] } in
    let full = record three { pad_len = 1; pad_start = d + 1 + 1 + 1 } in
    let scanned : scan_quantum f false (drop d str) d no_quantum ≡ (full, d + 1 + 1 + 1 + 1) =
      ap (λ s. scan_quantum f false s d no_quantum) e
      ∙ scan_sextet f false d v0 no_quantum (base64_char v1 ∷ base64_char v2 ∷ k_pad ∷ []) h0
          (omega arith) refl
      ∙ scan_sextet f false (d + 1) v1 (record no_quantum { qbuf = v0 ∷ [] })
          (base64_char v2 ∷ k_pad ∷ []) h1 (omega arith) refl
      ∙ scan_sextet f false (d + 1 + 1) v2 (record no_quantum { qbuf = v0 ∷ v1 ∷ [] }) (k_pad ∷ [])
          h2 (omega arith) refl
      ∙ scan_pad f (d + 1 + 1 + 1) three [] (omega arith) (omega arith)
      ∙ unfold scan_quantum in refl in
    let last : d + 1 + 1 + 1 + 1 ≡ d + 4 = omega arith in
    rw scanned (ap (λ n. (v0 ∷ v1 ∷ v2 ∷ [], true, n)) last)

pub get_next_quantum_two :
    (f : ParseFlag) (str : Bytes) (d : ℕ) (v0 v1 : ℕ)
    → drop d str ≡ base64_char v0 ∷ base64_char v1 ∷ k_pad ∷ k_pad ∷ []
    → v0 < 64
    → v1 < 64
    → get_next_quantum f false str d ≡ (v0 ∷ v1 ∷ [], true, d + 4)
unfolding get_next_quantum
get_next_quantum_two f str d v0 v1 e h0 h1 =
    let two = record no_quantum { qbuf = v0 ∷ v1 ∷ [] } in
    let one_pad = record two { pad_len = 1; pad_start = d + 1 + 1 } in
    let full = record one_pad { pad_len = 2 } in
    let scanned : scan_quantum f false (drop d str) d no_quantum ≡ (full, d + 1 + 1 + 1 + 1) =
      ap (λ s. scan_quantum f false s d no_quantum) e
      ∙ scan_sextet f false d v0 no_quantum (base64_char v1 ∷ k_pad ∷ k_pad ∷ []) h0 (omega arith)
          refl
      ∙ scan_sextet f false (d + 1) v1 (record no_quantum { qbuf = v0 ∷ [] }) (k_pad ∷ k_pad ∷ [])
          h1 (omega arith) refl
      ∙ scan_pad f (d + 1 + 1) two (k_pad ∷ []) (omega arith) (omega arith)
      ∙ scan_pad f (d + 1 + 1 + 1) one_pad [] (omega arith) (omega arith)
      ∙ unfold scan_quantum in refl in
    let last : d + 1 + 1 + 1 + 1 ≡ d + 4 = omega arith in
    rw scanned (ap (λ n. (v0 ∷ v1 ∷ [], true, n)) last)
