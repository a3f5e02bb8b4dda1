-- ===== src/Base64/RoundTrip.antt =====
-- What is encoded and decoded again (base64.cc).
use mathlib.Core.List.{append_assoc, append-nil}
use txmpp.Base64.{
  sextet0, sextet1, sextet1_with, sextet2, sextet2_with, sextet3, octet0, octet1, octet2, octets,
  encode_from_array, DecodeFlags, is_pad_no, get_next_quantum, ends_well, decode_loop,
  decode_from_array,
}
use txmpp.Base64.Scan.{get_next_quantum_two, get_next_quantum_three, get_next_quantum_four}
use txmpp.Base64.Tables.{
  sextet0_lem, sextet1_lem, sextet2_lem, sextet3_lem, sextet1_with_lem, sextet2_with_lem,
  octet0_lem, octet1_lem, octet2_lem,
}
use txmpp.Common.{
  ℕ, zero, suc, ◌+◌, ◌*◌, ◌/◌, ◌%◌, ◌≤◌, ◌<◌, Bool, true, false, ◌≡◌, refl, ap, sym, ◌∙◌, [], ◌∷◌,
  ◌++◌, some, Bytes, length, drop, ltb, arith, AllTrue, nil, cons,
}
use txmpp.Common.Bits.{by_table}

-- What a byte is.
abbrev pub is_byte : ℕ → Bool
is_byte b = ltb b 256

below : (b : ℕ) → is_byte b ≡ true → b < 256
below b h = ground arith

drop_again : (n d k : ℕ) (xs : Bytes) → n ≡ d + k → drop n xs ≡ drop k (drop d xs)
drop_again n zero k xs e = let same : n ≡ k = omega arith in rw same refl
drop_again zero (suc d) k xs e = absurd (omega arith)
drop_again (suc n) (suc d) zero [] e = refl
drop_again (suc n) (suc d) (suc k) [] e = refl
drop_again (suc n) (suc d) k (x ∷ xs) e = drop_again n d k xs (omega arith)

module _ {a b c : ℕ} (ha : a < 256) (hb : b < 256) (hc : c < 256) where
  octet0-sextets : octet0 (sextet0 a) (sextet1_with a b) ≡ a
  octet0-sextets =
      rw (sextet0_lem a ha, sextet1_with_lem a b ha hb)
        (octet0_lem (a / 4) (a % 4 * 16 + b / 16) (omega arith) (omega arith) ∙ omega arith)

  octet1-sextets : octet1 (sextet1_with a b) (sextet2_with b c) ≡ b
  octet1-sextets =
      rw (sextet1_with_lem a b ha hb, sextet2_with_lem b c hb hc)
        (octet1_lem (a % 4 * 16 + b / 16) (b % 16 * 4 + c / 64) (omega arith) (omega arith)
          ∙ omega arith)

  octet2-sextets : octet2 (sextet2_with b c) (sextet3 c) ≡ c
  octet2-sextets =
      rw (sextet2_with_lem b c hb hc, sextet3_lem c hc)
        (octet2_lem (b % 16 * 4 + c / 64) (c % 64) (omega arith) (omega arith) ∙ omega arith)

-- At the end, with zeros for what is not there.
octet1-last : {a b : ℕ} → a < 256 → b < 256 → octet1 (sextet1_with a b) (sextet2 b) ≡ b
octet1-last {a} {b} ha hb =
    rw (sextet1_with_lem a b ha hb, sextet2_lem b hb)
      (octet1_lem (a % 4 * 16 + b / 16) (b % 16 * 4) (omega arith) (omega arith) ∙ omega arith)

octet0-last : {a : ℕ} → a < 256 → octet0 (sextet0 a) (sextet1 a) ≡ a
unfolding octet0 sextet0 sextet1
octet0-last {a} = by_table 256 (λ a. octet0 (sextet0 a) (sextet1 a)) (λ a. a) refl a

octet1-rest : {a : ℕ} → a < 256 → octet1 (sextet1 a) 0 ≡ 0
unfolding octet1 sextet1
octet1-rest {a} = by_table 256 (λ a. octet1 (sextet1 a) 0) (λ a. 0) refl a

octet2-rest : {b : ℕ} → b < 256 → octet2 (sextet2 b) 0 ≡ 0
unfolding octet2 sextet2
octet2-rest {b} = by_table 256 (λ b. octet2 (sextet2 b) 0) (λ b. 0) refl b

ends_well_zero : (flags : DecodeFlags) → ends_well flags true 0 ≡ true
ends_well_zero flags = ground arith

-- One round of the decoder's loop: the last one, and one that goes on.
module _ (n : ℕ) (flags : DecodeFlags) (str : Bytes) (d d' : ℕ) (result qbuf ys : Bytes)
    (inside : d < length str) where
  decode_loop_last :
      get_next_quantum flags.parse_flags (is_pad_no flags.pad_flags) str d ≡ (qbuf, true, d')
      → length qbuf < 4
      → octets qbuf ≡ (ys, 0)
      → decode_loop (suc n) flags str d result ≡ some (true, result ++ ys, d')
  unfolding decode_loop
  decode_loop_last got short made = rw (got, made) (rw (ends_well_zero flags) (ground arith))

  decode_loop_next :
      get_next_quantum flags.parse_flags (is_pad_no flags.pad_flags) str d ≡ (qbuf, true, d')
      → length qbuf ≡ 4
      → octets qbuf ≡ (ys, 0)
      → decode_loop (suc n) flags str d result ≡ decode_loop n flags str d' (result ++ ys)
  unfolding decode_loop
  decode_loop_next got full made = rw (got, made) (ground arith)

sextet0_small : {a : ℕ} → a < 256 → sextet0 a < 64
sextet0_small {a} h = omega (arith, sextet0_lem a h)

sextet1_small : {a : ℕ} → a < 256 → sextet1 a < 64
sextet1_small {a} h = omega (arith, sextet1_lem a h)

sextet2_small : {a : ℕ} → a < 256 → sextet2 a < 64
sextet2_small {a} h = omega (arith, sextet2_lem a h)

sextet3_small : {a : ℕ} → a < 256 → sextet3 a < 64
sextet3_small {a} h = omega (arith, sextet3_lem a h)

sextet1_with_small : {a b : ℕ} → a < 256 → b < 256 → sextet1_with a b < 64
sextet1_with_small {a} {b} h k = omega (arith, sextet1_with_lem a b h k)

sextet2_with_small : {a b : ℕ} → a < 256 → b < 256 → sextet2_with a b < 64
sextet2_with_small {a} {b} h k = omega (arith, sextet2_with_lem a b h k)

-- The decoder's loop, from an offset where an encoding begins.
decode_loop-encode :
    (n : ℕ) (flags : DecodeFlags) (str : Bytes) (d : ℕ) (result : Bytes) {xs : Bytes}
    → is_pad_no flags.pad_flags ≡ false
    → AllTrue is_byte xs
    → drop d str ≡ encode_from_array xs
    → length str ≡ d + length (encode_from_array xs)
    → length (encode_from_array xs) ≤ n
    → decode_loop n flags str d result ≡ some (true, result ++ xs, length str)
unfolding encode_from_array decode_loop octets
decode_loop-encode zero flags str d result pads nil at size fuel = ground (arith, append-nil result)
decode_loop-encode (suc n) flags str d result pads nil at size fuel =
    ground (arith, append-nil result)
decode_loop-encode zero flags str d result pads (cons h nil) at size fuel = absurd (omega arith)
decode_loop-encode (suc n) flags str d result pads (cons {x = a} h nil) at size fuel =
    let ha = below a h in
    let q0 = sextet0 a in
    let q1 = sextet1 a in
    let got : get_next_quantum flags.parse_flags (is_pad_no flags.pad_flags) str d
        ≡ (q0 ∷ q1 ∷ [], true, d + 4) =
      rw pads (
        get_next_quantum_two flags.parse_flags str d q0 q1 at (sextet0_small ha)
          (sextet1_small ha)) in
    let made : octets (q0 ∷ q1 ∷ []) ≡ (a ∷ [], 0) = rw (octet0-last ha, octet1-rest ha) refl in
    decode_loop_last n flags str d (d + 4) result _ _ (omega arith) got (omega arith) made
    ∙ ap (λ k. some (true, result ++ a ∷ [], k)) (sym size)
decode_loop-encode zero flags str d result pads (cons h (cons k nil)) at size fuel =
    absurd (omega arith)
decode_loop-encode (suc n) flags str d result pads (cons {x = a} h (cons {x = b} k nil)) at size
      fuel =
    let ha = below a h in
    let hb = below b k in
    let q0 = sextet0 a in
    let q1 = sextet1_with a b in
    let q2 = sextet2 b in
    let got : get_next_quantum flags.parse_flags (is_pad_no flags.pad_flags) str d
        ≡ (q0 ∷ q1 ∷ q2 ∷ [], true, d + 4) =
      rw pads (
        get_next_quantum_three flags.parse_flags str d q0 q1 q2 at (sextet0_small ha)
          (sextet1_with_small ha hb) (sextet2_small hb)) in
    let made : octets (q0 ∷ q1 ∷ q2 ∷ []) ≡ (a ∷ b ∷ [], 0) =
      rw (octet0-sextets ha hb hb, octet1-last ha hb, octet2-rest hb) refl in
    decode_loop_last n flags str d (d + 4) result _ _ (omega arith) got (omega arith) made
    ∙ ap (λ k. some (true, result ++ a ∷ b ∷ [], k)) (sym size)
decode_loop-encode zero flags str d result pads (cons h (cons k (cons m t))) at size fuel =
    absurd (omega arith)
decode_loop-encode (suc n) flags str d result pads
      (cons {x = a} h (cons {x = b} k (cons {x = c} {xs} m t))) at size fuel =
    let ha = below a h in
    let hb = below b k in
    let hc = below c m in
    let q0 = sextet0 a in
    let q1 = sextet1_with a b in
    let q2 = sextet2_with b c in
    let q3 = sextet3 c in
    let got =
      get_next_quantum_four flags.parse_flags (is_pad_no flags.pad_flags) str d q0 q1 q2 q3
        (encode_from_array xs) at (sextet0_small ha) (sextet1_with_small ha hb)
        (sextet2_with_small hb hc) (sextet3_small hc) in
    let made : octets (q0 ∷ q1 ∷ q2 ∷ q3 ∷ []) ≡ (a ∷ b ∷ c ∷ [], 0) =
      rw (octet0-sextets ha hb hc, octet1-sextets ha hb hc, octet2-sextets ha hb hc) refl in
    decode_loop_next n flags str d (d + 4) result _ _ (omega arith) got refl made
    ∙ decode_loop-encode n flags str (d + 4) (result ++ a ∷ b ∷ c ∷ []) pads t
        (drop_again (d + 4) d 4 str refl ∙ ap (drop 4) at) (omega arith) (omega arith)
    ∙ ap (λ r. some (true, r, length str)) (append_assoc result (a ∷ b ∷ c ∷ []) xs)

-- A list of numbers below 256, encoded, is decoded to what it was, to the last character and with
-- success, whatever flags the decoder is given, as long as they do not forbid padding.
pub decode_from_array-encode_from_array :
    (flags : DecodeFlags) (bytes : Bytes)
    → is_pad_no flags.pad_flags ≡ false
    → AllTrue is_byte bytes
    → decode_from_array flags (encode_from_array bytes)
      ≡ some (true, bytes, length (encode_from_array bytes))
unfolding decode_from_array
decode_from_array-encode_from_array flags bytes pads h =
    let str = encode_from_array bytes in
    rw (decode_loop-encode (length str) flags str 0 [] pads h refl (omega arith) (omega arith))
      (ground arith)
