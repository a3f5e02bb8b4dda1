-- ===== src/StringEncode/XmlText.antt =====
-- What xml_decode makes of the output of xml_encode (stringencode.cc).
use txmpp.Common.{
  ℕ, ◌≤◌, ◌<◌, Bool, true, false, not, ◌||◌, [], ◌∷◌, some, Bytes, codes, length, leb, ◌==◌, ==_iff,
  arith, ◌≡◌, refl, sym, ap, subst, ◌∙◌, inl, inr, Bool-cases, AllTrue, nil, cons, false_not_true,
}
use txmpp.Common.Bits.{each_below_holds}
use txmpp.StringEncode.{is_unsafe, xml_unsafe}
use txmpp.StringEncode.Entities.{
  xml_escape, xml_piece, xml_encode, Strtoul, entity_at, xml_read, xml_decode,
}
use txmpp.StringEncode.ReadBack.{ReadsBack, Restored, xml_loop_all}

-- The characters with entities.
pub data Special : ℕ → Type 0 where
  lt_sign : Special b'<'
  gt_sign : Special b'>'
  apos : Special b'\''
  quot : Special b'"'
  amp : Special b'&'

abbrev is_special : ℕ → Bool
is_special ch = ch == b'<' || ch == b'>' || ch == b'\'' || ch == b'"' || ch == b'&'

special_table : (ch : ℕ) → ch < 128 → (not (is_unsafe xml_unsafe ch) || is_special ch) ≡ true
unfolding is_unsafe
special_table ch = each_below_holds 128 (λ c. not (is_unsafe xml_unsafe c) || is_special c) refl

pub unsafe-Special : (ch : ℕ) → is_unsafe xml_unsafe ch ≡ true → Special ch
unfolding is_unsafe
unsafe-Special ch h = elim (Bool-cases (ch == b'<')) [
  | inl e ↦ at lt_sign e
  | inr n1 ↦ elim (Bool-cases (ch == b'>')) [
    | inl e ↦ at gt_sign e
    | inr n2 ↦ elim (Bool-cases (ch == b'\'')) [
      | inl e ↦ at apos e
      | inr n3 ↦ elim (Bool-cases (ch == b'"')) [
        | inl e ↦ at quot e
        | inr n4 ↦ elim (Bool-cases (ch == b'&')) [
          | inl e ↦ at amp e
          | inr n5 ↦
              absurd (ground (arith, special_table ch (ground (arith, h)), h, n1, n2, n3, n4, n5))
        ]
      ]
    ]
  ]
]
  where
    at : {c : ℕ} → Special c → (ch == c) ≡ true → Special ch
    at {c} s e = subst Special (sym ((==_iff ch c).0 e)) s

-- '&' is unsafe.
pub safe-amp : (ch : ℕ) → is_unsafe xml_unsafe ch ≡ false → (ch == b'&') ≡ false
unfolding is_unsafe
safe-amp ch h = elim (Bool-cases (ch == b'&')) [
  | inr e ↦ e
  | inl e ↦ absurd (false_not_true (sym h ∙ ap (is_unsafe xml_unsafe) ((==_iff ch b'&').0 e)))
]

pub plain_read :
    (strtoul : Strtoul) (room ch : ℕ) (s : Bytes)
    → (ch == b'&') ≡ false
    → xml_read strtoul room ch s ≡ some (ch ∷ [], 0)
unfolding xml_read
plain_read strtoul room ch s h = rw (xml_read, h) refl

abbrev pub alone : ℕ → Bytes
alone ch = ch ∷ []

Special-back : (strtoul : Strtoul) (ch : ℕ) → Special ch → ReadsBack strtoul xml_piece alone ch
unfolding xml_piece xml_read is_unsafe xml_escape entity_at
Special-back strtoul ch lt_sign = record {
  first = b'&';
  behind = codes "lt;";
  splits = refl;
  reads = λ room rest h. refl;
  shrinks = omega arith;
}
Special-back strtoul ch gt_sign = record {
  first = b'&';
  behind = codes "gt;";
  splits = refl;
  reads = λ room rest h. refl;
  shrinks = omega arith;
}
Special-back strtoul ch apos = record {
  first = b'&';
  behind = codes "apos;";
  splits = refl;
  reads = λ room rest h. refl;
  shrinks = omega arith;
}
Special-back strtoul ch quot = record {
  first = b'&';
  behind = codes "quot;";
  splits = refl;
  reads = λ room rest h. refl;
  shrinks = omega arith;
}
Special-back strtoul ch amp = record {
  first = b'&';
  behind = codes "amp;";
  splits = refl;
  reads = λ room rest h. refl;
  shrinks = omega arith;
}

xml_back : (strtoul : Strtoul) (ch : ℕ) → ReadsBack strtoul xml_piece alone ch
unfolding xml_piece
xml_back strtoul ch = elim (Bool-cases (is_unsafe xml_unsafe ch)) [
  | inl h ↦ Special-back strtoul ch (unsafe-Special ch h)
  | inr h ↦ record {
    first = ch;
    behind = [];
    splits = rw h refl;
    reads = λ room rest k. plain_read strtoul room ch rest (safe-amp ch h);
    shrinks = rw h (omega arith);
  }
]

Special-small : {ch : ℕ} → Special ch → length (xml_escape ch) ≤ 6
unfolding xml_escape
Special-small lt_sign = omega arith
Special-small gt_sign = omega arith
Special-small apos = omega arith
Special-small quot = omega arith
Special-small amp = omega arith

xml_piece_small : (ch : ℕ) → length (xml_piece ch) ≤ 6
unfolding xml_piece
xml_piece_small ch = elim (Bool-cases (is_unsafe xml_unsafe ch)) [
  | inl h ↦ rw h (Special-small (unsafe-Special ch h))
  | inr h ↦ rw h (omega arith)
]

every : (s : Bytes) → AllTrue (λ _. true) s
every [] = nil
every (x ∷ s) = cons refl (every s)

-- xml_encode and xml_decode, with one buffer length for both that is not 0, and any strtoul: the
-- decoder never stores behind the end of its buffer, and gives back a beginning of the text, also
-- where the encoder ran out of room, and the whole of it when the length is over six times that of
-- the text.
pub xml_decode-xml_encode :
    (strtoul : Strtoul) (buflen : ℕ) (source : Bytes)
    → 1 ≤ buflen
    → Restored alone buflen 6 source (xml_decode strtoul buflen (xml_encode buflen source))
unfolding xml_decode xml_encode
xml_decode-xml_encode strtoul n s h =
    let room : leb n 0 ≡ false = ground arith in
    rw room (
      xml_loop_all strtoul xml_piece alone (λ _. true) (λ ch _. xml_back strtoul ch) 6
        (λ ch _. xml_piece_small ch) n (every s) (omega arith))
