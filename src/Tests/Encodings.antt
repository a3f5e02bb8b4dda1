-- ===== src/Tests/Encodings.antt =====
-- Base64 and the credentials of SASL (base64.cc, saslplainmechanism.h, saslcookiemechanism.h).
use txmpp.Base64.{
  encode_from_array, decode_from_array, is_base64_encoded, do_strict, do_lax, DecodeFlags,
  parse_white, pad_yes, term_buffer,
}
use txmpp.Base64.Bounds.{decode_from_array_bounds}
use txmpp.Base64.RoundTrip.{decode_from_array-encode_from_array}
use txmpp.Common.{ℕ, ◌≤◌, Bool, true, false, ◌≡◌, refl, [], some, codes, Bytes, length, nil, cons}
use txmpp.Jid.{Jid}

encoded : encode_from_array (codes "light work.") ≡ codes "bGlnaHQgd29yay4="
unfolding encode_from_array
encoded = refl

-- The pads are not among the characters of an encoding.
padded_not_encoded : is_base64_encoded (encode_from_array (codes "a")) ≡ false
unfolding encode_from_array is_base64_encoded
padded_not_encoded = refl

abbrev skipping_white : DecodeFlags
skipping_white = record { parse_flags = parse_white; pad_flags = pad_yes; term_flags = term_buffer }

-- A blank behind a whole last quantum fails the test for padding.
blank_behind : decode_from_array skipping_white (codes "YWJj ") ≡ some (false, codes "abc", 5)
unfolding decode_from_array
blank_behind = refl

decode_from_array-encode_from_array_example :
    decode_from_array do_strict (encode_from_array (codes "ab"))
    ≡ some (true, codes "ab", length (encode_from_array (codes "ab")))
decode_from_array-encode_from_array_example =
    decode_from_array-encode_from_array do_strict (codes "ab") refl (cons refl (cons refl nil))

decode_from_array_bounds_example :
    (ok : Bool) × (result : Bytes) × (used : ℕ) × (decode_from_array do_lax (codes "A=?BC")
      ≡ some (ok, result, used))
    × (length result ≤ used)
    × (used ≤ length (codes "A=?BC"))
decode_from_array_bounds_example = decode_from_array_bounds do_lax (codes "A=?BC")

abbrev juliet : Jid
juliet = some (record { node_name = codes "j"; domain_name = codes "c"; resource_name = [] })
