-- ===== src/Base64.antt =====
-- Base64 (base64.h, base64.cc). The two loops of the decoder run over the data from an offset on;
-- the flags are the three groups of bits that the code takes them apart into.
pub mod Tables
pub mod Scan
pub mod RoundTrip
pub mod Bounds
use Prim.Native.Nat.{bit_and, bit_or}
use txmpp.Common.{
  ℕ, zero, suc, ◌+◌, ◌*◌, ◌/◌, ◌%◌, Bool, true, false, not, ◌&&◌, ◌||◌, List, [], ◌∷◌, ◌++◌, Option,
  none, some, Bytes, codes, length, drop, ltb, leb, ◌==◌, if◌then◌else◌, ◌>>=◌, at_or,
}

abbrev pub k_pad : ℕ
k_pad = b'='

abbrev pub pd : ℕ
pd = 0xfd

abbrev pub sp : ℕ
sp = 0xfe

abbrev pub il : ℕ
il = 0xff

abbrev base64_table : Bytes
base64_table = codes "ABCDEFGHIJKLMNOPQRSTUVWXYZabcdefghijklmnopqrstuvwxyz0123456789+/"

-- Base64Table[c]; past the end of the string is its null.
unfoldable pub base64_char : ℕ → ℕ
base64_char c = at_or 0 base64_table c

abbrev decode_table : List ℕ
decode_table =
    il ∷ il ∷ il ∷ il ∷ il ∷ il ∷ il ∷ il ∷ il ∷ sp ∷ sp ∷ sp ∷ sp ∷ sp ∷ il ∷ il ∷ il ∷ il ∷ il
    ∷ il ∷ il ∷ il ∷ il ∷ il ∷ il ∷ il ∷ il ∷ il ∷ il ∷ il ∷ il ∷ il ∷ sp ∷ il ∷ il ∷ il ∷ il ∷ il
    ∷ il ∷ il ∷ il ∷ il ∷ il ∷ 62 ∷ il ∷ il ∷ il ∷ 63 ∷ 52 ∷ 53 ∷ 54 ∷ 55 ∷ 56 ∷ 57 ∷ 58 ∷ 59 ∷ 60
    ∷ 61 ∷ il ∷ il ∷ il ∷ pd ∷ il ∷ il ∷ il ∷ 0 ∷ 1 ∷ 2 ∷ 3 ∷ 4 ∷ 5 ∷ 6 ∷ 7 ∷ 8 ∷ 9 ∷ 10 ∷ 11 ∷ 12
    ∷ 13 ∷ 14 ∷ 15 ∷ 16 ∷ 17 ∷ 18 ∷ 19 ∷ 20 ∷ 21 ∷ 22 ∷ 23 ∷ 24 ∷ 25 ∷ il ∷ il ∷ il ∷ il ∷ il ∷ il
    ∷ 26 ∷ 27 ∷ 28 ∷ 29 ∷ 30 ∷ 31 ∷ 32 ∷ 33 ∷ 34 ∷ 35 ∷ 36 ∷ 37 ∷ 38 ∷ 39 ∷ 40 ∷ 41 ∷ 42 ∷ 43 ∷ 44
    ∷ 45 ∷ 46 ∷ 47 ∷ 48 ∷ 49 ∷ 50 ∷ 51 ∷ il ∷ il ∷ il ∷ il ∷ il ∷ il ∷ il ∷ il ∷ il ∷ il ∷ il ∷ il
    ∷ il ∷ il ∷ il ∷ il ∷ il ∷ il ∷ il ∷ il ∷ il ∷ il ∷ il ∷ il ∷ il ∷ il ∷ il ∷ il ∷ il ∷ il ∷ il
    ∷ il ∷ il ∷ il ∷ il ∷ il ∷ il ∷ il ∷ il ∷ il ∷ il ∷ il ∷ il ∷ il ∷ il ∷ il ∷ il ∷ il ∷ il ∷ il
    ∷ il ∷ il ∷ il ∷ il ∷ il ∷ il ∷ il ∷ il ∷ il ∷ il ∷ il ∷ il ∷ il ∷ il ∷ il ∷ il ∷ il ∷ il ∷ il
    ∷ il ∷ il ∷ il ∷ il ∷ il ∷ il ∷ il ∷ il ∷ il ∷ il ∷ il ∷ il ∷ il ∷ il ∷ il ∷ il ∷ il ∷ il ∷ il
    ∷ il ∷ il ∷ il ∷ il ∷ il ∷ il ∷ il ∷ il ∷ il ∷ il ∷ il ∷ il ∷ il ∷ il ∷ il ∷ il ∷ il ∷ il ∷ il
    ∷ il ∷ il ∷ il ∷ il ∷ il ∷ il ∷ il ∷ il ∷ il ∷ il ∷ il ∷ il ∷ il ∷ il ∷ il ∷ il ∷ il ∷ il ∷ il
    ∷ il ∷ il ∷ il ∷ il ∷ il ∷ il ∷ il ∷ []

unfoldable pub decode_char : ℕ → ℕ
decode_char ch = at_or il decode_table ch

unfoldable pub is_base64_char : ℕ → Bool
is_base64_char ch =
    (leb b'A' ch && leb ch b'Z')
    || (leb b'a' ch && leb ch b'z')
    || (leb b'0' ch && leb ch b'9')
    || ch == b'+'
    || ch == b'/'

unfoldable pub is_base64_encoded : Bytes → Bool
unfolding is_base64_char
is_base64_encoded [] = true
is_base64_encoded (ch ∷ str) = if not (is_base64_char ch) then false else is_base64_encoded str

-- The sextets of EncodeFromArray: of one byte, and of two bytes that meet in it.
unfoldable pub sextet0 : ℕ → ℕ
sextet0 a = bit_and (a / 4) 0x3f

unfoldable pub sextet1 : ℕ → ℕ
sextet1 a = bit_and (a * 16) 0x3f

unfoldable pub sextet1_with : ℕ → ℕ → ℕ
sextet1_with a b = bit_or (bit_and (a * 16) 0x3f) (bit_and (b / 16) 0x0f)

unfoldable pub sextet2 : ℕ → ℕ
sextet2 b = bit_and (b * 4) 0x3f

unfoldable pub sextet2_with : ℕ → ℕ → ℕ
sextet2_with b c = bit_or (bit_and (b * 4) 0x3f) (bit_and (c / 64) 0x03)

unfoldable pub sextet3 : ℕ → ℕ
sextet3 c = bit_and c 0x3f

-- EncodeFromArray, three bytes at a time.
unfoldable pub encode_from_array : Bytes → Bytes
unfolding base64_char sextet0 sextet1 sextet1_with sextet2 sextet2_with sextet3
encode_from_array [] = []
encode_from_array (a ∷ []) = base64_char (sextet0 a) ∷ base64_char (sextet1 a) ∷ k_pad ∷ k_pad ∷ []
encode_from_array (a ∷ b ∷ []) =
    base64_char (sextet0 a) ∷ base64_char (sextet1_with a b) ∷ base64_char (sextet2 b) ∷ k_pad ∷ []
encode_from_array (a ∷ b ∷ c ∷ str) =
    base64_char (sextet0 a)
    ∷ base64_char (sextet1_with a b)
    ∷ base64_char (sextet2_with b c)
    ∷ base64_char (sextet3 c)
    ∷ encode_from_array str

-- DecodeOption
pub data ParseFlag : Type 0 where
  parse_strict parse_white parse_any : ParseFlag

pub data PadFlag : Type 0 where
  pad_yes pad_any pad_no : PadFlag

pub data TermFlag : Type 0 where
  term_buffer term_char term_any : TermFlag

pub record DecodeFlags : Type 0 where
  pub parse_flags : ParseFlag
  pub pad_flags : PadFlag
  pub term_flags : TermFlag

abbrev pub is_parse_strict : ParseFlag → Bool
is_parse_strict parse_strict = true
is_parse_strict _ = false

abbrev pub is_parse_any : ParseFlag → Bool
is_parse_any parse_any = true
is_parse_any _ = false

abbrev pub is_pad_yes : PadFlag → Bool
is_pad_yes pad_yes = true
is_pad_yes _ = false

abbrev pub is_pad_no : PadFlag → Bool
is_pad_no pad_no = true
is_pad_no _ = false

abbrev pub is_term_buffer : TermFlag → Bool
is_term_buffer term_buffer = true
is_term_buffer _ = false

abbrev pub is_term_any : TermFlag → Bool
is_term_any term_any = true
is_term_any _ = false

abbrev pub do_strict : DecodeFlags
do_strict = record { parse_flags = parse_strict; pad_flags = pad_yes; term_flags = term_buffer }

abbrev pub do_lax : DecodeFlags
do_lax = record { parse_flags = parse_any; pad_flags = pad_any; term_flags = term_char }

-- The locals of GetNextQuantum. The list is qbuf as far as byte_len, which is its length; what the
-- code writes at byte_len and leaves there is overwritten with 0 after the loop.
pub record Quantum : Type 0 where
  pub qbuf : List ℕ
  pub pad_len : ℕ
  pub pad_start : ℕ

abbrev pub no_quantum : Quantum
no_quantum = record { qbuf = []; pad_len = 0; pad_start = 0 }

abbrev pub ignored : ParseFlag → Quantum → Option Quantum
ignored flags q = if not (is_parse_any flags) then none else some q

-- The body of the loop, on the value of the character at dpos: none where it breaks off.
unfoldable pub take_value : ParseFlag → Bool → ℕ → ℕ → Quantum → Option Quantum
take_value flags illegal_pads dpos v q =
    if v == il || (illegal_pads && v == pd)
    then ignored flags q
    else if v == sp
    then (if is_parse_strict flags then none else some q)
    else if v == pd
    then (if ltb (length q.qbuf) 2
        then ignored flags q
        else if leb 4 (length q.qbuf + q.pad_len)
        then ignored flags q
        else some (record q {
          pad_len = q.pad_len + 1;
          pad_start = if q.pad_len == 0 then dpos else q.pad_start;
        }))
    else if ltb 0 q.pad_len && not (is_parse_any flags)
    then none
    else some (record q { qbuf = q.qbuf ++ v ∷ []; pad_len = 0 })

abbrev pub scan_on : ℕ → Quantum → Option Quantum → (Quantum → Quantum × ℕ) → Quantum × ℕ
scan_on dpos q none next = (q, dpos)
scan_on dpos q (some q') next = next q'

-- The loop, on the data from dpos on.
unfoldable pub scan_quantum : ParseFlag → Bool → Bytes → ℕ → Quantum → Quantum × ℕ
unfolding take_value decode_char
scan_quantum flags illegal_pads [] dpos q = (q, dpos)
scan_quantum flags illegal_pads (ch ∷ str) dpos q =
    let next =
      scan_on dpos q (take_value flags illegal_pads dpos (decode_char ch) q)
        (scan_quantum flags illegal_pads str (dpos + 1)) in
    if ltb (length q.qbuf) 4 then next else (q, dpos)

-- GetNextQuantum: qbuf, whether it is padded, and the new dpos.
unfoldable pub get_next_quantum : ParseFlag → Bool → Bytes → ℕ → List ℕ × Bool × ℕ
unfolding scan_quantum
get_next_quantum flags illegal_pads str dpos =
    let (q, dpos') = scan_quantum flags illegal_pads (drop dpos str) dpos no_quantum in
    if length q.qbuf + q.pad_len == 4
    then (q.qbuf, true, dpos')
    else (q.qbuf, false, if not (q.pad_len == 0) then q.pad_start else dpos')

-- What a quantum adds to the result, and the c that is left.
unfoldable pub octet0 : ℕ → ℕ → ℕ
octet0 q0 q1 = bit_or (q0 * 4) (bit_and (q1 / 16) 0x3) % 256

unfoldable pub octet1 : ℕ → ℕ → ℕ
octet1 q1 q2 = bit_or (bit_and (q1 * 16) 0xf0) (bit_and (q2 / 4) 0xf)

unfoldable pub octet2 : ℕ → ℕ → ℕ
octet2 q2 q3 = bit_or (bit_and (q2 * 64) 0xc0) q3

unfoldable pub octets : List ℕ → Bytes × ℕ
unfolding octet0 octet1 octet2
octets [] = ([], octet0 0 0)
octets (q0 ∷ []) = ([], octet0 q0 0)
octets (q0 ∷ q1 ∷ []) = (octet0 q0 q1 ∷ [], octet1 q1 0)
octets (q0 ∷ q1 ∷ q2 ∷ []) = (octet0 q0 q1 ∷ octet1 q1 q2 ∷ [], octet2 q2 0)
octets (q0 ∷ q1 ∷ q2 ∷ q3 ∷ _) = (octet0 q0 q1 ∷ octet1 q1 q2 ∷ octet2 q2 q3 ∷ [], 0)

-- Whether a last quantum of fewer than four characters is in order.
abbrev pub ends_well : DecodeFlags → Bool → ℕ → Bool
ends_well flags padded c =
    not (not (is_term_any flags.term_flags) && not (c == 0))
    && not (is_pad_yes flags.pad_flags && not padded)

-- The loop of DecodeFromArrayTemplate, on fuel: success, the result and dpos.
unfoldable pub decode_loop : ℕ → DecodeFlags → Bytes → ℕ → Bytes → Option (Bool × Bytes × ℕ)
unfolding get_next_quantum octets
decode_loop zero flags str dpos result =
    if ltb dpos (length str) then none else some (true, result, dpos)
decode_loop (suc n) flags str dpos result =
    let (qbuf, padded, dpos') =
      get_next_quantum flags.parse_flags (is_pad_no flags.pad_flags) str dpos in
    let (more, c) = octets qbuf in
    let rest = decode_loop n flags str dpos' (result ++ more) in
    if ltb dpos (length str)
    then (if ltb (length qbuf) 4
        then some (ends_well flags padded c, result ++ more, dpos')
        else rest)
    else some (true, result, dpos)

abbrev pub at_end : DecodeFlags → Bytes → Bool × Bytes × ℕ → Bool × Bytes × ℕ
at_end flags str (success, result, dpos) = (
  if is_term_buffer flags.term_flags && not (dpos == length str) then false else success,
  result,
  dpos,
)

-- DecodeFromArrayTemplate: success, the result and data_used.
unfoldable pub decode_from_array : DecodeFlags → Bytes → Option (Bool × Bytes × ℕ)
unfolding decode_loop
decode_from_array flags str =
    decode_loop (length str) flags str 0 [] >>= λ r. some (at_end flags str r)
