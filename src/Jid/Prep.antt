-- ===== src/Jid/Prep.antt =====
-- The character tables and the normalisation loops of jid.cc (prepNode to prepDomainLabelAscii).
-- A loop's result is none where the source leaves its `valid` flag false and drops the string.
-- The C library's tolower, which prepNode calls on bytes above 0x7F, is a parameter.
use txmpp.Common.{
  ℕ, ◌+◌, ◌≤◌, Bool, true, false, ◌&&◌, ◌||◌, ◌≡◌, [], ◌∷◌, ◌++◌, Option, none, some, Bytes, ltb,
  leb, ◌==◌, if◌then◌else◌, length, ◌>>=◌,
}

-- What prepNode needs of tolower: a byte above ASCII stays there, and a lowered byte is lowered.
pub record Ctype : Type 0 where
  pub tolower : ℕ → ℕ
  pub tolower_high : (c : ℕ) → 0x80 ≤ c → 0x80 ≤ tolower c
  pub tolower_idem : (c : ℕ) → tolower (tolower c) ≡ tolower c

abbrev pub is_upper : ℕ → Bool
is_upper ch = leb b'A' ch && leb ch b'Z'

-- The cases of prepNodeAscii that set `valid` to false.
unfoldable pub node_illegal : ℕ → Bool
node_illegal ch =
    leb ch 0x17
    || ch == b' '
    || ch == b'&'
    || ch == b'/'
    || ch == b':'
    || ch == b'<'
    || ch == b'>'
    || ch == b'@'
    || ch == b'"'
    || ch == b'\''
    || ch == 0x7F

unfoldable pub prep_node_ascii : ℕ → Option ℕ
prep_node_ascii ch =
    if is_upper ch then some (ch + 32) else if node_illegal ch then none else some ch

-- The mapped character and the `valid` flag.
unfoldable pub prep_resource_ascii : ℕ → ℕ × Bool
prep_resource_ascii ch = if leb ch 0x17 || ch == 0x7F then (0, false) else (ch, true)

unfoldable pub label_illegal : ℕ → Bool
label_illegal ch =
    leb ch 0x2C
    || ch == 0x2E
    || ch == 0x2F
    || (leb 0x3A ch && leb ch 0x40)
    || (leb 0x5B ch && leb ch 0x60)
    || (leb 0x7B ch && leb ch 0x7F)

unfoldable pub prep_label_ascii : ℕ → Option ℕ
prep_label_ascii ch =
    if is_upper ch then some (ch + 32) else if label_illegal ch then none else some ch

-- One round of the loop of prepNode.
unfoldable pub prep_node_char : (ℕ → ℕ) → ℕ → Option ℕ
prep_node_char tolower ch = if leb ch 0x7F then prep_node_ascii ch else some (tolower ch)

-- A loop that maps each character, or gives up at the first invalid one.
unfoldable pub map_chars : (ℕ → Option ℕ) → Bytes → Option Bytes
map_chars f [] = some []
map_chars f (ch ∷ str) = do c ← f ch; result ← map_chars f str; some (c ∷ result)

-- The length check that closes prepNode, prepResource and prepDomain.
unfoldable pub at_most_1023 : Bytes → Option Bytes
at_most_1023 result = if ltb 1023 (length result) then none else some result

unfoldable pub prep_node : (ℕ → ℕ) → Bytes → Option Bytes
prep_node tolower str = do result ← map_chars (prep_node_char tolower) str; at_most_1023 result

-- The loop of prepResource never reads `char_valid`: an invalid character becomes a NUL.
unfoldable pub prep_resource_char : ℕ → ℕ
prep_resource_char ch = if leb ch 0x7F then (prep_resource_ascii ch).0 else ch

unfoldable pub prep_resource_chars : Bytes → Bytes
prep_resource_chars [] = []
prep_resource_chars (ch ∷ str) = prep_resource_char ch ∷ prep_resource_chars str

unfoldable pub prep_resource : Bytes → Option Bytes
prep_resource str = at_most_1023 (prep_resource_chars str)

unfoldable pub prep_label_char : ℕ → Option ℕ
prep_label_char ch = if leb ch 0x7F then prep_label_ascii ch else some ch

unfoldable pub first_is : ℕ → Bytes → Bool
first_is c [] = false
first_is c (x ∷ _) = x == c

unfoldable pub last_is : ℕ → Bytes → Bool
last_is c [] = false
last_is c (x ∷ []) = x == c
last_is c (_ ∷ y ∷ s) = last_is c (y ∷ s)

-- The checks on what prepDomainLabel has appended: one to 63 bytes, no hyphen at an end.
unfoldable pub check_label : Bytes → Option Bytes
check_label added =
    if length added == 0
    then none
    else if ltb 63 (length added)
    then none
    else if first_is b'-' added
    then none
    else if last_is b'-' added
    then none
    else some added

-- prepDomainLabel: what it appends to `buf` for the characters of one label.
unfoldable pub prep_label : Bytes → Option Bytes
prep_label str = do added ← map_chars prep_label_char str; check_label added

-- The loop of the second prepDomain; `label` holds the characters from `last` to `i`.
unfoldable pub prep_domain_loop : Bytes → Bytes → Bytes → Option Bytes
prep_domain_loop buf label [] = do added ← prep_label label; some (buf ++ added)
prep_domain_loop buf label (ch ∷ str) =
    let dot =
      prep_label label >>= (λ added. prep_domain_loop (buf ++ (added ++ b'.' ∷ [])) [] str) in
    let more = prep_domain_loop buf (label ++ ch ∷ []) str in if ch == b'.' then dot else more

unfoldable pub prep_domain : Bytes → Option Bytes
prep_domain str = do result ← prep_domain_loop [] [] str; at_most_1023 result
