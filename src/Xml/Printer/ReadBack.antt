-- ===== src/Xml/Printer/ReadBack.antt =====
-- How XML 1.0 reads what PrintQuotedValue and PrintBodyText write (xmlprinter.cc).
use txmpp.Common.{
  ℕ, Bool, true, false, ◌&&◌, ◌||◌, ◌≡◌, [], ◌∷◌, ◌++◌, Bytes, codes, ◌==◌, if◌then◌else◌, ◌⊎◌,
}

-- The predefined entities of XML 1.0 that stand for special characters.
abbrev pub IsReference : Bytes → ℕ → Type 0
IsReference r c =
    ((r ≡ codes "&lt;") × (c ≡ b'<'))
    ⊎ ((r ≡ codes "&gt;") × (c ≡ b'>'))
    ⊎ ((r ≡ codes "&amp;") × (c ≡ b'&'))
    ⊎ ((r ≡ codes "&quot;") × (c ≡ b'"'))

-- The line ends of XML 1.0: a carriage return, with the line feed behind it if there is one, is
-- read as a line feed. The Boolean is whether a carriage return stands before.
abbrev pub line_ends_from : Bool → Bytes → Bytes
line_ends_from after_cr [] = []
line_ends_from after_cr (c ∷ s) =
    let from_cr = line_ends_from true s in
    let from_other = line_ends_from false s in
    if c == 0x0d
    then 0x0a ∷ from_cr
    else if c == 0x0a && after_cr
    then from_other
    else c ∷ from_other

abbrev pub line_ends : Bytes → Bytes
line_ends s = line_ends_from false s

-- What the attribute values and the text of XML 1.0 read as a space, line ends having been read.
abbrev pub is_value_space : ℕ → Bool
is_value_space c = c == 0x09 || c == 0x0a

abbrev pub is_text_space : ℕ → Bool
is_text_space c = false

abbrev pub spaced : (ℕ → Bool) → Bytes → Bytes
spaced space [] = []
spaced space (c ∷ s) = (if space c then b' ' else c) ∷ spaced space s

-- How XML 1.0 reads a text, its line ends having been read: the characters of `stop` do not stand
-- for themselves, those of `space` are read as a space, and the references that it predefines are
-- read as what they stand for.
pub data Decodes (stop space : ℕ → Bool) : Bytes → Bytes → Type 0 where
  finish : Decodes stop space [] []
  plain :
      {c : ℕ} {s t : Bytes}
      → stop c ≡ false
      → Decodes stop space s t
      → Decodes stop space (c ∷ s) ((if space c then b' ' else c) ∷ t)
  refer :
      {c : ℕ} {r s t : Bytes}
      → IsReference r c
      → Decodes stop space s t
      → Decodes stop space (r ++ s) (c ∷ t)
