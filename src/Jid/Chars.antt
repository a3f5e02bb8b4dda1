-- ===== src/Jid/Chars.antt =====
-- The character loops of jid.cc: the characters they return, and their fixed points.
use txmpp.Common.{
  ℕ, ◌≤◌, Bool, true, not, ◌&&◌, ◌||◌, ◌≡◌, refl, [], ◌∷◌, Option, some, Bytes, leb, ◌==◌,
  if◌then◌else◌, length, arith, AllTrue, nil, cons, AllTrue-mono, differs, subst, some_inj,
  bind-eq-some,
}
use txmpp.Jid.Prep.{
  Ctype, is_upper, node_illegal, prep_node_ascii, label_illegal, prep_label_ascii, prep_node_char,
  map_chars, at_most_1023, prep_node, prep_resource_ascii, prep_resource_char, prep_resource_chars,
  prep_resource, prep_label_char,
}

pub node_char : (ℕ → ℕ) → ℕ → Bool
node_char tolower c =
    if leb c 0x7F then not (is_upper c) && not (node_illegal c) else tolower c == c

unfoldable pub label_char : ℕ → Bool
label_char c = not (is_upper c) && not (label_illegal c)

pub resource_char : ℕ → Bool
resource_char c = c == 0 || not (leb c 0x17 || c == 0x7F)

-- A loop whose outputs are all in `p`, and which leaves the characters in `p` alone.
pub map_chars-AllTrue :
    (f : ℕ → Option ℕ) (p : ℕ → Bool)
    → ((c d : ℕ) → f c ≡ some d → p d ≡ true)
    → (s : Bytes) {r : Bytes} → map_chars f s ≡ some r
    → AllTrue p r
unfolding map_chars
map_chars-AllTrue f p out [] {r} e = subst (AllTrue p) (some_inj e) nil
map_chars-AllTrue f p out (c ∷ s) {r} e =
    let (d, hd, e') = bind-eq-some (f c) _ e in
    let (t, ht, e'') = bind-eq-some (map_chars f s) _ e' in
    subst (AllTrue p) (some_inj e'') (cons (out c d hd) (map_chars-AllTrue f p out s ht))

pub map_chars_fixed :
    (f : ℕ → Option ℕ) (p : ℕ → Bool)
    → ((c : ℕ) → p c ≡ true → f c ≡ some c)
    → {s : Bytes} → AllTrue p s
    → map_chars f s ≡ some s
unfolding map_chars
map_chars_fixed f p fix nil = refl
map_chars_fixed f p fix (cons {x} {xs} h t) = ground (arith, fix x h, map_chars_fixed f p fix t)

pub label_char-out : (c d : ℕ) → prep_label_char c ≡ some d → label_char d ≡ true
unfolding prep_label_char prep_label_ascii label_illegal label_char
label_char-out c d h = ground arith

pub label_char-fix : (c : ℕ) → label_char c ≡ true → prep_label_char c ≡ some c
unfolding prep_label_char prep_label_ascii label_char
label_char-fix c h = ground arith

module _ (ct : Ctype) where
  node_char-out : (c d : ℕ) → prep_node_char ct.tolower c ≡ some d → node_char ct.tolower d ≡ true
  unfolding prep_node_char prep_node_ascii node_illegal node_char
  node_char-out c d h = ground (arith, ct.tolower_high c, ct.tolower_idem c)

  node_char-fix : (c : ℕ) → node_char ct.tolower c ≡ true → prep_node_char ct.tolower c ≡ some c
  unfolding prep_node_char prep_node_ascii node_char
  node_char-fix c h = ground arith

resource_char-out : (c : ℕ) → resource_char (prep_resource_char c) ≡ true
unfolding prep_resource_char prep_resource_ascii resource_char
resource_char-out c = ground arith

resource_char-fix : (c : ℕ) → resource_char c ≡ true → prep_resource_char c ≡ c
unfolding prep_resource_char prep_resource_ascii resource_char
resource_char-fix c h = ground arith

pub at_most_1023_inv :
    (s : Bytes) {r : Bytes} → at_most_1023 s ≡ some r → (r ≡ s) × (length s ≤ 1023)
unfolding at_most_1023
at_most_1023_inv s h = ground arith

pub at_most_1023_fix : (s : Bytes) → length s ≤ 1023 → at_most_1023 s ≡ some s
unfolding at_most_1023
at_most_1023_fix s h = ground arith

-- A node is normal when prepNode's loop leaves each byte alone, and it is short enough.
pub record IsNode (tolower : ℕ → ℕ) (s : Bytes) : Type 0 where
  pub chars : AllTrue (node_char tolower) s
  pub short : length s ≤ 1023

pub record IsResource (s : Bytes) : Type 0 where
  pub chars : AllTrue resource_char s
  pub short : length s ≤ 1023

module _ (ct : Ctype) where
  pub prep_node-IsNode :
      (s : Bytes) {r : Bytes} → prep_node ct.tolower s ≡ some r → IsNode ct.tolower r
  unfolding prep_node
  prep_node-IsNode s {r} e =
      let (m, hm, e') = bind-eq-some (map_chars (prep_node_char ct.tolower) s) at_most_1023 e in
      let (same, short) = at_most_1023_inv m e' in
      rw same (record { chars = map_chars-AllTrue _ _ (node_char-out ct) s hm; short = short })

  pub prep_node_fixed : {s : Bytes} → IsNode ct.tolower s → prep_node ct.tolower s ≡ some s
  unfolding prep_node
  prep_node_fixed {s} h =
      rw (map_chars_fixed (prep_node_char ct.tolower) _ (node_char-fix ct) h.chars)
        (at_most_1023_fix s h.short)

prep_resource_chars-AllTrue : (s : Bytes) → AllTrue resource_char (prep_resource_chars s)
unfolding prep_resource_chars
prep_resource_chars-AllTrue [] = nil
prep_resource_chars-AllTrue (c ∷ s) = cons (resource_char-out c) (prep_resource_chars-AllTrue s)

prep_resource_chars_fixed : {s : Bytes} → AllTrue resource_char s → prep_resource_chars s ≡ s
unfolding prep_resource_chars
prep_resource_chars_fixed nil = refl
prep_resource_chars_fixed (cons {x} h t) = cc (resource_char-fix x h, prep_resource_chars_fixed t)

pub prep_resource-IsResource : (s : Bytes) {r : Bytes} → prep_resource s ≡ some r → IsResource r
unfolding prep_resource
prep_resource-IsResource s e =
    let (same, short) = at_most_1023_inv (prep_resource_chars s) e in
    rw same (record { chars = prep_resource_chars-AllTrue s; short = short })

pub prep_resource_fixed : {s : Bytes} → IsResource s → prep_resource s ≡ some s
unfolding prep_resource
prep_resource_fixed {s} h = rw (prep_resource_chars_fixed h.chars) (at_most_1023_fix s h.short)

-- Normal nodes hold neither separator of a printed Jid; nor do normal labels.
node_char-at : (tolower : ℕ → ℕ) (c : ℕ) → node_char tolower c ≡ true → differs b'@' c ≡ true
unfolding node_char node_illegal
node_char-at tolower c h = ground arith

node_char-slash : (tolower : ℕ → ℕ) (c : ℕ) → node_char tolower c ≡ true → differs b'/' c ≡ true
unfolding node_char node_illegal
node_char-slash tolower c h = ground arith

pub IsNode-at : {tolower : ℕ → ℕ} {s : Bytes} → IsNode tolower s → AllTrue (differs b'@') s
IsNode-at {tolower} h = AllTrue-mono (node_char-at tolower) h.chars

pub IsNode-slash : {tolower : ℕ → ℕ} {s : Bytes} → IsNode tolower s → AllTrue (differs b'/') s
IsNode-slash {tolower} h = AllTrue-mono (node_char-slash tolower) h.chars

pub nil_IsResource : IsResource []
nil_IsResource = record { chars = nil; short = omega arith }
