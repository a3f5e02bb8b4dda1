-- ===== src/Jid/Domain.antt =====
-- The domain names that prepDomain returns, described by their labels, and its fixed points.
use mathlib.Core.List.{append_assoc, append-nil}
use txmpp.Common.{
  ℕ, ◌≤◌, ◌<◌, Bool, true, false, ◌≡◌, refl, sym, ◌∙◌, ap, inl, inr, [], ◌∷◌, ◌++◌, some, Bytes,
  ◌==◌, length, arith, AllTrue, nil, cons, AllTrue-mono, AllTrue-append, length-append, differs,
  Bool-cases, subst, some_inj, bind-eq-some,
}
use txmpp.Jid.Chars.{
  label_char, label_char-out, label_char-fix, map_chars-AllTrue, map_chars_fixed, at_most_1023_inv,
  at_most_1023_fix,
}
use txmpp.Jid.Prep.{
  label_illegal, map_chars, at_most_1023, prep_label_char, first_is, last_is, check_label,
  prep_label, prep_domain_loop, prep_domain,
}

-- A label of a normal domain name.
pub record IsLabel (l : Bytes) : Type 0 where
  pub chars : AllTrue label_char l
  pub nonempty : 0 < length l
  pub short : length l ≤ 63
  pub first : first_is b'-' l ≡ false
  pub last : last_is b'-' l ≡ false

-- One label or more, with single dots between them.
pub data IsLabels : Bytes → Type 0 where
  one : {l : Bytes} → IsLabel l → IsLabels l
  dot : {l d : Bytes} → IsLabel l → IsLabels d → IsLabels (l ++ (b'.' ∷ d))

pub record IsDomain (s : Bytes) : Type 0 where
  pub labels : IsLabels s
  pub short : length s ≤ 1023

check_label_inv :
    (l : Bytes) {r : Bytes}
    → check_label l ≡ some r
    → (r ≡ l)
      × (0 < length l)
      × (length l ≤ 63)
      × (first_is b'-' l ≡ false)
      × (last_is b'-' l ≡ false)
unfolding check_label
check_label_inv l h = ground arith

check_label_fix : {l : Bytes} → IsLabel l → check_label l ≡ some l
unfolding check_label
check_label_fix h = ground arith

prep_label-IsLabel : (s : Bytes) {r : Bytes} → prep_label s ≡ some r → IsLabel r
unfolding prep_label
prep_label-IsLabel s {r} e =
    let (m, hm, e') = bind-eq-some (map_chars prep_label_char s) check_label e in
    let (same, pos, short, first, last) = check_label_inv m e' in
    rw same (record {
      chars = map_chars-AllTrue _ _ label_char-out s hm;
      nonempty = pos;
      short = short;
      first = first;
      last = last;
    })

prep_label_fixed : {l : Bytes} → IsLabel l → prep_label l ≡ some l
unfolding prep_label
prep_label_fixed h =
    rw (map_chars_fixed prep_label_char _ label_char-fix h.chars) (check_label_fix h)

prep_domain_loop-IsLabels :
    (s buf label : Bytes) {r : Bytes}
    → prep_domain_loop buf label s ≡ some r
    → (d : Bytes) × (r ≡ buf ++ d) × IsLabels d
unfolding prep_domain_loop
prep_domain_loop-IsLabels [] buf label e =
    let (added, h, e') = bind-eq-some (prep_label label) (λ a. some (buf ++ a)) e in
    (added, sym (some_inj e'), one (prep_label-IsLabel label h))
prep_domain_loop-IsLabels (c ∷ s) buf label {r} e = elim (Bool-cases (c == b'.')) [
  | inl is_dot ↦
      let (added, h, e') = bind-eq-some (prep_label label) _ (rw is_dot at e) in
      let (d, same, labels) = prep_domain_loop-IsLabels s (buf ++ (added ++ b'.' ∷ [])) [] e' in
      (
        added ++ (b'.' ∷ d),
        same ∙ rw (append_assoc, append_assoc),
        dot (prep_label-IsLabel label h) labels,
      )
  | inr other ↦ prep_domain_loop-IsLabels s buf (label ++ c ∷ []) (rw other at e)
]

label_char-dot : (c : ℕ) → label_char c ≡ true → (c == b'.') ≡ false
unfolding label_char label_illegal
label_char-dot c h = ground arith

prep_domain_loop_label :
    {l : Bytes} (buf label rest : Bytes)
    → AllTrue label_char l
    → prep_domain_loop buf label (l ++ rest) ≡ prep_domain_loop buf (label ++ l) rest
unfolding prep_domain_loop
prep_domain_loop_label buf label rest nil = rw append-nil
prep_domain_loop_label buf label rest (cons {x} {xs} h t) =
    rw (label_char-dot x h) (prep_domain_loop_label buf (label ++ x ∷ []) rest t ∙ rw append_assoc)

prep_domain_loop_fixed :
    {d : Bytes} (buf : Bytes) → IsLabels d → prep_domain_loop buf [] d ≡ some (buf ++ d)
unfolding prep_domain_loop
prep_domain_loop_fixed buf (one {l} h) =
    ap (prep_domain_loop buf []) (sym (append-nil l))
    ∙ prep_domain_loop_label buf [] [] h.chars
    ∙ rw (prep_label_fixed h)
prep_domain_loop_fixed buf (dot {l} {d} h t) =
    prep_domain_loop_label buf [] (b'.' ∷ d) h.chars
    ∙ rw (prep_label_fixed h)
        (prep_domain_loop_fixed (buf ++ (l ++ b'.' ∷ [])) t ∙ rw (append_assoc, append_assoc))

pub prep_domain-IsDomain : (s : Bytes) {r : Bytes} → prep_domain s ≡ some r → IsDomain r
unfolding prep_domain
prep_domain-IsDomain s e =
    let (m, hm, e') = bind-eq-some (prep_domain_loop [] [] s) at_most_1023 e in
    let (same, short) = at_most_1023_inv m e' in
    let (d, r, labels) = prep_domain_loop-IsLabels s [] [] hm in
    rw same (record { labels = subst IsLabels (sym r) labels; short = short })

pub prep_domain_fixed : {s : Bytes} → IsDomain s → prep_domain s ≡ some s
unfolding prep_domain
prep_domain_fixed {s} h = rw (prep_domain_loop_fixed [] h.labels) (at_most_1023_fix s h.short)

label_char-at : (c : ℕ) → label_char c ≡ true → differs b'@' c ≡ true
unfolding label_char label_illegal
label_char-at c h = ground arith

label_char-slash : (c : ℕ) → label_char c ≡ true → differs b'/' c ≡ true
unfolding label_char label_illegal
label_char-slash c h = ground arith

IsLabels-AllTrue :
    (p : ℕ → Bool)
    → p b'.' ≡ true
    → ((c : ℕ) → label_char c ≡ true → p c ≡ true)
    → {s : Bytes} → IsLabels s
    → AllTrue p s
IsLabels-AllTrue p pd pc (one h) = AllTrue-mono pc h.chars
IsLabels-AllTrue p pd pc (dot {l} {d} h t) =
    AllTrue-append (b'.' ∷ d) (AllTrue-mono pc h.chars) (cons pd (IsLabels-AllTrue p pd pc t))

-- A normal domain name holds neither separator of a printed Jid, and is not empty.
pub IsDomain-at : {s : Bytes} → IsDomain s → AllTrue (differs b'@') s
IsDomain-at h = IsLabels-AllTrue _ refl label_char-at h.labels

pub IsDomain-slash : {s : Bytes} → IsDomain s → AllTrue (differs b'/') s
IsDomain-slash h = IsLabels-AllTrue _ refl label_char-slash h.labels

IsLabels-pos : {s : Bytes} → IsLabels s → 0 < length s
IsLabels-pos (one h) = h.nonempty
IsLabels-pos (dot {l} {d} h t) = omega (arith, length-append l (b'.' ∷ d))

pub IsDomain-pos : {s : Bytes} → IsDomain s → 0 < length s
IsDomain-pos h = IsLabels-pos h.labels
