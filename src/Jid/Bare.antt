-- ===== src/Jid/Bare.antt =====
-- BareJid and the tests on Jids, the resource check, and the hash.
use txmpp.Common.{
  ℕ, suc, ◌+◌, ◌*◌, ◌%◌, ◌^◌, ◌<◌, ◌≤◌, true, false, ◌≡◌, ◌⊎◌, refl, ap, ◌∙◌, [], ◌∷◌, ◌++◌, none,
  some, Bytes, ltb, length, is_empty, arith, beq_refl, Bool-cases, inl, inr,
}
use txmpp.Jid.{
  JidData, is_valid, is_full, is_bare, bare_jid, bare_equals, char_to_uint32, hash_loop,
  compute_lame_hash,
}
use txmpp.Jid.Chars.{nil_IsResource}
use txmpp.Jid.Domain.{IsDomain-pos}
use txmpp.Jid.Prep.{Ctype, prep_resource, prep_resource_chars, at_most_1023}
use txmpp.Jid.RoundTrip.{IsNormal, from_parts_fixed, is_empty_pos}

abbrev without_resource : JidData → JidData
without_resource d = record d { resource_name = [] }

is_empty_nil : (s : Bytes) → is_empty s ≡ true → s ≡ []
unfolding is_empty
is_empty_nil [] h = refl
is_empty_nil (x ∷ s) h = cc

module _ (ct : Ctype) (d : JidData) (h : IsNormal ct.tolower d) where
  given : is_empty d.domain_name ≡ false
  given = is_empty_pos d.domain_name (IsDomain-pos h.domain)

  IsNormal-bare : IsNormal ct.tolower (without_resource d)
  IsNormal-bare = record { node = h.node; domain = h.domain; resource = nil_IsResource }

  bare_jid_parts : bare_jid ct.tolower (some d) ≡ some (without_resource d)
  unfolding bare_jid
  bare_jid_parts = elim (Bool-cases (is_empty d.resource_name)) [
    | inl none_left ↦
        rw (given, none_left)
          (ap (λ r. some (record d { resource_name = r })) (is_empty_nil d.resource_name none_left))
    | inr full ↦ rw (given, full) (from_parts_fixed ct (without_resource d) IsNormal-bare)
  ]

  bare_jid_tests :
      (is_bare (some (without_resource d)) ≡ true)
      × (is_full (some (without_resource d)) ≡ false)
      × (bare_equals (some d) (some (without_resource d)) ≡ true)
      × (is_valid (some (without_resource d)) ≡ true)
  unfolding is_bare is_full bare_equals is_empty
  bare_jid_tests = ground (arith, given, beq_refl d.node_name, beq_refl d.domain_name)

-- Of a Jid with normal parts BareJid keeps node and domain and drops the resource. The result is
-- valid, bare, not full, equal to the Jid by BareEquals, and BareJid leaves it as it is.
pub bare_jid_normal :
    (ct : Ctype) (d : JidData)
    → IsNormal ct.tolower d
    → let bare = bare_jid ct.tolower (some d) in
      (bare ≡ some (record d { resource_name = [] }))
      × (is_bare bare ≡ true)
      × (is_full bare ≡ false)
      × (bare_equals (some d) bare ≡ true)
      × (is_valid bare ≡ true)
      × (bare_jid ct.tolower bare ≡ bare)
bare_jid_normal ct d h =
    let e = bare_jid_parts ct d h in
    let again = bare_jid_parts ct (without_resource d) (IsNormal-bare ct d h) in
    let t = bare_jid_tests ct d h in rw e (refl, t.0, t.1, t.2, t.3, again)

length-prep_resource_chars : (s : Bytes) → length (prep_resource_chars s) ≡ length s
unfolding prep_resource_chars
length-prep_resource_chars [] = refl
length-prep_resource_chars (c ∷ s) = ap suc (length-prep_resource_chars s)

-- prepResource refuses a resource for its length and for nothing else: one of more than 1023
-- bytes, and no other; whatever control characters the others hold, they come back at full length.
pub prep_resource_refuses :
    (s : Bytes)
    → ((1023 < length s) × (prep_resource s ≡ none))
      ⊎ ((r : Bytes) × (length s ≤ 1023) × (prep_resource s ≡ some r) × (length r ≡ length s))
unfolding prep_resource at_most_1023
prep_resource_refuses s =
    let e = length-prep_resource_chars s in
    elim (Bool-cases (ltb 1023 (length s))) [
      | inl long ↦ inl (ground arith, ground (arith, e))
      | inr short ↦ inr (prep_resource_chars s, ground arith, ground (arith, e), e)
    ]

-- The hash as a polynomial: each character counts 5 to the number of characters behind it.
abbrev pub horner : ℕ → Bytes → ℕ
horner h [] = h
horner h (c ∷ s) = horner (h * 5 + char_to_uint32 c) s

horner-append : (h : ℕ) (a b : Bytes) → horner h (a ++ b) ≡ horner (horner h a) b
horner-append h [] b = refl
horner-append h (c ∷ a) b = horner-append (h * 5 + char_to_uint32 c) a b

hash_round :
    (g n : ℕ) → (((g % 2 ^ 32) * 4) % 2 ^ 32 + g % 2 ^ 32) % 2 ^ 32 + n ≡ (g * 5) % 2 ^ 32 + n
hash_round g n = omega arith

hash_loop-horner : (g : ℕ) (s : Bytes) → hash_loop (g % 2 ^ 32) s ≡ horner g s % 2 ^ 32
unfolding hash_loop
hash_loop-horner g [] = refl
hash_loop-horner g (c ∷ s) =
    ap (λ n. hash_loop (n % 2 ^ 32) s) (hash_round g (char_to_uint32 c))
    ∙ ap (λ n. hash_loop n s) (let k = char_to_uint32 c in omega arith)
    ∙ hash_loop-horner (g * 5 + char_to_uint32 c) s

-- The hash of a Jid that is not null is one polynomial, modulo 2^32, in the characters of node,
-- domain and resource put together.
pub compute_lame_hash_lem :
    (d : JidData)
    → compute_lame_hash (some d)
      ≡ horner 0 (d.node_name ++ (d.domain_name ++ d.resource_name)) % 2 ^ 32
unfolding compute_lame_hash
compute_lame_hash_lem d =
    rw (horner-append 0 d.node_name, horner-append _ d.domain_name d.resource_name)
      (rw (← hash_loop-horner) (
        ap (λ h. hash_loop (hash_loop h d.domain_name) d.resource_name)
          (hash_loop-horner 0 d.node_name)
        ∙ ap (λ h. hash_loop h d.resource_name) (hash_loop-horner _ d.domain_name)))
