-- ===== src/Jid/RoundTrip.antt =====
-- The two validating constructors, and printing a Jid to parse it again.
use mathlib.Core.List.{append_assoc, append-nil}
use mathlib.Core.Option
use txmpp.Common.{
  ℕ, suc, ◌+◌, ◌<◌, false, ◌≡◌, refl, ◌∙◌, ap, inl, inr, ◌⊎◌, [], ◌∷◌, ◌++◌, Option, none, some,
  codes, Bytes, length, take, drop, arith, AllTrue, cons, AllTrue-append, length-append, differs,
  Bool-cases, subst, some_inj, bind-eq-some, is_empty, find_char, find_char-append, find_char-none,
  find_char_skip, take-append_eq, take-length_eq, starts_with-take, take-append, drop-append_next,
}
use txmpp.Jid.{
  JidData, from_parts, resource_of, split_node, domain_length, domain_of, parse, str_data, str,
}
use txmpp.Jid.Chars.{
  IsNode, IsResource, prep_node-IsNode, prep_node_fixed, prep_resource-IsResource,
  prep_resource_fixed, IsNode-at, IsNode-slash,
}
use txmpp.Jid.Domain.{
  IsDomain, prep_domain-IsDomain, prep_domain_fixed, IsDomain-at, IsDomain-slash, IsDomain-pos,
}
use txmpp.Jid.Prep.{Ctype, prep_node, prep_domain, prep_resource}

-- The three parts of a Jid as the validating constructors leave them.
pub record IsNormal (tolower : ℕ → ℕ) (d : JidData) : Type 0 where
  pub node : IsNode tolower d.node_name
  pub domain : IsDomain d.domain_name
  pub resource : IsResource d.resource_name

pub is_empty_pos : (s : Bytes) → 0 < length s → is_empty s ≡ false
unfolding is_empty
is_empty_pos [] h = absurd (omega arith)
is_empty_pos (x ∷ s) h = refl

domain_of_lem : (begin len : ℕ) (s : Bytes) → domain_of begin len s ≡ take len (drop begin s)
unfolding domain_of
domain_of_lem begin len s = ground (
  arith,
  starts_with-take (codes "gmail.com") (drop begin s),
  starts_with-take (codes "googlemail.com") (drop begin s),
  starts_with-take (codes "google.com") (drop begin s),
)

module _ (ct : Ctype) where
  pub from_parts-IsNormal :
      (n d r : Bytes) {data' : JidData}
      → from_parts ct.tolower n d r ≡ some data'
      → IsNormal ct.tolower data'
  unfolding from_parts
  from_parts-IsNormal n d r {data'} e = elim (Bool-cases (is_empty d)) [
    | inl none_given ↦ absurd (let e' : none ≡ some data' = rw none_given at e in cc)
    | inr given ↦
        let (n', hn, e1) = bind-eq-some (prep_node ct.tolower n) _ (rw given at e) in
        let (d', hd, e2) = bind-eq-some (prep_domain d) _ e1 in
        let (r', hr, e3) = bind-eq-some (prep_resource r) _ e2 in
        subst (IsNormal ct.tolower) (some_inj e3) (record {
          node = prep_node-IsNode ct n hn;
          domain = prep_domain-IsDomain d hd;
          resource = prep_resource-IsResource r hr;
        })
  ]

  pub from_parts_fixed :
      (d : JidData)
      → IsNormal ct.tolower d
      → from_parts ct.tolower d.node_name d.domain_name d.resource_name ≡ some d
  unfolding from_parts
  from_parts_fixed d h = rw (
    is_empty_pos d.domain_name (IsDomain-pos h.domain),
    prep_node_fixed ct h.node,
    prep_domain_fixed h.domain,
    prep_resource_fixed h.resource,
  )

parse_pieces :
    (tolower : ℕ → ℕ) (s node domain : Bytes) (slash : Option ℕ) (begin : ℕ)
    → is_empty s ≡ false
    → find_char b'/' s ≡ slash
    → split_node (find_char b'@' s) slash s ≡ (node, begin)
    → take (domain_length slash begin s) (drop begin s) ≡ domain
    → parse tolower s ≡ from_parts tolower node domain (resource_of slash s)
unfolding parse
parse_pieces tolower s node domain slash begin ne hs hn hd = rw (hs, hn, ne, domain_of_lem, hd)

-- The four shapes of a printed Jid, by which of node and resource stand in it.
module _ (tolower : ℕ → ℕ) (n dom r : Bytes) where
  module _ (dom_at : AllTrue (differs b'@') dom) (dom_slash : AllTrue (differs b'/') dom) where
    parse_domain : is_empty dom ≡ false → parse tolower dom ≡ from_parts tolower [] dom []
    parse_domain ne =
        parse_pieces tolower dom [] dom none 0 ne (find_char-none b'/' dom_slash)
          (rw (find_char-none b'@' dom_at)) (take-length_eq dom (omega arith))

    no_node :
        (at : Option ℕ)
        → split_node (Option.map (◌+◌ (length dom)) at) (some (length dom)) (dom ++ (b'/' ∷ r))
          ≡ ([], 0)
    no_node none = refl
    no_node (some k) = ground arith

    parse_domain_resource :
        is_empty (dom ++ (b'/' ∷ r)) ≡ false
        → parse tolower (dom ++ (b'/' ∷ r)) ≡ from_parts tolower [] dom r
    parse_domain_resource ne =
        parse_pieces tolower _ [] dom (some (length dom)) 0 ne (find_char-append b'/' r dom_slash)
          (rw (find_char_skip b'@' (b'/' ∷ r) dom_at) (no_node (find_char b'@' (b'/' ∷ r))))
          (take-append_eq dom (b'/' ∷ r) (omega arith))
        ∙ ap (from_parts tolower [] dom) (drop-append_next dom b'/' r)

    module _ (node_at : AllTrue (differs b'@') n) (node_slash : AllTrue (differs b'/') n) where
      split_before :
          length (n ++ (b'@' ∷ dom)) ≡ length n + suc (length dom)
          → split_node
              (some (length n))
              (some (length (n ++ (b'@' ∷ dom))))
              (n ++ (b'@' ∷ (dom ++ (b'/' ∷ r))))
            ≡ (n, length n + 1)
      split_before long = ground (arith, take-append n (b'@' ∷ (dom ++ (b'/' ∷ r))))

      parse_node_domain :
          is_empty (n ++ (b'@' ∷ dom)) ≡ false
          → parse tolower (n ++ (b'@' ∷ dom)) ≡ from_parts tolower n dom []
      parse_node_domain ne =
          parse_pieces tolower _ n dom none (length n + 1) ne
            (find_char-none b'/' (AllTrue-append (b'@' ∷ dom) node_slash (cons refl dom_slash)))
            (rw (find_char-append b'@' dom node_at, take-append n (b'@' ∷ dom)))
            (rw (drop-append_next n b'@' dom)
              (take-length_eq dom (omega (arith, length-append n (b'@' ∷ dom)))))

      parse_all :
          is_empty ((n ++ (b'@' ∷ dom)) ++ (b'/' ∷ r)) ≡ false
          → parse tolower ((n ++ (b'@' ∷ dom)) ++ (b'/' ∷ r)) ≡ from_parts tolower n dom r
      parse_all ne =
          let long = length-append n (b'@' ∷ dom) in
          parse_pieces tolower _ n dom (some (length (n ++ (b'@' ∷ dom)))) (length n + 1) ne
            (find_char-append b'/' r (AllTrue-append (b'@' ∷ dom) node_slash (cons refl dom_slash)))
            (rw
              (
                append_assoc n (b'@' ∷ dom) (b'/' ∷ r),
                find_char-append b'@' (dom ++ (b'/' ∷ r)) node_at,
              )
              (split_before long))
            (rw
              (append_assoc n (b'@' ∷ dom) (b'/' ∷ r), drop-append_next n b'@' (dom ++ (b'/' ∷ r)))
              (take-append_eq dom (b'/' ∷ r) (omega (arith, long))))
          ∙ ap (from_parts tolower n dom) (drop-append_next (n ++ (b'@' ∷ dom)) b'/' r)

is_empty-append : (p : Bytes) (x : ℕ) (q : Bytes) → is_empty (p ++ (x ∷ q)) ≡ false
unfolding is_empty
is_empty-append [] x q = refl
is_empty-append (y ∷ p) x q = refl

str_valid : (d : JidData) → is_empty d.domain_name ≡ false → str (some d) ≡ str_data d
unfolding str
str_valid d e = rw e refl

module _ {tolower : ℕ → ℕ} where
  parse-str_data :
      (n dom r : Bytes)
      → IsNode tolower n
      → IsDomain dom
      → parse tolower (str_data (record { node_name = n; domain_name = dom; resource_name = r }))
        ≡ from_parts tolower n dom r
  unfolding is_empty
  parse-str_data [] dom [] hn hd = rw append-nil (
      parse_domain tolower [] dom [] (IsDomain-at hd) (IsDomain-slash hd)
        (is_empty_pos dom (IsDomain-pos hd)))
  parse-str_data [] dom (x ∷ r) hn hd =
      parse_domain_resource tolower [] dom (x ∷ r) (IsDomain-at hd) (IsDomain-slash hd)
        (is_empty-append dom b'/' (x ∷ r))
  parse-str_data (y ∷ n) dom [] hn hd = rw append-nil (
      parse_node_domain tolower (y ∷ n) dom [] (IsDomain-at hd) (IsDomain-slash hd) (IsNode-at hn)
        (IsNode-slash hn) refl)
  parse-str_data (y ∷ n) dom (x ∷ r) hn hd =
      parse_all tolower (y ∷ n) dom (x ∷ r) (IsDomain-at hd) (IsDomain-slash hd) (IsNode-at hn)
        (IsNode-slash hn) refl

-- A Jid with normal parts is read back from its printed form, part by part.
pub parse-str :
    (ct : Ctype) (d : JidData) → IsNormal ct.tolower d → parse ct.tolower (str (some d)) ≡ some d
parse-str ct d h =
    ap (parse ct.tolower) (str_valid d (is_empty_pos d.domain_name (IsDomain-pos h.domain)))
    ∙ parse-str_data d.node_name d.domain_name d.resource_name h.node h.domain
    ∙ from_parts_fixed ct d h

-- Whatever either constructor accepts has a node of at most 1023 characters that prepNode leaves
-- alone, a domain name of at most 1023 bytes made of labels (each of one to 63 legal bytes, with
-- no hyphen at an end), and a resource of at most 1023 bytes with no control character that
-- prepResource knows but NUL.
pub parse-IsNormal :
    (ct : Ctype) (s n d r : Bytes) {j : JidData}
    → (parse ct.tolower s ≡ some j) ⊎ (from_parts ct.tolower n d r ≡ some j)
    → IsNormal ct.tolower j
unfolding parse
parse-IsNormal ct s n d r {j} (inr e) = from_parts-IsNormal ct n d r e
parse-IsNormal ct s n d r {j} (inl e) = elim (Bool-cases (is_empty s)) [
  | inl none_given ↦ absurd (let e' : none ≡ some j = rw none_given at e in cc)
  | inr given ↦ from_parts-IsNormal ct _ _ _ (rw given at e)
]
