-- ===== src/Tests/Jids.antt =====
-- Jids (jid.cc).
use txmpp.Common.{
  ℕ, Bool, true, false, ◌≡◌, refl, ◌↔◌, ◌⊎◌, inl, inr, ◌<◌, ◌≤◌, ◌%◌, ◌^◌, Option, none, some, [],
  ◌∷◌, ◌++◌, Bytes, codes, compare, compare_bytes, Ordering, length,
}
use txmpp.Jid.{
  JidData, Jid, parse, from_parts, str, compare_jid, jid_eq, bare_jid, is_bare, is_full, is_valid,
  bare_equals, compute_lame_hash,
}
use txmpp.Jid.Prep.{Ctype, prep_resource}
use txmpp.Jid.RoundTrip.{IsNormal, parse-str, parse-IsNormal}

abbrev pub ascii : Ctype
ascii = record { tolower = λ c. c; tolower_high = λ c h. h; tolower_idem = λ c. refl }

abbrev pub joe : JidData
joe = record {
  node_name = codes "joe";
  domain_name = codes "example.com";
  resource_name = codes "home";
}

abbrev pub ann : JidData
ann = record { node_name = codes "ann"; domain_name = codes "example.com"; resource_name = [] }

abbrev printed_joe : Bytes
printed_joe = codes "Joe@EXAMPLE.com/home"

parse_printed : parse (λ c. c) printed_joe ≡ some joe
unfolding parse txmpp.Common.is_empty from_parts txmpp.Jid.domain_of txmpp.Common.find_char
    txmpp.Jid.Prep.prep_node txmpp.Jid.Prep.map_chars txmpp.Jid.Prep.prep_node_char
    txmpp.Jid.Prep.prep_node_ascii txmpp.Jid.Prep.node_illegal txmpp.Jid.Prep.at_most_1023
    txmpp.Jid.Prep.prep_domain txmpp.Jid.Prep.prep_domain_loop txmpp.Jid.Prep.prep_label
    txmpp.Jid.Prep.prep_label_char txmpp.Jid.Prep.prep_label_ascii txmpp.Jid.Prep.check_label
    txmpp.Jid.Prep.first_is txmpp.Common.starts_with txmpp.Jid.Prep.label_illegal
    txmpp.Jid.Prep.last_is prep_resource txmpp.Jid.Prep.prep_resource_ascii
    txmpp.Jid.Prep.prep_resource_char txmpp.Jid.Prep.prep_resource_chars
parse_printed = refl

pub joe-IsNormal : IsNormal (λ c. c) joe
joe-IsNormal = parse-IsNormal ascii printed_joe [] [] [] (inl parse_printed)

parse-IsNormal_example : IsNormal (λ c. c) joe
parse-IsNormal_example = parse-IsNormal ascii printed_joe [] [] [] (inl parse_printed)

parse-str_example : parse (λ c. c) (str (some joe)) ≡ some joe
parse-str_example = parse-str ascii joe joe-IsNormal

ann_first : compare_jid (some ann) (some joe) ≡ Ordering.lt
unfolding compare_jid compare_bytes
ann_first = refl

abbrev zoe : JidData
zoe = record { node_name = codes "zoe"; domain_name = codes "example.com"; resource_name = [] }
