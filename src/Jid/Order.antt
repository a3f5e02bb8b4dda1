-- ===== src/Jid/Order.antt =====
-- Jid::Compare and operator== (jid.cc) as an order.
use txmpp.Common.{
  true, ◌≡◌, ◌↔◌, refl, [], ◌∷◌, none, some, Bytes, arith, Ordering, compare_bytes,
  compare_bytes-eq_iff, beq_iff,
}
use txmpp.Jid.{Jid, compare_jid, jid_eq}

abbrev opposite : Ordering → Ordering
opposite Ordering.lt = Ordering.gt
opposite Ordering.eq = Ordering.eq
opposite Ordering.gt = Ordering.lt

compare_bytes-opposite : (a b : Bytes) → compare_bytes b a ≡ opposite (compare_bytes a b)
unfolding compare_bytes
compare_bytes-opposite [] [] = refl
compare_bytes-opposite (x ∷ a) (y ∷ b) = ground (arith, compare_bytes-opposite a b)
compare_bytes-opposite _ _ = refl

-- Compare returns zero exactly for Jids that operator== holds of, and exactly for equal ones.
pub compare_jid-eq_iff :
    (a b : Jid) → ((compare_jid a b ≡ Ordering.eq) ↔ (a ≡ b)) × ((jid_eq a b ≡ true) ↔ (a ≡ b))
unfolding compare_jid jid_eq
compare_jid-eq_iff (some a) (some b) = ground (
  arith,
  compare_bytes-eq_iff a.node_name b.node_name,
  compare_bytes-eq_iff a.domain_name b.domain_name,
  compare_bytes-eq_iff a.resource_name b.resource_name,
  beq_iff b.node_name a.node_name,
  beq_iff b.domain_name a.domain_name,
  beq_iff b.resource_name a.resource_name,
)
compare_jid-eq_iff _ _ = ground arith

-- Swapping the arguments of Compare swaps its sign.
pub compare_jid-opposite : (a b : Jid) → compare_jid b a ≡ opposite (compare_jid a b)
unfolding compare_jid
compare_jid-opposite (some a) (some b) = ground (
  arith,
  compare_bytes-opposite a.node_name b.node_name,
  compare_bytes-opposite a.domain_name b.domain_name,
  compare_bytes-opposite a.resource_name b.resource_name,
)
compare_jid-opposite none none = refl
compare_jid-opposite _ _ = refl
