-- ===== src/GuestName/Order.antt =====
-- The order of claims, and the relation of naming one guest (pkg/guestname/guestname.go).
use kubemox.Base.{
  arith, equal_fold_refl, equal_fold_symm, equal_fold_trans, false, text_eq_iff, text_eq_refl,
  text_lt_irrefl, text_lt_total, text_lt_trans, true, ◌≡◌,
}
use kubemox.GuestName.Defs.{Claim, before, conn, same_guest, same_object}

pub same_guest_refl : (c : Claim) → same_guest c c ≡ true
unfolding same_guest
same_guest_refl c = ground (
  arith,
  text_eq_refl (conn c),
  text_eq_refl c.node,
  text_eq_refl c.guest,
  equal_fold_refl c.guest,
)

pub same_guest_symm : (c o : Claim) → same_guest c o ≡ true → same_guest o c ≡ true
unfolding same_guest
same_guest_symm c o h = ground (
  arith,
  text_eq_iff (conn c) (conn o),
  text_eq_iff (conn o) (conn c),
  text_eq_iff c.node o.node,
  text_eq_iff o.node c.node,
  text_eq_iff c.guest o.guest,
  text_eq_iff o.guest c.guest,
  equal_fold_symm c.guest o.guest,
)

pub same_guest_trans :
    (c o p : Claim) → same_guest c o ≡ true → same_guest o p ≡ true → same_guest c p ≡ true
unfolding same_guest
same_guest_trans c o p h k = ground (
  arith,
  text_eq_iff (conn c) (conn o),
  text_eq_iff (conn o) (conn p),
  text_eq_iff (conn c) (conn p),
  text_eq_iff c.node o.node,
  text_eq_iff o.node p.node,
  text_eq_iff c.node p.node,
  text_eq_iff c.guest o.guest,
  text_eq_iff o.guest p.guest,
  text_eq_iff c.guest p.guest,
  equal_fold_trans c.guest o.guest p.guest,
)

-- No claim comes before itself.
pub before_irrefl : (c : Claim) → before c c ≡ false
unfolding before
before_irrefl c =
    ground (arith, text_eq_refl c.kind, text_eq_refl c.namespace, text_lt_irrefl c.name)

-- A claim that comes before one that comes before a third comes before the third.
pub before_trans : (c o p : Claim) → before c o ≡ true → before o p ≡ true → before c p ≡ true
unfolding before
before_trans c o p h k = ground (
  arith,
  text_eq_iff c.kind o.kind,
  text_eq_iff o.kind p.kind,
  text_eq_iff c.kind p.kind,
  text_eq_iff c.namespace o.namespace,
  text_eq_iff o.namespace p.namespace,
  text_eq_iff c.namespace p.namespace,
  text_lt_trans c.kind o.kind p.kind,
  text_lt_trans c.namespace o.namespace p.namespace,
  text_lt_trans c.name o.name p.name,
  text_lt_irrefl c.kind,
  text_lt_irrefl c.namespace,
  text_lt_trans p.kind c.kind p.kind,
)

-- Two claims neither of which comes before the other are of one resource.
pub before_total : (c o : Claim) → before c o ≡ false → before o c ≡ false → same_object c o ≡ true
unfolding before same_object
before_total c o h k = ground (
  arith,
  text_eq_iff c.kind o.kind,
  text_eq_iff o.kind c.kind,
  text_eq_iff c.namespace o.namespace,
  text_eq_iff o.namespace c.namespace,
  text_eq_iff c.name o.name,
  text_lt_total c.kind o.kind,
  text_lt_total c.namespace o.namespace,
  text_lt_total c.name o.name,
)

-- The order reads a claim's creation time and its resource only.
pub before-same_object :
    (a o c : Claim)
    → same_object o c ≡ true
    → o.created ≡ c.created
    → before a o ≡ false
    → before a c ≡ false
unfolding before same_object
before-same_object a o c s e h = ground (
  arith,
  text_eq_iff o.kind c.kind,
  text_eq_iff o.namespace c.namespace,
  text_eq_iff o.name c.name,
  text_eq_iff a.kind c.kind,
  text_eq_iff a.kind o.kind,
  text_eq_iff a.namespace c.namespace,
  text_eq_iff a.namespace o.namespace,
)
