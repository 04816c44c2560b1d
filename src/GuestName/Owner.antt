-- ===== src/GuestName/Owner.antt =====
-- The owner of a guest name: `Owner` in pkg/guestname/guestname.go, over the claims that `List`
-- returns.
use kubemox.Base.{
  All, All-In, Bool-cases, In, List, [], and_false, and_left, and_right, ap, false, inl, inr, refl,
  subst, sym, true, ◌&&◌, ◌∷◌, ◌≡◌, ◌⊎◌,
}
use kubemox.GuestName.Defs.{Claim, before, owner_from, owner_of, same_guest, same_object}
use kubemox.GuestName.Order.{
  before_irrefl, before-same_object, before_total, before_trans, same_guest_refl, same_guest_symm,
  same_guest_trans,
}

-- What `owner_from` guarantees of its result, from the best claim found so far.
abbrev pub IsLeast : Claim → List Claim → Claim → Type 0
IsLeast c claims w = All (λ o. same_guest c o ≡ true → before o w ≡ false) claims

-- `before` is negatively transitive: what is not before `p` stays so when `p` moves down.
not_before_step : (o p w : Claim) → before p w ≡ false → before p o ≡ true → before o w ≡ false
not_before_step o p w h k = elim (Bool-cases (before o w)) [
  | inl e ↦ cc (before_trans p o w k e)
  | inr e ↦ e
]

owner_from_mono :
    (c w : Claim) (claims : List Claim) (o : Claim)
    → before o w ≡ false
    → before o (owner_from c w claims) ≡ false
unfolding owner_from
owner_from_mono c w [] o h = h
owner_from_mono c w (p ∷ claims) o h = elim (Bool-cases (same_guest c p && before p w)) [
  | inl e ↦ rw e (owner_from_mono c p claims o (lower e))
  | inr e ↦ rw e (owner_from_mono c w claims o h)
]
  where
    lower : (same_guest c p && before p w) ≡ true → before o p ≡ false
    lower e = elim (Bool-cases (before o p)) [
      | inl f ↦ cc (before_trans o p w f (and_right (same_guest c p) (before p w) e))
      | inr f ↦ f
    ]

owner_from-lower :
    (c w p : Claim) (claims : List Claim)
    → (same_guest c p && before p w) ≡ true
    → owner_from c w (p ∷ claims) ≡ owner_from c p claims
unfolding owner_from
owner_from-lower c w p claims e = rw e

owner_from-keep :
    (c w p : Claim) (claims : List Claim)
    → (same_guest c p && before p w) ≡ false
    → owner_from c w (p ∷ claims) ≡ owner_from c w claims
unfolding owner_from
owner_from-keep c w p claims e = rw e

owner_from-IsLeast : (c w : Claim) (claims : List Claim) → IsLeast c claims (owner_from c w claims)
owner_from-IsLeast c w [] = tt
owner_from-IsLeast c w (p ∷ claims) = elim (Bool-cases (same_guest c p && before p w)) [
  | inl e ↦
      subst (IsLeast c (p ∷ claims)) (sym (owner_from-lower c w p claims e))
        ((λ _. owner_from_mono c p claims p (before_irrefl p)), owner_from-IsLeast c p claims)
  | inr e ↦ subst (IsLeast c (p ∷ claims)) (sym (owner_from-keep c w p claims e)) (
    (λ s. owner_from_mono c w claims p (and_false (same_guest c p) (before p w) s e)),
    owner_from-IsLeast c w claims,
  )
]

owner_from-same_guest :
    (c w : Claim) (claims : List Claim)
    → same_guest c w ≡ true
    → same_guest c (owner_from c w claims) ≡ true
unfolding owner_from
owner_from-same_guest c w [] h = h
owner_from-same_guest c w (p ∷ claims) h = elim (Bool-cases (same_guest c p && before p w)) [
  | inl e ↦ rw e (owner_from-same_guest c p claims (and_left (same_guest c p) (before p w) e))
  | inr e ↦ rw e (owner_from-same_guest c w claims h)
]

owner_from-In :
    (c w : Claim) (claims : List Claim)
    → (owner_from c w claims ≡ w) ⊎ In (owner_from c w claims) claims
unfolding owner_from
owner_from-In c w [] = inl refl
owner_from-In c w (p ∷ claims) = elim (Bool-cases (same_guest c p && before p w)) [
  | inl e ↦
      subst (λ x. (x ≡ w) ⊎ In x (p ∷ claims)) (sym (owner_from-lower c w p claims e))
        (inr (owner_from-In c p claims))
  | inr e ↦
      subst (λ x. (x ≡ w) ⊎ In x (p ∷ claims)) (sym (owner_from-keep c w p claims e))
        (later (owner_from-In c w claims))
]
  where
    later : {x : Claim} → (x ≡ w) ⊎ In x claims → (x ≡ w) ⊎ ((x ≡ p) ⊎ In x claims)
    later (inl q) = inl q
    later (inr q) = inr (inr q)

-- The owner of a claim names the claim's guest, is the claim or one of the listed, and no listed
-- claim on that guest, nor the claim itself, is older.
pub owner_of_least :
    (c : Claim) (claims : List Claim)
    → (same_guest c (owner_of c claims) ≡ true)
      × ((owner_of c claims ≡ c) ⊎ In (owner_of c claims) claims)
      × (before c (owner_of c claims) ≡ false)
      × ((o : Claim) → In o claims → same_guest c o ≡ true → before o (owner_of c claims) ≡ false)
unfolding owner_of
owner_of_least c claims = (
  owner_from-same_guest c c claims (same_guest_refl c),
  owner_from-In c c claims,
  owner_from_mono c c claims c (before_irrefl c),
  λ o m.
      All-In (λ p. same_guest c p ≡ true → before p (owner_from c c claims) ≡ false) o claims
        (owner_from-IsLeast c c claims) m,
)

-- Two resources that claim one guest find the same owner in the same list, if both are listed.
pub owner_of_agree :
    (c d : Claim) (claims : List Claim)
    → In c claims
    → In d claims
    → same_guest c d ≡ true
    → same_object (owner_of c claims) (owner_of d claims) ≡ true
owner_of_agree c d claims mc md h =
    before_total (owner_of c claims) (owner_of d claims)
      (not_older c d (owner_of_least c claims) (owner_of_least d claims) mc h)
      (not_older d c (owner_of_least d claims) (owner_of_least c claims) md (same_guest_symm c d h))
  where
    Least : Claim → Type 0
    Least a =
        (same_guest a (owner_of a claims) ≡ true)
        × ((owner_of a claims ≡ a) ⊎ In (owner_of a claims) claims)
        × (before a (owner_of a claims) ≡ false)
        × ((o : Claim) → In o claims → same_guest a o ≡ true → before o (owner_of a claims) ≡ false)

    not_older :
        (a b : Claim)
        → Least a
        → Least b
        → In a claims
        → same_guest a b ≡ true
        → before (owner_of a claims) (owner_of b claims) ≡ false
    not_older a b la lb ma s = elim la.1 [
      | inl e ↦ rw e (lb.3 a ma (same_guest_symm a b s))
      | inr m ↦
          lb.3 (owner_of a claims) m
            (same_guest_trans b a (owner_of a claims) (same_guest_symm a b s) la.0)
    ]

-- A listed claim of the resource itself shows the creation time that the resource has.
abbrev pub KnowsCreation : Claim → List Claim → Type 0
KnowsCreation c claims = All (λ o. same_object o c ≡ true → o.created ≡ c.created) claims

same_owners :
    (c d : Claim) (seen_by_c seen_by_d : List Claim)
    → In d seen_by_c
    → In c seen_by_d
    → KnowsCreation c seen_by_c
    → KnowsCreation d seen_by_d
    → same_guest c d ≡ true
    → same_object (owner_of c seen_by_c) c ≡ true
    → same_object (owner_of d seen_by_d) d ≡ true
    → same_object c d ≡ true
same_owners c d l m dl cm kc kd s oc od =
    before_total c d (older c d m kd cm (same_guest_symm c d s) od) (older d c l kc dl s oc)
  where
    older :
        (a b : Claim) (n : List Claim)
        → KnowsCreation b n
        → In a n
        → same_guest b a ≡ true
        → same_object (owner_of b n) b ≡ true
        → before a b ≡ false
    older a b n k i g o =
        before-same_object a (owner_of b n) b o
          (elim (owner_of_least b n).1 [
            | inl e ↦ ap (λ (x : Claim). x.created) e
            | inr j ↦
                All-In (λ x. same_object x b ≡ true → x.created ≡ b.created) (owner_of b n) n k j o
          ])
          ((owner_of_least b n).3 a i g)

-- Of two different resources that claim one guest, each of which is in the list that the other
-- reads, where each list shows the reader's own creation time if it shows the reader: if the one finds
-- itself the owner, the other does not. The lists may differ.
pub owner_of_unique :
    (c d : Claim) (seen_by_c seen_by_d : List Claim)
    → In d seen_by_c
    → In c seen_by_d
    → KnowsCreation c seen_by_c
    → KnowsCreation d seen_by_d
    → same_guest c d ≡ true
    → same_object c d ≡ false
    → same_object (owner_of c seen_by_c) c ≡ true
    → same_object (owner_of d seen_by_d) d ≡ false
owner_of_unique c d l m dl cm kc kd s n oc = elim (Bool-cases (same_object (owner_of d m) d)) [
  | inl od ↦ cc (same_owners c d l m dl cm kc kd s oc od)
  | inr e ↦ e
]
