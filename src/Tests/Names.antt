-- ===== src/Tests/Names.antt =====
-- The theorems on guest names, at the two virtual machines of the scenario.
use kubemox.Base.{In, arith, equal_fold, false, inl, inr, refl, text_eq, text_lt, true, ◌≡◌, ◌⊎◌}
use kubemox.GuestName.Defs.{
  Claim, before, conn, for_vm, owner_from, owner_of, same_guest, same_object,
}
use kubemox.GuestName.Owner.{owner_of_agree, owner_of_least, owner_of_unique}
use kubemox.Scenario.{both, elder_claim, younger_claim}

owner_of_unique_example : same_object (owner_of younger_claim both) younger_claim ≡ false
unfolding same_object owner_of owner_from same_guest before for_vm conn text_eq equal_fold text_lt
owner_of_unique_example =
    owner_of_unique elder_claim younger_claim both both (inr (inl refl)) (inl refl)
      ((λ _. refl), ((λ h. ground arith), tt)) ((λ h. ground arith), ((λ _. refl), tt)) refl refl
      refl

owner_of_least_example :
    (same_guest younger_claim (owner_of younger_claim both) ≡ true)
    × ((owner_of younger_claim both ≡ younger_claim) ⊎ In (owner_of younger_claim both) both)
    × (before younger_claim (owner_of younger_claim both) ≡ false)
    × ((o : Claim)
        → In o both
        → same_guest younger_claim o ≡ true
        → before o (owner_of younger_claim both) ≡ false)
owner_of_least_example = owner_of_least younger_claim both

owner_of_agree_example :
    same_object (owner_of elder_claim both) (owner_of younger_claim both) ≡ true
unfolding same_guest for_vm conn text_eq equal_fold
owner_of_agree_example =
    owner_of_agree elder_claim younger_claim both (inl refl) (inr (inl refl)) refl
