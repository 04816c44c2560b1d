-- ===== src/Controller/Admission.antt =====
-- What the admission webhook of internal/webhook/proxmox/v1alpha1/name_webhook.go promises.
use kubemox.Base.{
  All, Bool, In, List, Option-cases, Text, [], arith, bytes, false, if◌then◌else◌, inl, inr, length,
  ltb, none, refl, some, true, ℕ, ◌++◌, ◌<◌, ◌↔◌, ◌∷◌, ◌≡◌, ◌⊎◌,
}
use kubemox.Client.FromRef.{new_client_from_ref}
use kubemox.Client.Lookup.{container_ids_by_name, vmids_by_name}
use kubemox.Controller.Claims.{claim_string, list_claims, quoted}
use kubemox.Controller.Webhook.{check_on_proxmox, taken_by, unchecked, validate}
use kubemox.GuestName.Defs.{Claim, conn, same_guest, same_object}
use kubemox.World.Ends.{bind-ok}
use kubemox.World.Error.{Error, other}
use kubemox.World.Monad.{
  Action, Outcome, World, err, fail, handle, ok, on_option, panic, return, ◌>>=◌,
}

-- A claim of the list that another object holds on the guest.
abbrev pub Rival : Claim → Claim → Type 0
Rival c o = (same_object o c ≡ false) × (same_guest c o ≡ true)

-- The search for a rival is exact: it finds none if and only if the list has none, and what it finds is
-- a rival of the list.
pub taken_by_lem :
    (c : Claim) (others : List Claim)
    → ((taken_by c others ≡ none) ↔ All (λ o. ¬ Rival c o) others)
      × ((o : Claim) → taken_by c others ≡ some o → In o others × Rival c o)
unfolding taken_by
taken_by_lem c [] = ground arith
taken_by_lem c (p ∷ others) = ground (arith, taken_by_lem c others)

abbrev on_claims : Claim → List Claim → Action (List Text)
on_claims c others = on_option (taken_by c others) (check_on_proxmox c) (λ o. fail (
    other (
      bytes "spec.name "
      ++ quoted c.guest
      ++ bytes " is already used by "
      ++ claim_string o
      ++ bytes " on node "
      ++ quoted c.node
      ++ bytes " of ProxmoxConnection "
      ++ quoted (conn c))))

on_claims-ok :
    (c : Claim) (others : List Claim) (w w' : World) (warnings : List Text)
    → on_claims c others w ≡ ok warnings w'
    → taken_by c others ≡ none
unfolding on_option fail
on_claims-ok c others w w' warnings h = ground arith

-- An admitted resource has no rival: where `validate` ends with no error, it has listed the claims, and
-- no other object's claim in the list is on the same guest.
pub admitted-NoRival :
    (c : Claim) (w w' : World) (warnings : List Text)
    → validate c w ≡ ok warnings w'
    → (others : List Claim) × (w1 : World) × (list_claims c.lxc w ≡ ok others w1)
      × All (λ o. ¬ Rival c o) others
unfolding validate on_option fail
admitted-NoRival c w w' warnings h =
    let p = bind-ok (list_claims c.lxc) (on_claims c) w h in
    (p.0, p.1, p.2, (taken_by_lem c p.0).0.0 (on_claims-ok c p.0 p.1 w' warnings p.3))

-- More than one guest on Proxmox has the claim's name: the client and the listing of the guests answered,
-- one after the other.
abbrev pub SeveralGuests : Claim → World → Type 0
SeveralGuests c w =
    (pc : ℕ) × (w1 : World) × (ids : List ℕ) × (w2 : World) × (new_client_from_ref c.conn_ref w
      ≡ ok pc w1)
    × ((if c.lxc then container_ids_by_name pc c.guest c.node else vmids_by_name pc c.guest c.node)
          w1
        ≡ ok ids w2)
    × (1 < length ids)

-- Whether an outcome is a success.
abbrev is_ok : {A : Type 0} → Outcome A → Bool
is_ok (ok _ _) = true
is_ok (err _ _) = false
is_ok (panic _) = false

handled-err :
    {A B : Type 0} (m : Action A) (h : Error → Action B) (f : A → Action B) (w w' : World)
    (e : Error)
    → ((x : Error) (v : World) → is_ok (h x v) ≡ true)
    → handle m h f w ≡ err e w'
    → (a : A) × (w1 : World) × (m w ≡ ok a w1) × (f a w1 ≡ err e w')
unfolding handle
handled-err {A} {B} m h f w w' e k r = go (m w) refl
  where
    go : (o : Outcome A) → m w ≡ o → (a : A) × (w1 : World) × (m w ≡ ok a w1) × (f a w1 ≡ err e w')
    go (ok a w1) q = (a, w1, q, ground arith)
    go (err x w1) q = ground (arith, k x w1)
    go (panic w1) q = ground arith

abbrev listing_on : Claim → ℕ → Action (List ℕ)
listing_on c pc =
    if c.lxc then container_ids_by_name pc c.guest c.node else vmids_by_name pc c.guest c.node

abbrev judge : Claim → List ℕ → Action (List Text)
judge c ids =
    if ltb 1 (length ids)
    then fail (
        other (
          bytes "spec.name "
          ++ quoted c.guest
          ++ bytes " matches several guests on Proxmox node "
          ++ quoted c.node))
    else return []

abbrev count_on : Claim → ℕ → Action (List Text)
count_on c pc = handle (listing_on c pc) unchecked (judge c)

several :
    (c : Claim) (ids : List ℕ) (w w' : World) (e : Error)
    → judge c ids w ≡ err e w'
    → 1 < length ids
unfolding return fail
several c ids w w' e h = ground arith

check_rejects :
    (c : Claim) (w w' : World) (e : Error) → check_on_proxmox c w ≡ err e w' → SeveralGuests c w
unfolding check_on_proxmox return fail
check_rejects c w w' e h =
    let p =
      handled-err (new_client_from_ref c.conn_ref) unchecked (count_on c) w w' e (λ x v. refl) h in
    let q = handled-err (listing_on c p.0) unchecked (judge c) p.1 w' e (λ x v. refl) p.3 in
    (p.0, p.1, q.0, q.1, p.2, q.2, several c q.0 q.1 w' e q.3)

cause_of :
    (c : Claim) (others : List Claim) (w w' : World) (e : Error)
    → on_claims c others w ≡ err e w'
    → ((o : Claim) × In o others × Rival c o) ⊎ SeveralGuests c w
unfolding on_option
cause_of c others w w' e h = elim (Option-cases (taken_by c others)) [
  | inl n ↦ inr (check_rejects c w w' e (ground (arith, n, h)))
  | inr p ↦ let found = (taken_by_lem c others).1 p.0 p.1 in inl (p.0, found.0, found.1)
]

-- A resource is rejected for one of three causes: the claims could not be listed, and their error is the
-- rejection's; the list has a rival; or several guests on Proxmox have its name. An error of the client or
-- of the listing on Proxmox rejects nothing.
pub rejected-HasCause :
    (c : Claim) (w w' : World) (e : Error)
    → validate c w ≡ err e w'
    → (list_claims c.lxc w ≡ err e w')
      ⊎ ((others : List Claim) × (w1 : World) × (list_claims c.lxc w ≡ ok others w1)
          × (((o : Claim) × In o others × Rival c o) ⊎ SeveralGuests c w1))
unfolding validate ◌>>=◌ on_option fail
rejected-HasCause c w w' e h = go (list_claims c.lxc w) refl
  where
    go :
        (r : Outcome (List Claim))
        → list_claims c.lxc w ≡ r
        → (list_claims c.lxc w ≡ err e w')
          ⊎ ((others : List Claim) × (w1 : World) × (list_claims c.lxc w ≡ ok others w1)
              × (((o : Claim) × In o others × Rival c o) ⊎ SeveralGuests c w1))
    go (ok others w1) k = inr (others, w1, k, cause_of c others w1 w' e (ground (arith, h, k)))
    go (err x w1) k = inl (ground (arith, h, k))
    go (panic w1) k = ground (arith, h, k)
