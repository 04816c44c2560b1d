-- ===== src/Client/NetworkBounds.antt =====
-- The loops of `configureVirtualMachineNetwork` of pkg/proxmox/virtualmachine.go and the bounds of the
-- slices that they index.
use kubemox.Api.{VirtualMachine, VirtualMachineNetwork}
use kubemox.Base.{
  Bool-cases, List, Option-cases, [], arith, false, get_elem?, inl, inr, length, refl, some, suc,
  zero, ℕ, ◌+◌, ◌<◌, ◌==◌, ◌∷◌, ◌≡◌, ◌≤◌,
}
use kubemox.Client.Network.{change_network, change_networks, same_network}
use kubemox.Client.Options.{update_network_config}
use kubemox.World.Monad.{Action, Outcome, World, crash, err, ok, on_option, panic, ◌>>=◌, ◌>>◌}

get_elem?-some :
    {A : Type 0} (xs : List A) (i : ℕ) (x : A) → get_elem? xs i ≡ some x → i < length xs
get_elem?-some [] i x h = ground arith
get_elem?-some (y ∷ xs) zero x h = ground arith
get_elem?-some (y ∷ xs) (suc i) x h = ground (arith, get_elem?-some xs i x h)

-- A panic, or the error with which the update of one of the desired networks ends.
abbrev pub Stops : ℕ → VirtualMachine → List VirtualMachineNetwork → Outcome (Unit {0}) → Type 0
Stops pc vm networks (ok _ _) = ⊥
Stops pc vm networks (err e w') =
    (j : ℕ) × (w : World) × (j < length networks)
    × (update_network_config pc vm j networks w ≡ err e w')
Stops pc vm networks (panic _) = Unit

update-Stops :
    (pc : ℕ) (vm : VirtualMachine) (networks : List VirtualMachineNetwork) (i : ℕ)
    (rest : Action (Unit {0}))
    → i < length networks
    → ((w : World) → Stops pc vm networks (rest w))
    → (w : World) → Stops pc vm networks ((update_network_config pc vm i networks >> rest) w)
unfolding ◌>>=◌
update-Stops pc vm networks i rest h k w = go (update_network_config pc vm i networks w) refl
  where
    go :
        (o : Outcome (Unit {0}))
        → update_network_config pc vm i networks w ≡ o
        → Stops pc vm networks (
            let r : Outcome (Unit {0}) = elim o [
              | ok a w' ↦ rest w'
              | err e w' ↦ err e w'
              | panic w' ↦ panic w'
            ] in
            r)
    go (ok a w') e = k w'
    go (err x w') e = (i, w, h, e)
    go (panic w') e = tt

-- A round that reads behind the end panics, and every other stops if the rest does.
change_network-Stops :
    (pc : ℕ) (vm : VirtualMachine) (networks : List VirtualMachineNetwork) (i : ℕ)
    (actual : VirtualMachineNetwork) (rest : Action (Unit {0}))
    → 0 < length networks
    → (i < length networks → (w : World) → Stops pc vm networks (rest w))
    → (w : World) → Stops pc vm networks (change_network pc vm networks i actual rest w)
unfolding change_network on_option crash
change_network-Stops pc vm networks i actual rest h k w =
    let some_desired : (length networks == 0) ≡ false = ground arith in
    elim (Option-cases (get_elem? networks i)) [
      | inl e ↦ simp (some_desired, e) tt
      | inr p ↦
          let inside = get_elem?-some networks i p.0 p.1 in
          elim (Bool-cases (same_network p.0 actual)) [
            | inl s ↦ simp (some_desired, p.1, s) (k inside w)
            | inr d ↦
                simp (some_desired, p.1, d) (update-Stops pc vm networks i rest inside (k inside) w)
          ]
    ]

-- Where a guest has more networks than the resource desires, and some are desired, the last loop panics,
-- unless the update of one of the desired networks ends with an error, which the loop then returns.
pub change_networks-too_many :
    (pc : ℕ) (vm : VirtualMachine) (networks : List VirtualMachineNetwork) (i : ℕ)
    (parsed : List VirtualMachineNetwork)
    → 0 < length networks
    → i ≤ length networks
    → length networks < i + length parsed
    → (w : World) → Stops pc vm networks (change_networks pc vm networks i parsed w)
unfolding change_networks
change_networks-too_many pc vm networks i [] h k l w = absurd (omega arith)
change_networks-too_many pc vm networks i (actual ∷ parsed) h k l w =
    change_network-Stops pc vm networks i actual (change_networks pc vm networks (i + 1) parsed) h
      (λ inside.
        change_networks-too_many pc vm networks (i + 1) parsed h (omega arith) (omega arith))
      w
