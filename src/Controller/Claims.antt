-- ===== src/Controller/Claims.antt =====
-- `List` and `Owner` of pkg/guestname/guestname.go as calls of the API server, and `claimGuest` of
-- internal/controller/proxmox/guestname.go.
use kubemox.Api.{Condition, ObjectMeta}
use kubemox.Base.{Bool, List, Text, [], bytes, false, if◌then◌else◌, true, ℕ, ◌++◌, ◌∷◌}
use kubemox.Controller.Mode.{
  Result, dont_requeue, ignore_not_found, patch_conditions, requeue_in, update_object,
}
use kubemox.GuestName.Defs.{Claim, list, owner_of, same_object}
use kubemox.World.Call.{Call}
use kubemox.World.Error.{message, wrap}
use kubemox.World.Monad.{Action, fail, gets, handle, on_option, perform, return, ◌>>=◌, ◌>>◌}

-- `r.List` of one kind, whose error names the kind.
list_kind : Text → Action (Unit {0})
list_kind plural =
    handle (perform (Call.kube_list plural))
      (λ e. fail (wrap (bytes "listing " ++ plural ++ bytes ": " ++ message e) e)) return

-- `guestname.List`
unfoldable pub list_claims : Bool → Action (List Claim)
unfolding list_kind
list_claims lxc =
    if lxc
    then (do
      history ← gets (λ w. w.trace)
      list_kind (bytes "Containers")
      cts ← gets (λ w. w.env.stored_containers history)
      return (list true cts [] []))
    else (do
      history ← gets (λ w. w.trace)
      list_kind (bytes "VirtualMachines")
      vms ← gets (λ w. w.env.stored_vms history)
      later ← gets (λ w. w.trace)
      list_kind (bytes "VirtualMachineTemplates")
      templates ← gets (λ w. w.env.stored_templates later)
      return (list false [] vms templates))

-- `guestname.Owner`
unfoldable pub owner : Claim → Action Claim
owner c = do claims ← list_claims c.lxc; return (owner_of c claims)

-- `Claim.String`
unfoldable pub claim_string : Claim → Text
claim_string c = c.kind ++ bytes " " ++ c.namespace ++ bytes "/" ++ c.name

abbrev pub condition_name_conflict : Text
condition_name_conflict = bytes "NameConflict"

-- `nameConflictRequeue`, in seconds
abbrev pub name_conflict_requeue : ℕ
name_conflict_requeue = 30

abbrev pub quoted : Text → Text
quoted s = b'"' ∷ (s ++ b'"' ∷ [])

abbrev pub name_taken : ObjectMeta → Claim → Claim → Condition
name_taken meta claim winner = record {
  type = condition_name_conflict;
  status = bytes "True";
  reason = bytes "NameTaken";
  message =
      bytes "spec.name "
      ++ quoted claim.guest
      ++ bytes " on node "
      ++ quoted claim.node
      ++ bytes " is managed by "
      ++ claim_string winner
      ++ bytes ", which claimed it first";
  observed_generation = meta.generation;
}

-- What `claimGuest` returns: whether the object owns its guest, the result, and the conditions that
-- the object has then.
pub record Claimed : Type 0 where
  pub owned : Bool
  pub result : Result
  pub conditions : List Condition

abbrev pub refused : Result → List Condition → Claimed
refused result conditions = record { owned = false; result = result; conditions = conditions }

abbrev pub granted : List Condition → Claimed
granted conditions = record { owned = true; result = dont_requeue; conditions = conditions }

-- The three endings of `claimGuest`: the owner, a loser that is being deleted, and another loser.
unfoldable pub grant : Text → ObjectMeta → List Condition → Action Claimed
grant kind meta conditions = do
  env ← gets (λ w. w.env)
  on_option (env.find_condition conditions condition_name_conflict) (return (granted conditions))
      λ _.
        let left = env.remove_condition conditions condition_name_conflict in
        handle (patch_conditions kind meta left) (ignore_not_found (granted left))
          (λ _. return (granted left))

unfoldable pub release : Text → ObjectMeta → List Condition → Text → Action Claimed
release kind meta conditions finalizer = do
  env ← gets (λ w. w.env)
  let (finalizers, removed) = env.remove_finalizer meta.finalizers finalizer
  let lost = refused dont_requeue conditions
  if removed
      then handle (update_object kind meta finalizers) (ignore_not_found lost) (λ _. return lost)
      else return lost

unfoldable pub mark_conflict : Text → ObjectMeta → List Condition → Claim → Claim → Action Claimed
mark_conflict kind meta conditions claim winner = do
  env ← gets (λ w. w.env)
  let (marked, changed) = env.set_condition conditions (name_taken meta claim winner)
  let again = refused (requeue_in name_conflict_requeue) marked
  if changed
      then handle (patch_conditions kind meta marked)
          (ignore_not_found (refused dont_requeue marked)) (λ _. return again)
      else return again

-- `claimGuest`
unfoldable pub claim_guest : Text → ObjectMeta → List Condition → Claim → Text → Action Claimed
claim_guest kind meta conditions claim finalizer = do
  winner ← owner claim
  if same_object winner claim
      then grant kind meta conditions
      else if meta.deleting
      then release kind meta conditions finalizer
      else mark_conflict kind meta conditions claim winner
