-- ===== src/Controller/ContainerProtection.antt =====
-- When a reconcile may destroy the guest of a Container, and when it reaches Proxmox at all:
-- internal/controller/proxmox/container_controller.go.
use kubemox.Api.{Condition, Container, ContainerTemplateImage, ObjectMeta}
use kubemox.Base.{
  Bool, List, Option, Text, arith, false, inl, inr, none, refl, some, subst, sym, true, ℕ, ◌≡◌, ◌⊎◌,
}
use kubemox.Client.ContainerDeletion.{is_container_deletion}
use kubemox.Client.FromRef.{new_client_from_ref}
use kubemox.Controller.Claims.{Claimed, claim_guest, mark_conflict, owner, release}
use kubemox.Controller.ContainerDeletion.{
  add_container_finalizer, container_finalizer_name, container_kind, delete_and_release_container,
  handle_container_delete, handle_container_deletion,
}
use kubemox.Controller.ContainerOperations.{
  clone_and_start, create_or_update_container, handle_clone_container, handle_container_auto_start,
  handle_container_operations, patch_applied_oci_image_status, reconcile_oci_image_drift,
  records_image, start_or_update_container, update_and_save,
}
use kubemox.Controller.ContainerReconcile.{
  ensure_container_exists, reconcile_container, reconcile_container_deletion,
  reconcile_container_in_mode, reconcile_kept_container,
}
use kubemox.Controller.Isolation.{claim_guest_offline, new_client_offline}
use kubemox.GuestName.Defs.{Claim, for_container, same_object}
use kubemox.Oci.Harmless.{
  container_exists_kept, gentle_rules, get_state_kept, start_container_kept, update_container_kept,
}
use kubemox.Oci.HarmlessCreate.{clone_container_kept}
use kubemox.World.Call.{Call, reaches_proxmox}
use kubemox.World.Keeps.{Holds-after}
use kubemox.World.Monad.{
  Outcome, World, after, fail, gets, handle, ok, on_option, perform, return, ◌>>=◌,
}
use kubemox.World.Trace.{Avoided, Avoids}

offline : (c : Call) → reaches_proxmox c ≡ false → is_container_deletion c ≡ false
offline (Call.delete_container _) h = cc
offline _ h = refl

claim_kept :
    (kind : Text) (meta : ObjectMeta) (conditions : List Condition) (claim : Claim)
    (finalizer : Text)
    → Avoids is_container_deletion (claim_guest kind meta conditions claim finalizer)
claim_kept = claim_guest_offline is_container_deletion offline

client_kept : (ref : Option Text) → Avoids is_container_deletion (new_client_from_ref ref)
client_kept = new_client_offline is_container_deletion offline

clone_kept :
    (pc : ℕ) (container : Container)
    → Avoids is_container_deletion (handle_clone_container pc container)
unfolding handle_clone_container clone_and_start patch_applied_oci_image_status
clone_kept pc container = search (gentle_rules, clone_container_kept, start_container_kept) depth 12

start_or_update_kept :
    (pc : ℕ) (container : Container)
    → Avoids is_container_deletion (start_or_update_container pc container)
unfolding start_or_update_container update_and_save
start_or_update_kept pc container =
    search (gentle_rules, get_state_kept, start_container_kept, update_container_kept) depth 9

create_or_update_kept :
    (pc : ℕ) (r : Bool × Container) → Avoids is_container_deletion (create_or_update_container pc r)
unfolding create_or_update_container
create_or_update_kept pc r = search (gentle_rules, start_or_update_kept, clone_kept) depth 9

auto_start_kept :
    (pc : ℕ) (container : Container)
    → Avoids is_container_deletion (handle_container_auto_start pc container)
unfolding handle_container_auto_start
auto_start_kept pc container = search (gentle_rules, get_state_kept, start_container_kept) depth 9

-- The image is not the specification's, or the status records it already.
abbrev pub UpToDate : Container → Type 0
UpToDate container =
    (container.spec.template.image ≡ none)
    ⊎ ((img : ContainerTemplateImage) × (container.spec.template.image ≡ some img)
        × (records_image container img ≡ true))

drift_kept :
    (pc : ℕ) (container : Container) (exists : Bool)
    → UpToDate container
    → Avoids is_container_deletion (reconcile_oci_image_drift pc container exists)
unfolding reconcile_oci_image_drift on_option
drift_kept pc container exists (inl e) = simp e (search gentle_rules)
drift_kept pc container exists (inr (img, e, r)) = simp (e, r) (search gentle_rules)

operations_kept :
    (pc : ℕ) (container : Container)
    → UpToDate container
    → Avoids is_container_deletion (handle_container_operations pc container)
unfolding handle_container_operations
operations_kept pc container u =
    search (gentle_rules, container_exists_kept, drifted, create_or_update_kept) depth 12
  where
    drifted :
        (exists : Bool)
        → Avoids is_container_deletion (reconcile_oci_image_drift pc container exists)
    drifted exists = drift_kept pc container exists u

kept_kept :
    (pc : ℕ) (container : Container)
    → UpToDate container
    → Avoids is_container_deletion (reconcile_kept_container pc container)
unfolding reconcile_kept_container add_container_finalizer
kept_kept pc container u = search (gentle_rules, operating, auto_start_kept) depth 16
  where
    operating :
        (metadata : ObjectMeta)
        → Avoids is_container_deletion
            (handle_container_operations pc (record container { metadata = metadata }))
    operating metadata = operations_kept pc (record container { metadata = metadata }) u

deletion_kept :
    (pc : ℕ) (container : Container)
    → container.spec.deletion_protection ≡ true
    → Avoids is_container_deletion (reconcile_container_deletion pc container)
unfolding reconcile_container_deletion handle_container_delete delete_and_release_container
    handle_container_deletion
deletion_kept pc container h = simp h (search gentle_rules depth 20)

-- The cases in which the container must stay: it is protected and being deleted, or it is not being deleted
-- and its image is up to date.
abbrev pub MustRemain : Container → Type 0
MustRemain container =
    ((container.metadata.deleting ≡ true) × (container.spec.deletion_protection ≡ true))
    ⊎ ((container.metadata.deleting ≡ false) × UpToDate container)

in_mode_kept :
    (pc : ℕ) (container : Container)
    → MustRemain container
    → Avoids is_container_deletion (reconcile_container_in_mode pc container)
unfolding reconcile_container_in_mode ensure_container_exists
in_mode_kept pc container (inl (d, p)) =
    let removing = deletion_kept pc container p in
    simp d (search (gentle_rules, container_exists_kept, clone_kept) depth 16)
in_mode_kept pc container (inr (d, u)) =
    let keeping = kept_kept pc container u in
    simp d (search (gentle_rules, container_exists_kept, clone_kept) depth 16)

-- A reconcile destroys no container that is protected while its object is being deleted, and none whose
-- object is not being deleted and whose status records the OCI image of its specification or whose
-- specification has none: in any mode, whatever Proxmox and the API server answer.
pub reconcile_container-Avoids-deletion :
    (container : Container)
    → MustRemain container
    → Avoids is_container_deletion (reconcile_container container)
unfolding reconcile_container
reconcile_container-Avoids-deletion container h =
    search (gentle_rules, claim_kept, client_kept, remains) depth 16
  where
    remains :
        (pc : ℕ) (conditions : List Condition)
        → Avoids is_container_deletion
            (reconcile_container_in_mode pc (record container { conditions = conditions }))
    remains pc conditions = in_mode_kept pc (record container { conditions = conditions }) h

loser_ends :
    (container : Container) (w w1 : World) (winner : Claim)
    → owner (for_container container) w ≡ ok winner w1
    → same_object winner (for_container container) ≡ false
    → after (reconcile_container container w)
      ≡ after (
          claim_guest container_kind container.metadata container.conditions
            (for_container container)
            container_finalizer_name
            w)
unfolding reconcile_container claim_guest release mark_conflict ◌>>=◌ gets handle return fail
    perform
loser_ends container w w1 winner o s = ground arith

-- A Container whose guest name another Container owns makes no call to Proxmox in its reconcile, whatever
-- its mode, and whether or not it is being deleted.
pub container_loser-Avoids-proxmox :
    (container : Container) (w w1 : World) (winner : Claim)
    → owner (for_container container) w ≡ ok winner w1
    → same_object winner (for_container container) ≡ false
    → Avoided reaches_proxmox w
    → Avoided reaches_proxmox (after (reconcile_container container w))
container_loser-Avoids-proxmox container w w1 winner o s a =
    subst (Avoided reaches_proxmox) (sym (loser_ends container w w1 winner o s)) (
      Holds-after (Avoided reaches_proxmox) (claim container w) (
        (claim_guest_offline reaches_proxmox (λ c e. e) container_kind container.metadata
            container.conditions (for_container container) container_finalizer_name).run
          w a))
  where
    claim : Container → World → Outcome Claimed
    claim ct =
        claim_guest container_kind ct.metadata ct.conditions (for_container ct)
          container_finalizer_name
