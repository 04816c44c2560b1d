-- ===== src/Tests/Sets.antt =====
-- The theorems on sets of virtual machines, at a set of three.
use kubemox.Base.{Bool, [], arith, bytes, false, itoa, refl, text_eq, ◌∷◌}
use kubemox.Controller.Outcomes.{is_kube_update}
use kubemox.Controller.Scaling.{
  Made, creates_every_replica, deletes_named, scaling-Avoids-replicas, set_deletion-Avoids-update,
}
use kubemox.Controller.Set.{
  create_or_update_virtual_machine_crs, create_replica, create_replicas, handle_vmset_operations,
  reconcile_set_deletion, replica_name,
}
use kubemox.Scenario.{elder, no_failure, start, trio}
use kubemox.World.Call.{Call}
use kubemox.World.Monad.{World, after, handle, perform, return}
use kubemox.World.Trace.{Avoids}

abbrev calm : World
calm = start no_failure

-- The call that sets the last replica of the set.
abbrev sets_last : Call → Bool
sets_last (Call.create_or_update _ name _ _) = text_eq name (bytes "trio-2")
sets_last _ = false

abbrev created : World
created = after (create_or_update_virtual_machine_crs trio calm)

creates_every_replica_example : Made sets_last created
unfolding create_or_update_virtual_machine_crs create_replicas create_replica replica_name itoa
    text_eq perform handle return
creates_every_replica_example =
    creates_every_replica sets_last trio 2 calm created (omega arith) refl refl

scaling-Avoids-replicas_example :
    Avoids (deletes_named (replica_name trio 2)) (handle_vmset_operations trio (elder ∷ []))
scaling-Avoids-replicas_example = scaling-Avoids-replicas trio (elder ∷ []) 2 (omega arith)

set_deletion-Avoids-update_example :
    Avoids is_kube_update (reconcile_set_deletion trio (elder ∷ []))
set_deletion-Avoids-update_example = set_deletion-Avoids-update trio (elder ∷ []) (omega arith)
