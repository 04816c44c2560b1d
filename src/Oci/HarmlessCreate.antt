-- ===== src/Oci/HarmlessCreate.antt =====
-- Whether creating a container destroys one: `CloneContainer` of pkg/proxmox/containers.go and
-- `CreateContainerFromOCIImage` of pkg/proxmox/container_oci.go.
use kubemox.Api.{Container}
use kubemox.Base.{List, Option, Text, inl, inr, suc, zero, ℕ, ◌⊎◌}
use kubemox.Client.ContainerDeletion.{is_container_deletion}
use kubemox.Client.ContainerPower.{clone_container, clone_named_container}
use kubemox.Client.Retry.{attempts}
use kubemox.Oci.Create.{
  await_container_id, await_round, create_container_from_oci_image, create_with, finish_creation,
}
use kubemox.Oci.Harmless.{gentle_rules, get_container_kept, get_id_kept, get_node_kept, set_id_kept}
use kubemox.Oci.Volume.{
  ensure_oci_volume, find_oci_volume_id, find_or_pull, oci_registry_pull, pull_oci_volume, pull_to,
}
use kubemox.World.Call.{OptionValue}
use kubemox.World.Error.{Error}
use kubemox.World.Trace.{Avoids}

find_kept :
    (node_name storage marker : Text)
    → Avoids is_container_deletion (find_oci_volume_id node_name storage marker)
unfolding find_oci_volume_id
find_kept node_name storage marker = search gentle_rules depth 9

pull_kept :
    (node_name storage image filename : Text)
    → Avoids is_container_deletion (pull_oci_volume node_name storage image filename)
unfolding pull_oci_volume oci_registry_pull
pull_kept node_name storage image filename = search (gentle_rules, find_kept) depth 14

find_or_pull_kept :
    (node_name storage image filename : Text)
    → Avoids is_container_deletion (find_or_pull node_name storage image filename)
unfolding find_or_pull
find_or_pull_kept node_name storage image filename =
    search (gentle_rules, find_kept, pull_kept) depth 9

on_storage_kept :
    (ct : Container) (image : Text) (filename : Text) (s : Error ⊎ Text)
    → Avoids is_container_deletion (pull_to ct image filename s)
on_storage_kept ct image filename (inl e) = search gentle_rules
on_storage_kept ct image filename (inr storage) = search (gentle_rules, find_or_pull_kept)

ensure_kept : (ct : Container) → Avoids is_container_deletion (ensure_oci_volume ct)
unfolding ensure_oci_volume
ensure_kept ct = search (gentle_rules, on_storage_kept) depth 9

await_kept :
    (pc : ℕ) (host node_name : Text) (attempts : ℕ)
    → Avoids is_container_deletion (await_container_id pc host node_name attempts)
unfolding await_container_id await_round
await_kept pc host node_name zero = search gentle_rules
await_kept pc host node_name (suc attempts) =
    let rest = await_kept pc host node_name attempts in search (gentle_rules, get_id_kept) depth 9

create_with_kept :
    (pc : ℕ) (ct : Container) (node : Option Text) (o : Error ⊎ List (Text × OptionValue))
    → Avoids is_container_deletion (create_with pc ct node o)
unfolding finish_creation
create_with_kept pc ct target (inl e) = search gentle_rules
create_with_kept pc ct target (inr opts) = search (gentle_rules, await_kept, set_id_kept) depth 18

create_from_image_kept :
    (pc : ℕ) (ct : Container) → Avoids is_container_deletion (create_container_from_oci_image pc ct)
unfolding create_container_from_oci_image
create_from_image_kept pc ct =
    search (gentle_rules, ensure_kept, get_node_kept, create_with_kept) depth 9

clone_named_kept :
    (pc : ℕ) (container : Container)
    → Avoids is_container_deletion (clone_named_container pc container)
unfolding clone_named_container
clone_named_kept pc container =
    search (gentle_rules, get_id_kept, get_container_kept, set_id_kept) depth 18

pub clone_container_kept :
    (pc : ℕ) (container : Container) → Avoids is_container_deletion (clone_container pc container)
unfolding clone_container
clone_container_kept pc container =
    search (gentle_rules, get_node_kept, clone_named_kept, create_from_image_kept) depth 9
