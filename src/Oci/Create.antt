-- ===== src/Oci/Create.antt =====
-- The container of an OCI image: `ociNewContainerOptions` and `CreateContainerFromOCIImage` of
-- pkg/proxmox/container_oci.go. Sleeps are left out.
use kubemox.Api.{Container, ContainerTemplate}
use kubemox.Base.{
  List, Option, Text, [], bytes, if◌then◌else◌, inl, inr, is_nil, ltb, none, not, some, suc, zero,
  ℕ, ◌++◌, ◌==◌, ◌∷◌, ◌⊎◌,
}
use kubemox.Client.Cache.{get_node, set_cached_container_id}
use kubemox.Client.Container.{get_container_id}
use kubemox.Client.Lookup.{on_node}
use kubemox.Client.Retry.{attempts}
use kubemox.Oci.Names.{first_root_fs, net0_from_spec, oci_image_proxmox_tag}
use kubemox.Oci.Volume.{ensure_oci_volume}
use kubemox.World.Call.{Call, OptionValue, number, text}
use kubemox.World.Error.{Error, other}
use kubemox.World.Monad.{Action, fail, finish_task, gets, perform, return, wait_for, ◌>>=◌, ◌>>◌}

-- The memory and the cores of the options, with the values taken where the specification has none.
abbrev memory_or_default : ℕ → ℕ
memory_or_default memory = if ltb memory 16 then 512 else memory

abbrev cores_or_default : ℕ → ℕ
cores_or_default cores = if ltb cores 1 then 1 else cores

-- The tag of the image, where it has one.
unfoldable pub tag_options : (Text → Text) → ContainerTemplate → List (Text × OptionValue)
tag_options image_id t = elim t.image [
  | none ↦ []
  | some image ↦
      let tag = oci_image_proxmox_tag image_id image.reference in
      if is_nil tag then [] else (bytes "tags", text tag) ∷ []
]

-- `ociNewContainerOptions`
unfoldable pub oci_new_container_options :
    (Text → Text) → ContainerTemplate → Text → Text → Error ⊎ List (Text × OptionValue)
oci_new_container_options image_id t volid hostname = elim (first_root_fs t) [
  | inl e ↦ inl e
  | inr rootfs ↦ inr (
      (bytes "hostname", text hostname)
      ∷ (bytes "ostemplate", text volid)
      ∷ (bytes "rootfs", text rootfs)
      ∷ (bytes "memory", number (memory_or_default t.memory))
      ∷ (bytes "cores", number (cores_or_default t.cores))
      ∷ (bytes "net0", text (net0_from_spec t))
      ∷ (bytes "start", number 0)
      ∷ tag_options image_id t)
]

-- A round of the loop that waits for the new container to be listed.
unfoldable pub await_round : ℕ → Text → Text → Action ℕ → Action ℕ
await_round pc host node_name rest = do
  id ← get_container_id pc host node_name
  if not (id == 0) then return id else rest

-- The rounds that are left; 0 where none of them met the container.
unfoldable pub await_container_id : ℕ → Text → Text → ℕ → Action ℕ
await_container_id pc host node_name zero = return 0
await_container_id pc host node_name (suc attempts) =
    let rest = await_container_id pc host node_name attempts in await_round pc host node_name rest

-- The lines of `CreateContainerFromOCIImage` behind the call that creates the container.
unfoldable pub finish_creation : ℕ → Text → Text → Action (Unit {0})
finish_creation pc host node_name = do
  end ← wait_for 360 5
  finish_task end (do
    id ← await_container_id pc host node_name 24
    if id == 0
        then fail (
            other (
              bytes "container "
              ++ host
              ++ bytes " not found in Proxmox API after create from OCI"))
        else set_cached_container_id pc node_name host id)

-- The call that creates the container, or the error of its options.
abbrev pub create_with :
    ℕ → Container → Option Text → Error ⊎ List (Text × OptionValue) → Action (Unit {0})
create_with pc ct target (inl e) = fail e
create_with pc ct target (inr opts) =
    on_node target λ n.
      perform (Call.new_container n 0 opts) >> finish_creation pc ct.spec.name ct.spec.node_name

-- `CreateContainerFromOCIImage`
unfoldable pub create_container_from_oci_image : ℕ → Container → Action (Unit {0})
create_container_from_oci_image pc ct = do
  volid ← ensure_oci_volume ct
  node ← get_node pc ct.spec.node_name
  image_id ← gets (λ w. w.env.image_id)
  create_with pc ct node (oci_new_container_options image_id ct.spec.template volid ct.spec.name)
