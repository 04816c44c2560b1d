-- ===== src/GuestName/Defs.antt =====
-- pkg/guestname/guestname.go: claims on Proxmox guest names, their order, and the owner of one.
use kubemox.Api.{Container, VirtualMachine, VirtualMachineTemplate}
use kubemox.Base.{
  Bool, List, Option, Text, [], bytes, equal_fold, false, if◌then◌else◌, ltb, map, none, not, some,
  text_eq, text_lt, true, ℕ, ◌&&◌, ◌++◌, ◌==◌, ◌||◌, ◌∷◌,
}

-- `Claim`; a nil `ConnRef` is `none`, and `Created` counts from the epoch.
pub record Claim : Type 0 where
  pub kind : Text
  pub namespace : Text
  pub name : Text
  pub created : ℕ
  pub lxc : Bool
  pub conn_ref : Option Text
  pub node : Text
  pub guest : Text

unfoldable pub for_vm : VirtualMachine → Claim
for_vm vm = record {
  kind = bytes "VirtualMachine";
  namespace = vm.metadata.namespace;
  name = vm.metadata.name;
  created = vm.metadata.created;
  lxc = false;
  conn_ref = vm.spec.connection_ref;
  node = vm.spec.node_name;
  guest = vm.spec.name;
}

unfoldable pub for_template : VirtualMachineTemplate → Claim
for_template t = record {
  kind = bytes "VirtualMachineTemplate";
  namespace = t.metadata.namespace;
  name = t.metadata.name;
  created = t.metadata.created;
  lxc = false;
  conn_ref = t.spec.connection_ref;
  node = t.spec.node_name;
  guest = t.spec.name;
}

unfoldable pub for_container : Container → Claim
for_container ct = record {
  kind = bytes "Container";
  namespace = ct.metadata.namespace;
  name = ct.metadata.name;
  created = ct.metadata.created;
  lxc = true;
  conn_ref = ct.spec.connection_ref;
  node = ct.spec.node_name;
  guest = ct.spec.name;
}

-- `Claim.Conn`
unfoldable pub conn : Claim → Text
conn c = elim c.conn_ref [ none ↦ [] | some ref ↦ ref ]

-- `==` on Go's bool
abbrev pub bool_eq : Bool → Bool → Bool
bool_eq true b = b
bool_eq false b = not b

-- `Claim.SameGuest`
unfoldable pub same_guest : Claim → Claim → Bool
same_guest c o =
    if not (bool_eq c.lxc o.lxc) || (not (text_eq (conn c) (conn o)) || not (text_eq c.node o.node))
    then false
    else if c.lxc
    then text_eq c.guest o.guest
    else equal_fold c.guest o.guest

-- `Claim.SameObject`
unfoldable pub same_object : Claim → Claim → Bool
same_object c o =
    text_eq c.kind o.kind && (text_eq c.namespace o.namespace && text_eq c.name o.name)

-- `Claim.before`
unfoldable pub before : Claim → Claim → Bool
before c o =
    if not (c.created == o.created)
    then ltb c.created o.created
    else if not (text_eq c.kind o.kind)
    then text_lt c.kind o.kind
    else if not (text_eq c.namespace o.namespace)
    then text_lt c.namespace o.namespace
    else text_lt c.name o.name

-- `List`, from the items that the reader lists: the containers alone, or the virtual machines
-- and then the templates.
unfoldable pub list :
    Bool → List Container → List VirtualMachine → List VirtualMachineTemplate → List Claim
list lxc cts vms templates =
    if lxc then map for_container cts else map for_vm vms ++ map for_template templates

-- The loop of `Owner`, from the owner found so far.
unfoldable pub owner_from : Claim → Claim → List Claim → Claim
owner_from c owner [] = owner
owner_from c owner (o ∷ claims) =
    owner_from c (if same_guest c o && before o owner then o else owner) claims

-- `Owner`, once the claims are listed.
unfoldable pub owner_of : Claim → List Claim → Claim
owner_of c claims = owner_from c c claims
