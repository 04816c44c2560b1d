-- ===== src/Client/Pci.antt =====
-- The option text of a PCI device: `buildPCIOptions` and `parseSinglePCIConfiguration` of
-- pkg/proxmox/virtualmachine.go.
use kubemox.Api.{PciDevice}
use kubemox.Base.{
  Bool, List, Option, Text, [], bytes, false, has_prefix, if◌then◌else◌, join, none, some, split,
  text_eq, trim_prefix, true, ◌++◌, ◌==◌, ◌∷◌,
}

abbrev pub mapped : Text
mapped = bytes "mapped"

abbrev pub raw : Text
raw = bytes "raw"

abbrev pub mapping_prefix : Text
mapping_prefix = bytes "mapping="

abbrev pub flag_if : Bool → Text → List Text
flag_if b t = if b then t ∷ [] else []

-- The parts that `buildPCIOptions` joins.
unfoldable pub pci_parts : PciDevice → List Text
pci_parts pci =
    (if text_eq pci.type mapped then mapping_prefix ++ pci.device_id else pci.device_id)
    ∷ (flag_if pci.pcie (bytes "pcie=1") ++ flag_if pci.primary_gpu (bytes "x-vga=1"))

-- `buildPCIOptions`
unfoldable pub build_pci_options : PciDevice → Text
build_pci_options pci = join (bytes ",") (pci_parts pci)

-- `strings.SplitN(part, "=", 2)` with two parts: the key. `none` is a part with no "=".
unfoldable pub option_key : Text → Option Text
option_key [] = none
option_key (c ∷ s) =
    let rest = option_key s in
    if c == b'=' then some [] else elim rest [ none ↦ none | some key ↦ some (c ∷ key) ]

-- The loop over the parts behind the first; `none` is the error.
unfoldable pub read_flags : PciDevice → List Text → Option PciDevice
read_flags pci [] = some pci
read_flags pci (part ∷ parts) = elim (option_key part) [
  | none ↦ none
  | some key ↦
      read_flags
        (if text_eq key (bytes "pcie")
          then record pci { pcie = true }
          else if text_eq key (bytes "x-vga")
          then record pci { primary_gpu = true }
          else pci)
        parts
]

-- The device of the first part.
unfoldable pub read_device : Text → PciDevice
read_device part =
    if has_prefix part mapping_prefix
    then record {
      type = mapped;
      device_id = trim_prefix part mapping_prefix;
      primary_gpu = false;
      pcie = false;
    }
    else record { type = raw; device_id = part; primary_gpu = false; pcie = false }

-- `parseSinglePCIConfiguration`, from the parts, and from the text. `strings.Split` returns a part
-- even for the empty text.
unfoldable pub read_parts : List Text → Option PciDevice
read_parts [] = none
read_parts (part ∷ parts) = read_flags (read_device part) parts

unfoldable pub parse_single_pci_configuration : Text → Option PciDevice
parse_single_pci_configuration pci = read_parts (split b',' pci)
