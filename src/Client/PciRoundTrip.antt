-- ===== src/Client/PciRoundTrip.antt =====
-- Reading back the option text of a PCI device.
use kubemox.Api.{PciDevice}
use kubemox.Base.{
  All, Bool, Bool-cases, List, Text, [], ap, arith, bytes, false, has_prefix, has_prefix-append,
  if◌then◌else◌, inl, inr, join, refl, some, split, text_eq, text_eq_iff, trim_prefix-append, true,
  ℕ, ◌++◌, ◌∙◌, ◌∷◌, ◌≡◌, ◌≢◌, ◌⊎◌,
}
use kubemox.Client.Pci.{
  build_pci_options, flag_if, mapped, mapping_prefix, option_key, parse_single_pci_configuration,
  pci_parts, raw, read_device, read_flags, read_parts,
}

-- The text has no byte of the kind.
abbrev pub Free : ℕ → Text → Type 0
Free sep [] = Unit
Free sep (c ∷ s) = (c ≢ sep) × Free sep s

split-Free : (sep : ℕ) (s : Text) → Free sep s → split sep s ≡ s ∷ []
unfolding split
split-Free sep [] h = refl
split-Free sep (c ∷ s) h = ground (arith, split-Free sep s h.1)

split-append : (sep : ℕ) (s t : Text) → Free sep s → split sep (s ++ (sep ∷ t)) ≡ s ∷ split sep t
unfolding split
split-append sep [] t h = ground arith
split-append sep (c ∷ s) t h = ground (arith, split-append sep s t h.1)

-- Splitting undoes joining, where no part holds the separator.
split-join :
    (sep : ℕ) (t : Text) (ts : List Text)
    → All (Free sep) (t ∷ ts)
    → split sep (join (sep ∷ []) (t ∷ ts)) ≡ t ∷ ts
unfolding join
split-join sep t [] h = split-Free sep t h.0
split-join sep t (u ∷ ts) h =
    split-append sep t (join (sep ∷ []) (u ∷ ts)) h.0 ∙ ap (λ us. t ∷ us) (split-join sep u ts h.1)

-- What the two fields of the type and the device may hold for a device to be readable: a raw device's
-- name must not look like a mapping, and no name holds a comma.
pub record IsReadable (pci : PciDevice) : Type 0 where
  pub known_type :
      (pci.type ≡ mapped) ⊎ ((pci.type ≡ raw) × (has_prefix pci.device_id mapping_prefix ≡ false))
  pub no_comma : Free b',' pci.device_id

abbrev device_part : PciDevice → Text
device_part pci = if text_eq pci.type mapped then mapping_prefix ++ pci.device_id else pci.device_id

read_device_part :
    (pci : PciDevice)
    → IsReadable pci
    → read_device (device_part pci) ≡ record pci { primary_gpu = false; pcie = false }
unfolding read_device
read_device_part pci r = elim r.known_type [
  | inl e ↦ ground (
    arith,
    text_eq_iff pci.type mapped,
    has_prefix-append mapping_prefix pci.device_id,
    trim_prefix-append mapping_prefix pci.device_id,
  )
  | inr e ↦ ground (arith, text_eq_iff pci.type mapped, raw_ne_mapped)
]
  where
    raw_ne_mapped : text_eq raw mapped ≡ false
    raw_ne_mapped = unfold text_eq in refl

Free-append : (sep : ℕ) (s t : Text) → Free sep s → Free sep t → Free sep (s ++ t)
Free-append sep [] t h k = k
Free-append sep (c ∷ s) t h k = (h.0, Free-append sep s t h.1 k)

device_part-Free : (pci : PciDevice) → IsReadable pci → Free b',' (device_part pci)
device_part-Free pci r = elim (Bool-cases (text_eq pci.type mapped)) [
  | inl e ↦ rw e (Free-append b',' mapping_prefix pci.device_id (omega arith) r.no_comma)
  | inr e ↦ rw e r.no_comma
]

flag_parts-Free :
    (pcie gpu : Bool)
    → All (Free b',') (flag_if pcie (bytes "pcie=1") ++ flag_if gpu (bytes "x-vga=1"))
flag_parts-Free true true = omega arith
flag_parts-Free true false = omega arith
flag_parts-Free false true = omega arith
flag_parts-Free false false = tt

read_flags_back :
    (type device_id : Text) (gpu pcie : Bool)
    → read_flags
        (record { type = type; device_id = device_id; primary_gpu = false; pcie = false })
        (flag_if pcie (bytes "pcie=1") ++ flag_if gpu (bytes "x-vga=1"))
      ≡ some (record { type = type; device_id = device_id; primary_gpu = gpu; pcie = pcie })
unfolding read_flags option_key text_eq
read_flags_back type device_id true true = refl
read_flags_back type device_id true false = refl
read_flags_back type device_id false true = refl
read_flags_back type device_id false false = refl

-- Reading back what `buildPCIOptions` writes gives the device again, if the device is mapped, or is raw
-- with a name that does not begin with "mapping=", and its name holds no comma.
pub parse-build_pci_options :
    (pci : PciDevice)
    → IsReadable pci
    → parse_single_pci_configuration (build_pci_options pci) ≡ some pci
unfolding parse_single_pci_configuration build_pci_options pci_parts read_parts
parse-build_pci_options pci r =
    ap read_parts (
      split-join b',' (device_part pci)
        (flag_if pci.pcie (bytes "pcie=1") ++ flag_if pci.primary_gpu (bytes "x-vga=1"))
        (device_part-Free pci r, flag_parts-Free pci.pcie pci.primary_gpu))
    ∙ ap
        (λ d.
          read_flags d
            (flag_if pci.pcie (bytes "pcie=1") ++ flag_if pci.primary_gpu (bytes "x-vga=1")))
        (read_device_part pci r)
    ∙ read_flags_back pci.type pci.device_id pci.primary_gpu pci.pcie
