-- ===== src/Tests/Fetchers.antt =====
-- The theorems on the fetchers of the watcher, at concrete inputs.
use kubemox.Api.{VirtualMachineDisk}
use kubemox.Base.{
  [], ap, bytes, inl, inr, refl, sym, text_eq, text_eq_iff, true≢false, ◌∙◌, ◌∷◌, ◌≡◌,
}
use kubemox.Watcher.Reordering.{AreApart, IsAscending, sort_disks-reordered}
use kubemox.Watcher.Sort.{sort_disks}
use mathlib.Core.List.{Permᴰ}

abbrev boot_disk : VirtualMachineDisk
boot_disk = record { storage = bytes "local-lvm"; size = 32; device = bytes "scsi0" }

abbrev extra_disk : VirtualMachineDisk
extra_disk = record { storage = bytes "local-lvm"; size = 50; device = bytes "scsi1" }

other_device : (bytes "scsi0" ≡ bytes "scsi1") → ⊥
unfolding text_eq
other_device e = true≢false (sym ((text_eq_iff (bytes "scsi0") (bytes "scsi1")).1 e))

boot_extra-AreApart : AreApart (extra_disk ∷ boot_disk ∷ [])
boot_extra-AreApart a b (inl p) (inl q) h k = p ∙ sym q
boot_extra-AreApart a b (inl p) (inr (inl q)) h k =
    absurd (other_device (ap (λ d. d.device) (sym q) ∙ sym k ∙ ap (λ d. d.device) p))
boot_extra-AreApart a b (inl p) (inr (inr m)) h k = absurd m
boot_extra-AreApart a b (inr (inl p)) (inl q) h k =
    absurd (other_device (ap (λ d. d.device) (sym p) ∙ k ∙ ap (λ d. d.device) q))
boot_extra-AreApart a b (inr (inl p)) (inr (inl q)) h k = p ∙ sym q
boot_extra-AreApart a b (inr (inl p)) (inr (inr m)) h k = absurd m
boot_extra-AreApart a b (inr (inr m)) j h k = absurd m

sort_disks-reordered_example :
    (sort_disks (extra_disk ∷ boot_disk ∷ []) ≡ sort_disks (boot_disk ∷ extra_disk ∷ []))
    × Permᴰ (extra_disk ∷ boot_disk ∷ []) (sort_disks (extra_disk ∷ boot_disk ∷ []))
    × IsAscending (sort_disks (extra_disk ∷ boot_disk ∷ []))
sort_disks-reordered_example = sort_disks-reordered (Permᴰ.swap refl refl) boot_extra-AreApart
