-- ===== src/Watcher/Reordering.antt =====
-- The sorted disks of a comparison beside the order in which they come.
use kubemox.Api.{VirtualMachineDisk}
use kubemox.Base.{
  All, Bool-cases, In, List, Text, [], ap, arith, false, inl, inr, refl, subst, sym, text_eq_iff,
  text_lt, text_lt_irrefl, text_lt_total, text_lt_trans, true, ◌∙◌, ◌∷◌, ◌≡◌,
}
use kubemox.Watcher.Sort.{disk_less, insert_disk, sort_disks}
use mathlib.Core.List.{Permᴰ}
use mathlib.Core.List.Permᴰ

disk_less_trans :
    (a b c : VirtualMachineDisk)
    → disk_less a b ≡ true
    → disk_less b c ≡ true
    → disk_less a c ≡ true
unfolding disk_less
disk_less_trans a b c h k = ground (
  arith,
  text_eq_iff a.storage b.storage,
  text_eq_iff b.storage c.storage,
  text_eq_iff a.storage c.storage,
  text_lt_trans a.storage b.storage c.storage,
  text_lt_trans a.device b.device c.device,
  text_lt_irrefl a.storage,
  text_lt_trans c.storage a.storage c.storage,
  text_lt_irrefl c.storage,
)

disk_less_irrefl : (a : VirtualMachineDisk) → disk_less a a ≡ false
unfolding disk_less
disk_less_irrefl a = ground (arith, text_lt_irrefl a.storage, text_lt_irrefl a.device)

-- A disk that is less may be inserted before or after another one.
insert_disk-insert_disk :
    (a b : VirtualMachineDisk) (es : List VirtualMachineDisk)
    → disk_less a b ≡ true
    → insert_disk a (insert_disk b es) ≡ insert_disk b (insert_disk a es)
unfolding insert_disk
insert_disk-insert_disk a b [] h = ground (arith, disk_less_trans b a b, disk_less_irrefl b)
insert_disk-insert_disk a b (e ∷ es) h = ground (
  arith,
  insert_disk-insert_disk a b es h,
  disk_less_trans e a b,
  disk_less_trans b a b,
  disk_less_irrefl b,
)

-- Neither of two disks is less only where they have one storage and one device.
disk_less_total :
    (a b : VirtualMachineDisk)
    → disk_less a b ≡ false
    → disk_less b a ≡ false
    → (a.storage ≡ b.storage) × (a.device ≡ b.device)
unfolding disk_less
disk_less_total a b h k = ground (
  arith,
  text_eq_iff a.storage b.storage,
  text_eq_iff b.storage a.storage,
  text_lt_total a.storage b.storage,
  text_lt_total a.device b.device,
)

-- Two disks of the list with one storage and one device are the same.
abbrev pub AreApart : List VirtualMachineDisk → Type 0
AreApart ds =
    (a b : VirtualMachineDisk)
    → In a ds
    → In b ds
    → a.storage ≡ b.storage
    → a.device ≡ b.device
    → a ≡ b

In-reordered :
    {ds es : List VirtualMachineDisk} (d : VirtualMachineDisk) → Permᴰ ds es → In d es → In d ds
In-reordered d Permᴰ.nil h = absurd h
In-reordered d (Permᴰ.cons e p) (inl h) = inl (h ∙ sym e)
In-reordered d (Permᴰ.cons e p) (inr h) = inr (In-reordered d p h)
In-reordered d (Permᴰ.swap e k) (inl h) = inr (inl (h ∙ sym k))
In-reordered d (Permᴰ.swap e k) (inr (inl h)) = inl (h ∙ sym e)
In-reordered d (Permᴰ.swap e k) (inr (inr h)) = inr (inr h)
In-reordered d (Permᴰ.trans p q) h = In-reordered d p (In-reordered d q h)

insert_both :
    (a b : VirtualMachineDisk) (es : List VirtualMachineDisk)
    → (disk_less a b ≡ false → disk_less b a ≡ false → a ≡ b)
    → insert_disk a (insert_disk b es) ≡ insert_disk b (insert_disk a es)
insert_both a b es h = elim (Bool-cases (disk_less a b)) [
  | inl k ↦ insert_disk-insert_disk a b es k
  | inr k ↦ elim (Bool-cases (disk_less b a)) [
    | inl l ↦ sym (insert_disk-insert_disk b a es l)
    | inr l ↦
        subst (λ c. insert_disk a (insert_disk c es) ≡ insert_disk c (insert_disk a es)) (h k l)
          refl
  ]
]

same_sorted :
    {ds es : List VirtualMachineDisk} → Permᴰ ds es → AreApart ds → sort_disks ds ≡ sort_disks es
unfolding sort_disks
same_sorted Permᴰ.nil h = refl
same_sorted (Permᴰ.cons {a} {b} {l₁} {l₂} e p) h =
    ap (λ c. insert_disk c (sort_disks l₁)) e
    ∙ ap (insert_disk b) (same_sorted p (λ c d i j. h c d (inr i) (inr j)))
same_sorted (Permᴰ.swap {a} {b} {a'} {b'} {l} e k) h =
    insert_both a b (sort_disks l)
      (λ c d. let same = disk_less_total a b c d in h a b (inl refl) (inr (inl refl)) same.0 same.1)
    ∙ ap (λ c. insert_disk c (insert_disk a (sort_disks l))) k
    ∙ ap (λ c. insert_disk a' (insert_disk c (sort_disks l))) e
same_sorted (Permᴰ.trans p q) h =
    same_sorted p h ∙ same_sorted q (λ a b i j. h a b (In-reordered a p i) (In-reordered b p j))

insert_disk-Perm :
    (d : VirtualMachineDisk) (es : List VirtualMachineDisk) → Permᴰ (d ∷ es) (insert_disk d es)
unfolding insert_disk
insert_disk-Perm d [] = Permᴰ.cons refl Permᴰ.nil
insert_disk-Perm d (e ∷ es) = elim (Bool-cases (disk_less e d)) [
  | inl h ↦ rw h (Permᴰ.trans (Permᴰ.swap refl refl) (Permᴰ.cons refl (insert_disk-Perm d es)))
  | inr h ↦ rw h (Permᴰ.refl (d ∷ (e ∷ es)))
]

sort_disks-Perm : (ds : List VirtualMachineDisk) → Permᴰ ds (sort_disks ds)
unfolding sort_disks
sort_disks-Perm [] = Permᴰ.nil
sort_disks-Perm (d ∷ ds) =
    Permᴰ.trans (Permᴰ.cons refl (sort_disks-Perm ds)) (insert_disk-Perm d (sort_disks ds))

-- A disk may stand before another: its storage is not greater, nor its device where the storages are the same.
abbrev pub MayPrecede : VirtualMachineDisk → VirtualMachineDisk → Type 0
MayPrecede d e =
    (text_lt e.storage d.storage ≡ false)
    × (d.storage ≡ e.storage → text_lt e.device d.device ≡ false)

-- Every disk may stand before all that follow it.
abbrev pub IsAscending : List VirtualMachineDisk → Type 0
IsAscending [] = Unit
IsAscending (d ∷ ds) = All (MayPrecede d) ds × IsAscending ds

disk_less-false : (d e : VirtualMachineDisk) → disk_less e d ≡ false → MayPrecede d e
unfolding disk_less
disk_less-false d e h = (
  ground (arith, text_eq_iff e.storage d.storage, text_lt_irrefl d.storage),
  λ same. ground (arith, text_eq_iff e.storage d.storage),
)

text_le_trans : (s t u : Text) → text_lt t s ≡ false → text_lt u t ≡ false → text_lt u s ≡ false
text_le_trans s t u h k = ground (arith, text_lt_total s t, text_lt_trans u s t, text_eq_iff s t)

MayPrecede-trans : (d e x : VirtualMachineDisk) → MayPrecede d e → MayPrecede e x → MayPrecede d x
MayPrecede-trans d e x h k = (
  text_le_trans d.storage e.storage x.storage h.0 k.0,
  λ same.
      let between : d.storage ≡ e.storage =
        text_lt_total d.storage e.storage (subst (λ t. text_lt t e.storage ≡ false) (sym same) k.0)
          h.0 in
      text_le_trans d.device e.device x.device (h.1 between) (k.1 (sym between ∙ same)),
)

All-later :
    (d e : VirtualMachineDisk) (xs : List VirtualMachineDisk)
    → MayPrecede d e
    → All (MayPrecede e) xs
    → All (MayPrecede d) xs
All-later d e [] h k = tt
All-later d e (x ∷ xs) h k = (MayPrecede-trans d e x h k.0, All-later d e xs h k.1)

All-insert_disk :
    (P : VirtualMachineDisk → Type 0) (d : VirtualMachineDisk) (es : List VirtualMachineDisk)
    → P d
    → All P es
    → All P (insert_disk d es)
unfolding insert_disk
All-insert_disk P d [] h k = (h, tt)
All-insert_disk P d (e ∷ es) h k = elim (Bool-cases (disk_less e d)) [
  | inl l ↦ rw l (k.0, All-insert_disk P d es h k.1)
  | inr l ↦ rw l (h, k)
]

insert_disk-IsAscending :
    (d : VirtualMachineDisk) (es : List VirtualMachineDisk)
    → IsAscending es
    → IsAscending (insert_disk d es)
unfolding insert_disk
insert_disk-IsAscending d [] h = (tt, tt)
insert_disk-IsAscending d (e ∷ es) h = elim (Bool-cases (disk_less e d)) [
  | inl l ↦
      let other_way : disk_less d e ≡ false =
        ground (arith, disk_less_trans e d e, disk_less_irrefl e) in
      rw l (
        All-insert_disk (MayPrecede e) d es (disk_less-false e d other_way) h.0,
        insert_disk-IsAscending d es h.1,
      )
  | inr l ↦ let first = disk_less-false d e l in rw l ((first, All-later d e es first h.0), h)
]

sort_disks-IsAscending : (ds : List VirtualMachineDisk) → IsAscending (sort_disks ds)
unfolding sort_disks
sort_disks-IsAscending [] = tt
sort_disks-IsAscending (d ∷ ds) =
    insert_disk-IsAscending d (sort_disks ds) (sort_disks-IsAscending ds)

-- The sorted disks of a comparison are the disks that were given, ascending by their storages and, within
-- one storage, by their devices; and they do not depend on the order in which the disks come, whether that of
-- a specification or that of a range over a Go map: where two disks with one storage and one device are the
-- same.
pub sort_disks-reordered :
    {ds es : List VirtualMachineDisk}
    → Permᴰ ds es
    → AreApart ds
    → (sort_disks ds ≡ sort_disks es) × Permᴰ ds (sort_disks ds) × IsAscending (sort_disks ds)
sort_disks-reordered {ds} p h = (same_sorted p h, sort_disks-Perm ds, sort_disks-IsAscending ds)
