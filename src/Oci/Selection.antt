-- ===== src/Oci/Selection.antt =====
-- Which volume `findOCIVolumeID` of pkg/proxmox/container_oci.go takes for an image.
use kubemox.Base.{
  All, All-In, Bool, Bool-cases, In, List, Option-cases, Text, [], arith, bytes, contains, false,
  has_prefix-append, inl, inr, is_nil, refl, some, subst, to_lower, true, ◌++◌, ◌||◌, ◌∷◌, ◌≡◌,
}
use kubemox.Oci.Names.{oci_vol_matches_pull}
use kubemox.Oci.Volume.{choose_volume, first_named, select_volume, volume_hits}

abbrev is_image_volume : Text → Bool
is_image_volume v =
    contains (to_lower v) (bytes ":oci/") || contains (to_lower v) (bytes ":vztmpl/")

-- A listed volume that matches the marker and stands under oci or vztmpl.
abbrev pub Hit : Text → List Text → Text → Type 0
Hit marker items v =
    In v items × (oci_vol_matches_pull v marker ≡ true) × (is_image_volume v ≡ true)

later_hits :
    (marker : Text) (u : Text) (items vs : List Text)
    → All (Hit marker items) vs
    → All (Hit marker (u ∷ items)) vs
later_hits marker u items [] h = tt
later_hits marker u items (v ∷ vs) h =
    ((inr (h.0.0), h.0.1, h.0.2), later_hits marker u items vs h.1)

hits :
    (marker : Text) (items : List Text)
    → All (Hit marker items) (volume_hits marker items).0
      × All (Hit marker items) (volume_hits marker items).1
unfolding volume_hits
hits marker [] = (tt, tt)
hits marker (v ∷ items) =
    let rest = hits marker items in
    let oci = later_hits marker v items (volume_hits marker items).0 rest.0 in
    let vz = later_hits marker v items (volume_hits marker items).1 rest.1 in
    elim (Bool-cases (oci_vol_matches_pull v marker)) [
      | inr e ↦ simp e (oci, vz)
      | inl e ↦ elim (Bool-cases (contains (to_lower v) (bytes ":oci/"))) [
        | inl o ↦ simp (e, o) (((inl refl, refl, refl), oci), vz)
        | inr o ↦ elim (Bool-cases (contains (to_lower v) (bytes ":vztmpl/"))) [
          | inl z ↦ simp (e, o, z) (oci, ((inl refl, refl, refl), vz))
          | inr z ↦ simp (e, o, z) (oci, vz)
        ]
      ]
    ]

first_named-In :
    (marker : Text) (vs : List Text) (v : Text) → first_named marker vs ≡ some v → In v vs
unfolding first_named
first_named-In marker [] v h = ground arith
first_named-In marker (u ∷ vs) v h =
    elim (Bool-cases (contains (to_lower u) (b'/' ∷ to_lower marker))) [
      | inl e ↦ inl (ground arith)
      | inr e ↦ inr (first_named-In marker vs v (ground arith))
    ]

same : (s t : Text) → some s ≡ some t → s ≡ t
same s t h = ground arith

chosen :
    (P : Text → Type 0) (marker : Text) (oci vz : List Text) (v : Text)
    → All P oci
    → All P vz
    → choose_volume marker oci vz ≡ some v
    → P v
unfolding choose_volume
chosen P marker [] [] v h k e = ground arith
chosen P marker [] (u ∷ vz) v h k e = subst P (same u v e) k.0
chosen P marker (u ∷ []) vz v h k e = subst P (same u v e) h.0
chosen P marker (u ∷ (t ∷ oci)) vz v h k e =
    elim (Option-cases (first_named marker (u ∷ (t ∷ oci)))) [
      | inl n ↦ subst P (same u v (ground arith)) h.0
      | inr p ↦
          All-In P v (u ∷ (t ∷ oci)) h (first_named-In marker (u ∷ (t ∷ oci)) v (ground arith))
    ]

-- The volume that is taken for an image stands in the listing of the storage, matches the name under which
-- the image is pulled, and is an OCI blob or a container template.
pub select_volume-Hit :
    (marker : Text) (items : List Text) (v : Text)
    → select_volume marker items ≡ some v
    → In v items × (oci_vol_matches_pull v marker ≡ true) × (is_image_volume v ≡ true)
unfolding select_volume
select_volume-Hit marker items v h =
    chosen (Hit marker items) marker (volume_hits marker items).0 (volume_hits marker items).1 v
      (hits marker items).0 (hits marker items).1 h

to_lower-append : (s t : Text) → to_lower (s ++ t) ≡ to_lower s ++ to_lower t
unfolding to_lower
to_lower-append [] t = refl
to_lower-append (c ∷ s) t = ground (arith, to_lower-append s t)

contains-prefix : (p s : Text) → contains (p ++ s) p ≡ true
unfolding contains
contains-prefix [] [] = ground (arith, has_prefix-append [] [])
contains-prefix [] (c ∷ s) = ground (arith, has_prefix-append [] (c ∷ s))
contains-prefix (c ∷ p) s = ground (arith, has_prefix-append (c ∷ p) s)

contains-infix : (s p t : Text) → contains (s ++ (p ++ t)) p ≡ true
unfolding contains
contains-infix [] p t = contains-prefix p t
contains-infix (c ∷ s) p t = ground (arith, contains-infix s p t)

is_nil-append : (s t : Text) → is_nil t ≡ false → is_nil (s ++ t) ≡ false
unfolding is_nil
is_nil-append [] t h = h
is_nil-append (c ∷ s) t h = refl

is_nil-front : (s t : Text) → is_nil s ≡ false → is_nil (s ++ t) ≡ false
unfolding is_nil
is_nil-front [] t h = ground arith
is_nil-front (c ∷ s) t h = refl

longer_contains :
    (directory stem rest : Text)
    → contains (to_lower (directory ++ (stem ++ rest))) (to_lower stem) ≡ true
longer_contains directory stem rest =
    rw (to_lower-append directory (stem ++ rest), to_lower-append stem rest)
      (contains-infix (to_lower directory) (to_lower stem) (to_lower rest))

-- A volume whose name goes on behind the name of the image matches it as well: the volume of the image
-- `nginx:1.27` is one for `nginx:1.2`.
pub matches-longer_name :
    (directory stem rest : Text)
    → is_nil stem ≡ false
    → oci_vol_matches_pull (directory ++ (stem ++ rest)) stem ≡ true
unfolding oci_vol_matches_pull
matches-longer_name directory stem rest h =
    rw
      (
        h,
        is_nil-append directory (stem ++ rest) (is_nil-front stem rest h),
        longer_contains directory stem rest,
      )
      refl
