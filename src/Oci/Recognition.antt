-- ===== src/Oci/Recognition.antt =====
-- Which containers carry an image's tag: `LXCHasOCIImageTag` of
-- pkg/proxmox/container_oci.go.
use kubemox.Base.{
  Bool, Bool-cases, List, Text, [], all_bytes, arith, bytes, false, inl, inr, is_nil, is_space,
  join, push_byte, refl, split, text_eq_refl, trim, trim_left, trim_right, true, ℕ, ◌++◌, ◌==◌,
  ◌||◌, ◌∷◌, ◌≡◌,
}
use kubemox.Oci.Names.{any_tag, lxc_has_oci_image_tag, oci_image_proxmox_tag}
use kubemox.Oci.Tag.{is_tag_byte, tag-bounds}

split-cons : (sep : ℕ) (s : Text) → (t : Text) × (ts : List Text) × (split sep s ≡ t ∷ ts)
unfolding split push_byte
split-cons sep [] = ([], [], refl)
split-cons sep (c ∷ s) =
    let (t, ts, e) = split-cons sep s in
    elim (Bool-cases (c == sep)) [
      | inl k ↦ ([], split sep s, rw k refl)
      | inr k ↦ (c ∷ t, ts, rw (k, e) refl)
    ]

push_byte-append :
    (c : ℕ) (ts us : List Text) (t : Text)
    → push_byte c ((t ∷ ts) ++ us) ≡ push_byte c (t ∷ ts) ++ us
unfolding push_byte
push_byte-append c ts us t = refl

-- A text with the separator in it is split into the parts of what is before and behind.
split-append : (sep : ℕ) (s t : Text) → split sep (s ++ (sep ∷ t)) ≡ split sep s ++ split sep t
unfolding split push_byte
split-append sep [] t = ground arith
split-append sep (c ∷ s) t =
    let (u, us, e) = split-cons sep s in
    elim (Bool-cases (c == sep)) [
      | inl k ↦ rw (k, split-append sep s t) refl
      | inr k ↦ rw (k, split-append sep s t, e) refl
    ]

any_tag-append :
    (want : Text) (ts us : List Text)
    → any_tag want (ts ++ us) ≡ (any_tag want ts || any_tag want us)
unfolding any_tag
any_tag-append want [] us = refl
any_tag-append want (t ∷ ts) us = ground (arith, any_tag-append want ts us)

-- A tag has no separator in it, and no white space to trim.
split-tag : (s : Text) → all_bytes is_tag_byte s ≡ true → split b';' s ≡ s ∷ []
unfolding split push_byte
split-tag [] h = refl
split-tag (c ∷ s) h = ground (arith, split-tag s)

trim_right-tag : (s : Text) → all_bytes is_tag_byte s ≡ true → trim_right is_space s ≡ s
unfolding trim_right is_space
trim_right-tag [] h = refl
trim_right-tag (c ∷ s) h = ground (arith, trim_right-tag s)

trim_left-tag : (s : Text) → all_bytes is_tag_byte s ≡ true → trim_left is_space s ≡ s
unfolding trim_left is_space
trim_left-tag [] h = refl
trim_left-tag (c ∷ s) h = ground arith

trim-tag : (s : Text) → all_bytes is_tag_byte s ≡ true → trim is_space s ≡ s
unfolding trim
trim-tag s h = rw (trim_left-tag s h) (trim_right-tag s h)

any_tag_self : (s : Text) → all_bytes is_tag_byte s ≡ true → any_tag s (split b';' s) ≡ true
unfolding any_tag
any_tag_self s h = rw (split-tag s h, trim-tag s h, text_eq_refl s) refl

any_tag-behind :
    (s : Text) (us : List Text)
    → all_bytes is_tag_byte s ≡ true
    → any_tag s (split b';' (join (bytes ";") (s ∷ us))) ≡ true
unfolding join
any_tag-behind s [] h = any_tag_self s h
any_tag-behind s (u ∷ us) h =
    rw
      (
        split-append b';' s (join (bytes ";") (u ∷ us)),
        any_tag-append s (split b';' s) (split b';' (join (bytes ";") (u ∷ us))),
        any_tag_self s h,
      )
      refl

or_true : (b : Bool) → (b || true) ≡ true
or_true b = ground arith

any_tag-join :
    (s : Text) (ts us : List Text)
    → all_bytes is_tag_byte s ≡ true
    → any_tag s (split b';' (join (bytes ";") (ts ++ (s ∷ us)))) ≡ true
unfolding join
any_tag-join s [] us h = any_tag-behind s us h
any_tag-join s (t ∷ []) us h =
    rw
      (
        split-append b';' t (join (bytes ";") (s ∷ us)),
        any_tag-append s (split b';' t) (split b';' (join (bytes ";") (s ∷ us))),
        any_tag-behind s us h,
      )
      (or_true (any_tag s (split b';' t)))
any_tag-join s (t ∷ (u ∷ ts)) us h =
    rw
      (
        split-append b';' t (join (bytes ";") (u ∷ (ts ++ (s ∷ us)))),
        any_tag-append s (split b';' t) (split b';' (join (bytes ";") (u ∷ (ts ++ (s ∷ us))))),
        any_tag-join s (u ∷ ts) us h,
      )
      (or_true (any_tag s (split b';' t)))

-- A container is recognised by the tag that its image reference gives, wherever the tag stands among the
-- container's tags, if the reference is not blank.
pub has_tag-own_tag :
    (image_id : Text → Text)
    → ((ref : Text) → all_bytes is_tag_byte (image_id ref) ≡ true)
    → (ref : Text) (ts us : List Text) → is_nil (trim is_space ref) ≡ false
    → lxc_has_oci_image_tag image_id
        (join (bytes ";") (ts ++ (oci_image_proxmox_tag image_id ref ∷ us)))
        ref
      ≡ true
unfolding lxc_has_oci_image_tag
has_tag-own_tag image_id h ref ts us k =
    let bounds = tag-bounds image_id h ref in
    rw (bounds.2, k) (any_tag-join (oci_image_proxmox_tag image_id ref) ts us bounds.1)
