-- ===== src/Oci/Tag.antt =====
-- What the names of OCI images promise: `OCIImageProxmoxTag` and `LXCHasOCIImageTag` of
-- pkg/proxmox/container_oci.go.
use kubemox.Base.{
  Bool, Bool-cases, Text, [], all_bytes, arith, bytes, collapse_dashes, collapse_loop-squeeze,
  false, fold_byte, if◌then◌else◌, inl, inr, is_dash_or_dot, is_nil, is_space, leb, length, refl,
  squeeze, suc, take_bytes, to_lower, trim, trim_left, trim_right, true, zero, ℕ, ◌&&◌, ◌++◌, ◌==◌,
  ◌||◌, ◌∷◌, ◌≡◌, ◌≤◌,
}
use kubemox.Oci.Names.{
  cut_to, file_base_byte, file_base_bytes, oci_image_proxmox_tag, oci_reference_to_file_base,
}

-- The bytes of a name: letters in either case, digits and the dash; and those of a tag.
abbrev is_name_byte : ℕ → Bool
is_name_byte c =
    (c == b'-')
    || ((leb b'0' c && leb c b'9') || ((leb b'a' c && leb c b'z') || (leb b'A' c && leb c b'Z')))

abbrev pub is_tag_byte : ℕ → Bool
is_tag_byte c = (c == b'-') || ((leb b'0' c && leb c b'9') || (leb b'a' c && leb c b'z'))

module _ (p : ℕ → Bool) where
  all-trim_left :
      (cut : ℕ → Bool) (s : Text) → all_bytes p s ≡ true → all_bytes p (trim_left cut s) ≡ true
  unfolding trim_left
  all-trim_left cut [] h = refl
  all-trim_left cut (c ∷ s) h = ground (arith, all-trim_left cut s)

  all-trim_right :
      (cut : ℕ → Bool) (s : Text) → all_bytes p s ≡ true → all_bytes p (trim_right cut s) ≡ true
  unfolding trim_right
  all-trim_right cut [] h = refl
  all-trim_right cut (c ∷ s) h = ground (arith, all-trim_right cut s)

  all-take_bytes : (n : ℕ) (s : Text) → all_bytes p s ≡ true → all_bytes p (take_bytes n s) ≡ true
  unfolding take_bytes
  all-take_bytes zero s h = refl
  all-take_bytes (suc n) [] h = refl
  all-take_bytes (suc n) (c ∷ s) h = ground (arith, all-take_bytes n s)

  all-cut_to : (n : ℕ) (s : Text) → all_bytes p s ≡ true → all_bytes p (cut_to n s) ≡ true
  unfolding cut_to
  all-cut_to n s h =
      ground (arith, all-trim_right is_dash_or_dot (take_bytes n s), all-take_bytes n s)

  all-append :
      (s t : Text) → all_bytes p s ≡ true → all_bytes p t ≡ true → all_bytes p (s ++ t) ≡ true
  all-append [] t h k = k
  all-append (c ∷ s) t h k = ground (arith, all-append s t)

length-trim_right : (cut : ℕ → Bool) (s : Text) → length (trim_right cut s) ≤ length s
unfolding trim_right
length-trim_right cut [] = ground arith
length-trim_right cut (c ∷ s) = ground (arith, length-trim_right cut s)

length-take_bytes : (n : ℕ) (s : Text) → length (take_bytes n s) ≤ n
unfolding take_bytes
length-take_bytes zero s = ground arith
length-take_bytes (suc n) [] = ground arith
length-take_bytes (suc n) (c ∷ s) = ground (arith, length-take_bytes n s)

length-cut_to : (n : ℕ) (s : Text) → length (cut_to n s) ≤ n
unfolding cut_to
length-cut_to n s =
    ground (arith, length-take_bytes n s, length-trim_right is_dash_or_dot (take_bytes n s))

all-squeeze :
    (s : Text) → all_bytes is_name_byte s ≡ true → all_bytes is_name_byte (squeeze s) ≡ true
unfolding squeeze
all-squeeze [] h = refl
all-squeeze (c ∷ []) h = h
all-squeeze (c ∷ (d ∷ s)) h = ground (arith, all-squeeze (d ∷ s))

all-file_base_bytes : (s : Text) → all_bytes is_name_byte (file_base_bytes s) ≡ true
unfolding file_base_bytes file_base_byte
all-file_base_bytes [] = refl
all-file_base_bytes (c ∷ s) = ground (arith, all-file_base_bytes s)

all-to_lower :
    (s : Text) → all_bytes is_name_byte s ≡ true → all_bytes is_tag_byte (to_lower s) ≡ true
unfolding to_lower fold_byte
all-to_lower [] h = refl
all-to_lower (c ∷ s) h = ground (arith, all-to_lower s)

all-collapse_dashes :
    (s : Text) → all_bytes is_name_byte s ≡ true → all_bytes is_name_byte (collapse_dashes s) ≡ true
unfolding collapse_dashes
all-collapse_dashes s h = rw (collapse_loop-squeeze (length s) s (omega arith)) (all-squeeze s h)

all-trim :
    (s : Text)
    → all_bytes is_name_byte s ≡ true
    → all_bytes is_name_byte (trim is_dash_or_dot s) ≡ true
unfolding trim
all-trim s h =
    all-trim_right is_name_byte is_dash_or_dot (trim_left is_dash_or_dot s)
      (all-trim_left is_name_byte is_dash_or_dot s h)

pub all-file_base : (ref : Text) → all_bytes is_tag_byte (oci_reference_to_file_base ref) ≡ true
unfolding oci_reference_to_file_base
all-file_base reference =
    let ref = trim is_space reference in
    let collapsed = all-collapse_dashes (file_base_bytes ref) (all-file_base_bytes ref) in
    let trimmed = all-trim (collapse_dashes (file_base_bytes ref)) collapsed in
    let cut =
      all-cut_to is_name_byte 200 (trim is_dash_or_dot (collapse_dashes (file_base_bytes ref)))
        trimmed in
    let lower =
      all-to_lower (cut_to 200 (trim is_dash_or_dot (collapse_dashes (file_base_bytes ref)))) cut in
    elim (Bool-cases (is_nil ref)) [ inl e ↦ rw e refl | inr e ↦ rw e lower ]

all-prefix :
    (s : Text) → all_bytes is_tag_byte s ≡ true → all_bytes is_tag_byte (bytes "img-" ++ s) ≡ true
all-prefix s h = all-append is_tag_byte (bytes "img-") s refl h

pub all-tag :
    (image_id : Text → Text)
    → ((ref : Text) → all_bytes is_tag_byte (image_id ref) ≡ true)
    → (ref : Text) → all_bytes is_tag_byte (oci_image_proxmox_tag image_id ref) ≡ true
unfolding oci_image_proxmox_tag is_nil
all-tag image_id h image_ref =
    let ref = trim is_space image_ref in
    let base = oci_reference_to_file_base ref in
    let marked = all-append is_tag_byte (bytes "x-") (image_id ref) refl (h ref) in
    let named : all_bytes is_tag_byte (if is_nil base then bytes "x-" ++ image_id ref else base)
        ≡ true =
      elim (Bool-cases (is_nil base)) [ inl e ↦ rw e marked | inr e ↦ rw e (all-file_base ref) ] in
    let cut =
      all-cut_to is_tag_byte 120
        (bytes "img-" ++ (if is_nil base then bytes "x-" ++ image_id ref else base))
        (all-prefix (if is_nil base then bytes "x-" ++ image_id ref else base) named) in
    elim (Bool-cases (is_nil ref)) [ inl e ↦ rw e refl | inr e ↦ rw e cut ]

-- A text that begins with the byte `i` is not cut to nothing.
cut_to-starts : (s : Text) → is_nil (cut_to 120 (b'i' ∷ s)) ≡ false
unfolding cut_to trim_right take_bytes is_nil is_dash_or_dot
cut_to-starts s = ground arith

-- Whatever the image reference, its tag has at most 120 bytes, each a small letter, a digit or a dash; and
-- the tag is empty exactly where the reference is blank. The digits of the SHA-256 sum are such bytes.
pub tag-bounds :
    (image_id : Text → Text)
    → ((ref : Text) → all_bytes is_tag_byte (image_id ref) ≡ true)
    → (ref : Text)
    → (length (oci_image_proxmox_tag image_id ref) ≤ 120)
      × (all_bytes is_tag_byte (oci_image_proxmox_tag image_id ref) ≡ true)
      × (is_nil (oci_image_proxmox_tag image_id ref) ≡ is_nil (trim is_space ref))
unfolding oci_image_proxmox_tag is_nil
tag-bounds image_id h image_ref =
    let ref = trim is_space image_ref in
    let base = oci_reference_to_file_base ref in
    let named = if is_nil base then bytes "x-" ++ image_id ref else base in
    (
      elim (Bool-cases (is_nil ref)) [
        | inl e ↦ rw e (ground arith)
        | inr e ↦ rw e (length-cut_to 120 (bytes "img-" ++ named))
      ],
      all-tag image_id h image_ref,
      elim (Bool-cases (is_nil ref)) [
        | inl e ↦ rw e refl
        | inr e ↦ rw e (cut_to-starts (bytes "mg-" ++ named))
      ],
    )
