-- ===== src/Tests/Images.antt =====
-- The theorems on the names of OCI images and on cloud-init, at concrete inputs.
use kubemox.Api.{IpConfig}
use kubemox.Base.{
  List, Text, [], all_bytes, arith, bytes, collapse_dashes, collapse_loop, collapse_loop-ends,
  contains, false, is_nil, is_space, join, length, refl, squeeze, to_lower, trim, trim_left,
  trim_right, true, two_dashes, ◌∷◌, ◌≡◌, ◌≤◌,
}
use kubemox.Oci.Names.{lxc_has_oci_image_tag, oci_image_proxmox_tag, oci_vol_matches_pull}
use kubemox.Oci.Recognition.{has_tag-own_tag}
use kubemox.Oci.Selection.{Hit, matches-longer_name, select_volume-Hit}
use kubemox.Oci.Tag.{is_tag_byte, tag-bounds}
use kubemox.Oci.Volume.{choose_volume, select_volume, volume_hits}
use kubemox.Template.CloudInit.{ip_config_value}
use kubemox.Template.IpConfigs.{ip_config_parser}
use kubemox.Template.IpRoundTrip.{parse-ip_config_value}

abbrev image_digits : Text → Text
image_digits _ = bytes "0123456789abcdef"

collapse_loop-ends_example :
    (collapse_loop 9 (bytes "a---b--c") ≡ collapse_dashes (bytes "a---b--c"))
    × (contains (collapse_dashes (bytes "a---b--c")) two_dashes ≡ false)
    × (collapse_dashes (bytes "a---b--c") ≡ squeeze (bytes "a---b--c"))
collapse_loop-ends_example = collapse_loop-ends 9 (bytes "a---b--c") (omega arith)

tag-bounds_example :
    (length (oci_image_proxmox_tag image_digits (bytes "ghcr.io/Org//web:1.27 ")) ≤ 120)
    × (all_bytes is_tag_byte (oci_image_proxmox_tag image_digits (bytes "ghcr.io/Org//web:1.27 "))
        ≡ true)
    × (is_nil (oci_image_proxmox_tag image_digits (bytes "ghcr.io/Org//web:1.27 "))
        ≡ is_nil (trim is_space (bytes "ghcr.io/Org//web:1.27 ")))
tag-bounds_example = tag-bounds image_digits (λ _. refl) (bytes "ghcr.io/Org//web:1.27 ")

has_tag-own_tag_example :
    lxc_has_oci_image_tag image_digits
      (join
        (bytes ";")
        (bytes "prod" ∷ oci_image_proxmox_tag image_digits (bytes "nginx:1.27") ∷ bytes "eu" ∷ []))
      (bytes "nginx:1.27")
    ≡ true
unfolding is_nil trim trim_right trim_left is_space
has_tag-own_tag_example =
    has_tag-own_tag image_digits (λ _. refl) (bytes "nginx:1.27") (bytes "prod" ∷ [])
      (bytes "eu" ∷ []) refl

abbrev volumes : List Text
volumes = bytes "local:iso/nginx-1-27.iso" ∷ bytes "local:oci/nginx-1-27.tar" ∷ []

select_volume-Hit_example : Hit (bytes "nginx-1-27") volumes (bytes "local:oci/nginx-1-27.tar")
unfolding select_volume choose_volume volume_hits oci_vol_matches_pull is_nil contains to_lower
select_volume-Hit_example =
    select_volume-Hit (bytes "nginx-1-27") volumes (bytes "local:oci/nginx-1-27.tar") refl

matches-longer_name_example :
    oci_vol_matches_pull (bytes "local:oci/nginx-1-27.tar") (bytes "nginx-1-2") ≡ true
unfolding is_nil
matches-longer_name_example =
    matches-longer_name (bytes "local:oci/") (bytes "nginx-1-2") (bytes "7.tar") refl

abbrev address : IpConfig
address = record {
  gateway = bytes "10.0.0.1";
  gateway_ipv6 = [];
  ip = bytes "10.0.0.2";
  ipv6 = [];
  cidr = bytes "24";
}

parse-ip_config_value_example : ip_config_parser (ip_config_value address) ≡ address
parse-ip_config_value_example = parse-ip_config_value address refl refl refl refl
