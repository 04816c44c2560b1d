-- ===== src/Template/IpRoundTrip.antt =====
-- What `IPConfigParser` reads of the address that `constructCloudInitOptions` writes:
-- pkg/proxmox/virtualmachinetemplate.go.
use kubemox.Api.{IpConfig}
use kubemox.Base.{
  Option-cases, Text, [], ap, arith, bytes, cut_at, inl, inr, lacks, push_byte, refl, some, split,
  text_eq, true, ℕ, ◌++◌, ◌∙◌, ◌∷◌, ◌≡◌,
}
use kubemox.Template.CloudInit.{ip_config_value}
use kubemox.Template.IpConfigs.{
  ip_config_parser, no_ip_config, parse_pair, parse_pairs, put_ip, set_field,
}

split-lacks : (sep : ℕ) (s : Text) → lacks sep s ≡ true → split sep s ≡ s ∷ []
unfolding split push_byte
split-lacks sep [] h = refl
split-lacks sep (c ∷ s) h = ground (arith, split-lacks sep s)

split-first :
    (sep : ℕ) (s t : Text) → lacks sep s ≡ true → split sep (s ++ (sep ∷ t)) ≡ s ∷ split sep t
unfolding split push_byte
split-first sep [] t h = ground arith
split-first sep (c ∷ s) t h = ground (arith, split-first sep s t)

cut_at-first :
    (sep : ℕ) (s t : Text) → lacks sep s ≡ true → cut_at sep (s ++ (sep ∷ t)) ≡ some (s, t)
unfolding cut_at
cut_at-first sep [] t h = elim (Option-cases (cut_at sep t)) [
  | inl e ↦ rw e (ground arith)
  | inr p ↦ rw p.1 (ground arith)
]
cut_at-first sep (c ∷ s) t h = rw (cut_at-first sep s t (ground arith)) (ground arith)

lacks-append :
    (sep : ℕ) (s t : Text) → lacks sep s ≡ true → lacks sep t ≡ true → lacks sep (s ++ t) ≡ true
lacks-append sep [] t h k = k
lacks-append sep (c ∷ s) t h k = ground (arith, lacks-append sep s t)

parse_pair-gateway :
    (c : IpConfig) (gateway : Text)
    → parse_pair c (bytes "gw=" ++ gateway) ≡ record c { gateway = gateway }
unfolding parse_pair text_eq cut_at
parse_pair-gateway c gateway = elim (Option-cases (cut_at b'=' gateway)) [
  | inl e ↦ rw e refl
  | inr p ↦ rw p.1 refl
]

set_field-address :
    (c : IpConfig) (ip cidr : Text)
    → lacks b'/' ip ≡ true
    → set_field c (bytes "ip") (ip ++ (b'/' ∷ cidr)) ≡ record c { ip = ip; cidr = cidr }
unfolding text_eq
set_field-address c ip cidr h = ap (put_ip c (ip ++ (b'/' ∷ cidr))) (cut_at-first b'/' ip cidr h)

parse_pair-address :
    (c : IpConfig) (address : Text)
    → parse_pair c (bytes "ip=" ++ address) ≡ set_field c (bytes "ip") address
unfolding parse_pair text_eq cut_at
parse_pair-address c address = elim (Option-cases (cut_at b'=' address)) [
  | inl e ↦ rw e refl
  | inr p ↦ rw p.1 refl
]

two_pairs :
    (c : IpConfig) (s t : Text)
    → lacks b',' s ≡ true
    → lacks b',' t ≡ true
    → parse_pairs c (split b',' (s ++ (b',' ∷ t))) ≡ parse_pair (parse_pair c s) t
unfolding parse_pairs
two_pairs c s t h k = rw (split-first b',' s t h, split-lacks b',' t k) refl

-- The gateway, the address and the prefix length that are written into the option ipconfig0 are read back
-- from it, where none of them has a comma and the address has no slash; the fields for IPv6 are lost.
pub parse-ip_config_value :
    (c : IpConfig)
    → lacks b',' c.gateway ≡ true
    → lacks b',' c.ip ≡ true
    → lacks b',' c.cidr ≡ true
    → lacks b'/' c.ip ≡ true
    → ip_config_parser (ip_config_value c) ≡ record c { gateway_ipv6 = []; ipv6 = [] }
unfolding ip_config_parser ip_config_value
parse-ip_config_value c g i k s =
    let address = c.ip ++ (b'/' ∷ c.cidr) in
    two_pairs no_ip_config (bytes "gw=" ++ c.gateway) (bytes "ip=" ++ address)
      (lacks-append b',' (bytes "gw=") c.gateway refl g)
      (lacks-append b',' (bytes "ip=") address refl (lacks-append b',' c.ip (b'/' ∷ c.cidr) i k))
    ∙ ap (λ d. parse_pair d (bytes "ip=" ++ address)) (parse_pair-gateway no_ip_config c.gateway)
    ∙ parse_pair-address (record no_ip_config { gateway = c.gateway }) address
    ∙ set_field-address (record no_ip_config { gateway = c.gateway }) c.ip c.cidr s
