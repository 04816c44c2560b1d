-- ===== src/Template/IpConfigs.antt =====
-- `IPConfigParser` of pkg/proxmox/virtualmachinetemplate.go.
use kubemox.Api.{IpConfig}
use kubemox.Base.{
  List, Option, Text, [], bytes, cut_at, if◌then◌else◌, none, some, split, text_eq, ◌∷◌,
}

abbrev pub no_ip_config : IpConfig
no_ip_config = record { gateway = []; gateway_ipv6 = []; ip = []; ipv6 = []; cidr = [] }

-- The cases of the switch on the key.
abbrev pub put_ip : IpConfig → Text → Option (Text × Text) → IpConfig
put_ip c value none = record c { ip = value }
put_ip c value (some parts) = record c { ip = parts.0; cidr = parts.1 }

abbrev set_ip : IpConfig → Text → IpConfig
set_ip c value = put_ip c value (cut_at b'/' value)

abbrev set_ipv6 : IpConfig → Text → IpConfig
set_ipv6 c value = elim (cut_at b'/' value) [
  | none ↦ record c { ipv6 = value }
  | some parts ↦ record c { ipv6 = parts.0 }
]

abbrev pub set_field : IpConfig → Text → Text → IpConfig
set_field c key value =
    if text_eq key (bytes "ip")
    then set_ip c value
    else if text_eq key (bytes "gw")
    then record c { gateway = value }
    else if text_eq key (bytes "ip6")
    then set_ipv6 c value
    else if text_eq key (bytes "gw6")
    then record c { gateway_ipv6 = value }
    else c

-- A round of the loop; a pair without "=" is passed over, an empty one too.
unfoldable pub parse_pair : IpConfig → Text → IpConfig
parse_pair c pair = elim (cut_at b'=' pair) [ none ↦ c | some kv ↦ set_field c kv.0 kv.1 ]

unfoldable pub parse_pairs : IpConfig → List Text → IpConfig
parse_pairs c [] = c
parse_pairs c (pair ∷ pairs) = parse_pairs (parse_pair c pair) pairs

-- `IPConfigParser`
unfoldable pub ip_config_parser : Text → IpConfig
ip_config_parser s = parse_pairs no_ip_config (split b',' s)
