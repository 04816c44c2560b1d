-- ===== src/Template/CloudInit.antt =====
-- The cloud-init options of pkg/proxmox/virtualmachinetemplate.go: `constructCloudInitOptions`,
-- `GetPasswordValue`, `customCloudInitConfig` and `cloudInitcompareOptions`, and `GetSecretData` of
-- pkg/kubernetes/kubernetes.go.
use kubemox.Api.{CiCustom, CloudInitConfig, IpConfig, SecretKeySelector}
use kubemox.Base.{
  Bool, List, Option, Text, [], bytes, false, if◌then◌else◌, is_nil, is_space, join, none, not,
  some, trim, true, ◌++◌, ◌==◌, ◌∷◌,
}
use kubemox.World.Call.{Call, OptionValue, flag, text, texts}
use kubemox.World.Env.{CompareOptions}
use kubemox.World.Error.{message, other, wrap}
use kubemox.World.Monad.{Action, fail, gets, handle, on_option, perform, return, ◌>>=◌}

-- `GetSecretData`; the check of `Optional` stands behind the return for a missing key.
unfoldable pub get_secret_data : Text → SecretKeySelector → Action Text
get_secret_data namespace selector = do
  history ← gets (λ w. w.trace)
  handle (perform (Call.get_secret namespace selector.name))
      (λ e.
        fail (wrap (bytes "failed to get secret " ++ selector.name ++ bytes ": " ++ message e) e))
      (λ _. do
        secret ← gets (λ w. w.env.stored_secret history namespace selector.name)
        on_option (secret.contents selector.key)
            (fail (
              other
                (bytes "key " ++ selector.key ++ bytes " not found in secret " ++ selector.name)))
            return)

-- `GetPasswordValue`
unfoldable pub get_password_value : CloudInitConfig → Text → Action Text
get_password_value config namespace = elim config.password [
  | some password ↦ elim config.password_from [
    | some _ ↦ fail (other (bytes "both password and passwordFrom are set"))
    | none ↦ return password
  ]
  | none ↦ on_option config.password_from (return []) (get_secret_data namespace)
]

-- An option, where its value is not empty.
abbrev pub text_option : Text → Text → List (Text × OptionValue)
text_option name value = if is_nil value then [] else (name, text value) ∷ []

abbrev pub texts_option : Text → List Text → List (Text × OptionValue)
texts_option name [] = []
texts_option name (t ∷ ts) = (name, texts (t ∷ ts)) ∷ []

abbrev pub flag_option : Text → Bool → List (Text × OptionValue)
flag_option name value = if value then (name, flag true) ∷ [] else []

-- The value of the option ipconfig0.
unfoldable pub ip_config_value : IpConfig → Text
ip_config_value c = bytes "gw=" ++ (c.gateway ++ (bytes ",ip=" ++ (c.ip ++ (bytes "/" ++ c.cidr))))

abbrev ip_options : Option IpConfig → List (Text × OptionValue)
ip_options none = []
ip_options (some c) = (bytes "ipconfig0", text (ip_config_value c)) ∷ []

-- A part of the option cicustom, where its file is set.
abbrev snippet : Text → Text → List Text
snippet kind file = if is_nil file then [] else (kind ++ bytes "=local:snippets/" ++ file) ∷ []

-- `strings.ReplaceAll(s, "\n", "")`
unfoldable pub without_newlines : Text → Text
without_newlines [] = []
without_newlines (c ∷ s) = let rest = without_newlines s in if c == 10 then rest else c ∷ rest

-- The value of `customCloudInitConfig`.
unfoldable pub custom_cloud_init_config : CiCustom → Text
custom_cloud_init_config c = without_newlines (
    join (bytes ",") (
      snippet (bytes "user") c.user_data
      ++ snippet (bytes "meta") c.meta_data
      ++ snippet (bytes "network") c.network_data
      ++ snippet (bytes "vendor") c.vendor_data))

abbrev custom_options : Option CiCustom → List (Text × OptionValue)
custom_options none = []
custom_options (some c) = text_option (bytes "cicustom") (custom_cloud_init_config c)

-- The options that `constructCloudInitOptions` reads off the fields, in the order of the struct, and
-- the address.
unfoldable pub field_options : CloudInitConfig → List (Text × OptionValue)
field_options c =
    text_option (bytes "ciuser") c.user
    ++ text_option (bytes "searchdomain") c.dns_domain
    ++ texts_option (bytes "nameserver") c.dns_servers
    ++ texts_option (bytes "sshkeys") c.ssh_keys
    ++ flag_option (bytes "ciupgrade") c.upgrade_packages
    ++ ip_options c.ip_config

-- `constructCloudInitOptions`; an error of the password is logged, and the password is left out.
unfoldable pub construct_cloud_init_options :
    CloudInitConfig → Text → Action (List (Text × OptionValue))
construct_cloud_init_options c namespace =
    handle (get_password_value c namespace)
      (λ _. return (field_options c ++ custom_options c.custom))
      (λ password.
        return
          (field_options c ++ text_option (bytes "cipassword") password ++ custom_options c.custom))

-- The transformer "NormalizeDNSServers"; a nil slice is `none`.
unfoldable pub trimmed_servers : List Text → List Text
trimmed_servers [] = []
trimmed_servers (s ∷ ss) =
    let rest = trimmed_servers ss in
    let trimmed = trim is_space s in if not (is_nil trimmed) then trimmed ∷ rest else rest

abbrev pub nil_if_empty : List Text → Option (List Text)
nil_if_empty [] = none
nil_if_empty (s ∷ ss) = some (s ∷ ss)

-- `cloudInitcompareOptions`
unfoldable pub cloud_init_compare_options : CloudInitConfig → CompareOptions
cloud_init_compare_options c = record {
  trim_space = trim is_space;
  normalize_dns_servers = λ servers. nil_if_empty (trimmed_servers servers);
  ignore_ip_config = elim c.ip_config [ none ↦ true | some _ ↦ false ];
}
