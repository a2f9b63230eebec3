-- ===== src/Runtime/Checks.antt =====
-- internal/service/service.go, the section on runtime validation: what a configuration needs beside being
-- well formed.
use Prim.Native.String.{String}
use yzboard_node.Prelude.{
  Bool, true, false, not, ◌&&◌, ◌||◌, Option, none, some, if◌then◌else◌, List, [], ◌∷◌, nat_eq,
  ◌==◌, string_Eq, trim_space, one_of, Outcome, ok, err, ◌>>◌, reject,
}
use yzboard_node.Model.{Fields, CertConfig, NodeSpec, Failure, key_of, any_string, get}
use yzboard_node.Model.Validate.{validate_node_spec}
use yzboard_node.Runtime.{Parts, TlsCert, has_cert, Config}

pub data RuntimeFailure : Type 0 where
  unsupported_protocol missing_cert missing_provider unknown_provider : RuntimeFailure
  missing_settings missing_private_key missing_server_name : RuntimeFailure
  bad_spec : Failure → RuntimeFailure

abbrev pub Check : Type 0
Check = Outcome RuntimeFailure (Unit {0})

abbrev pub from_spec : Outcome Failure (Unit {0}) → Check
from_spec (err e) = err (bad_spec e)
from_spec (ok done) = ok done

abbrev pub is_blank : String → Bool
is_blank s = trim_space s == ""

abbrev pub blank_setting : String → Fields → Bool
blank_setting key settings = is_blank (any_string (get key settings))

abbrev pub check_reality : Option Fields → Check
check_reality none = err missing_settings
check_reality (some settings) = do
  reject (blank_setting "private_key" settings) missing_private_key
  reject (blank_setting "server_name" settings && blank_setting "dest" settings) missing_server_name

-- `validateRealityRequirements`
unfoldable pub validate_reality : NodeSpec → Check
validate_reality spec = check_reality spec.tls_settings

-- The switch of `validateTLSRequirements`.
unfoldable pub needs_cert : NodeSpec → Bool
needs_cert spec =
    if one_of spec.protocol ("hysteria" ∷ "hysteria2" ∷ "tuic" ∷ "anytls" ∷ [])
    then true
    else spec.protocol == "trojan" && not (nat_eq spec.tls 2)

module _ (w : Parts) where
  -- The switch of `hasUsableTLSConfig`.
  abbrev pub usable_config : Option CertConfig → Bool
  usable_config none = false
  usable_config (some c) =
      let mode = key_of w.to_lower c.cert_mode in
      if mode == "self"
      then true
      else if mode == "content"
      then not (is_blank c.cert_content) && not (is_blank c.key_content)
      else if mode == "file"
      then not (is_blank c.cert_file) && not (is_blank c.key_file)
      else if mode == "http"
      then not (is_blank c.domain)
      else if mode == "dns"
      then not (is_blank c.domain) && not (is_blank c.dns_provider)
      else false

  -- `hasUsableTLSConfig`
  unfoldable pub has_usable_tls_config : NodeSpec → TlsCert → Bool
  has_usable_tls_config spec tls = has_cert tls || usable_config spec.cert_config

  -- `validateTLSRequirements`
  unfoldable pub validate_tls : NodeSpec → TlsCert → Check
  validate_tls spec tls = do
    reject (needs_cert spec && not (has_usable_tls_config spec tls)) missing_cert
    if nat_eq spec.tls 2 then validate_reality spec else ok tt

  abbrev pub check_provider : Option CertConfig → Check
  check_provider none = ok tt
  check_provider (some c) = if not (key_of w.to_lower c.cert_mode == "dns") then ok tt else (do
    let provider = trim_space c.dns_provider
    reject (provider == "") missing_provider
    reject (not (w.known_provider provider)) unknown_provider)

  -- `validateRuntimeCertConfig`
  unfoldable pub validate_cert_config : NodeSpec → Check
  validate_cert_config spec = check_provider spec.cert_config

  -- `validateNodeRuntime`
  unfoldable pub validate_node_runtime : Config → List String → NodeSpec → TlsCert → Check
  validate_node_runtime cfg supported spec tls = do
    reject (not (one_of spec.protocol supported)) unsupported_protocol
    from_spec (validate_node_spec w.to_lower w.files spec cfg.kernel)
    validate_tls spec tls
    validate_cert_config spec
