-- ===== src/Model/Validate.antt =====
-- internal/model/validate.go: which node configurations are accepted.
use Prim.Native.String.{String}
use yzboard_node.Prelude.{
  not, ◌&&◌, ◌||◌, some, List, [], ◌∷◌, ◌++◌, map, if◌then◌else◌, nat_eq, ◌==◌, string_Eq,
  trim_space, one_of, Outcome, ok, err, ◌>>=◌, ◌>>◌, reject,
}
use yzboard_node.Portset
use yzboard_node.Model.{
  Fields, Failure, OutboundConfig, NodeSpec, key_of, is_relay_landing, hopping_unsupported,
  bad_hopping, bad_kernel_type, unsupported_transport,
}
use yzboard_node.Model.Custom.{
  Check, Files, collect_additional_tags, validate_tag_collisions, validate_outbounds, tag_keys,
}
use yzboard_node.Model.Routes.{validate_route_rules}
use yzboard_node.Model.Relay.{validate_relay}

-- `config.KernelConfig`, as far as the validation reads it.
pub record KernelConfig : Type 0 where
  pub type : String
  pub custom_config : String
  pub custom_outbound : List Fields

abbrev pub hopping_result : Outcome Portset.Error (List Portset.Range) → Check
hopping_result (err e) = err (bad_hopping e)
hopping_result (ok ranges) = ok tt

-- The first check of `ValidateNodeSpec`.
unfoldable pub validate_hopping : NodeSpec → Check
validate_hopping n = if trim_space n.port_hopping == "" then ok tt else (do
  reject (not (n.protocol == "hysteria") || not (nat_eq n.version 2) || is_relay_landing n)
      hopping_unsupported
  hopping_result (Portset.parse n.port_hopping))

-- `singboxUnsupportedTransports`
abbrev pub singbox_unsupported : List String
singbox_unsupported = "xhttp" ∷ "splithttp" ∷ []

module _ (to_lower : String → String) where
  -- `validateTransportKernel`
  unfoldable pub validate_transport_kernel : String → String → Check
  validate_transport_kernel network kernel_type =
      reject (kernel_type == "singbox" && one_of (key_of to_lower network) singbox_unsupported)
        unsupported_transport

  -- `ResolveKernelForTransport`
  unfoldable pub resolve_kernel_for_transport : String → String → String
  resolve_kernel_for_transport network configured_kernel =
      if configured_kernel == "singbox" && one_of (key_of to_lower network) singbox_unsupported
      then "xray"
      else configured_kernel

  -- `normalizeKernelType`
  unfoldable pub normalize_kernel_type : String → Outcome Failure String
  normalize_kernel_type value =
      let key = key_of to_lower value in
      if one_of key ("singbox" ∷ "sing-box" ∷ [])
      then ok "singbox"
      else if key == "xray"
      then ok "xray"
      else err bad_kernel_type

  abbrev pub outbound_tags : List OutboundConfig → List String
  outbound_tags outbounds = map (λ o. o.tag) outbounds

  -- `buildAvailableOutboundTags`
  unfoldable pub build_available_tags : List OutboundConfig → List String → List String
  build_available_tags structured raw_tags =
      "direct"
      ∷ "block"
      ∷ (tag_keys to_lower (outbound_tags structured) ++ tag_keys to_lower raw_tags)

  -- `ValidateNodeSpec`, on a configuration that is not `nil`.
  unfoldable pub validate_node_spec : Files → NodeSpec → KernelConfig → Check
  validate_node_spec files n kcfg = do
    validate_hopping n
    let configured = trim_space kcfg.type
    kernel_type ←
        normalize_kernel_type (if configured == "" then trim_space n.kernel_type else configured)
    additional ← collect_additional_tags files kcfg.custom_config kcfg.custom_outbound
    validate_tag_collisions to_lower n.custom_outbounds additional
    let available = build_available_tags n.custom_outbounds additional
    validate_outbounds to_lower n.custom_outbounds kernel_type additional
    validate_route_rules to_lower n.custom_route_rules kernel_type (some available)
    validate_transport_kernel n.network kernel_type
    validate_relay to_lower n kernel_type available
