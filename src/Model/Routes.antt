-- ===== src/Model/Routes.antt =====
-- internal/model/custom_route_support.go and custom_route_validate.go: which route rules are accepted.
use Prim.Native.Char.{code}
use Prim.Native.String.{String}
use yzboard_node.Prelude.{
  ℕ, Bool, true, false, not, ◌&&◌, ◌||◌, Option, none, some, List, [], ◌∷◌, map, if◌then◌else◌, ltb,
  nat_eq, ◌==◌, string_Eq, trim_space, split, one_of, ok, err, ◌>>◌, reject,
}
use yzboard_node.Model.{
  RouteMatch, RouteAction, CustomRouteRule, key_of, unsupported_kernel, match_required,
  unsupported_matcher, bad_ports, bad_network, action_required, unsupported_action, target_required,
  unknown_target, target_forbidden,
}
use yzboard_node.Model.Custom.{Check, atoi}

-- `RouteSupportMatrix`: the matchers and the actions.
abbrev pub route_matchers : List String
route_matchers =
    "domains" ∷ "domain_suffixes" ∷ "ip_cidrs" ∷ "ports" ∷ "networks" ∷ "source_cidrs"
    ∷ "source_ports" ∷ []

abbrev pub route_actions : List String
route_actions = "block" ∷ "direct" ∷ "route" ∷ []

pub record RouteSupport : Type 0 where
  pub matchers : List String
  pub actions : List String

unfoldable pub route_support : String → Option RouteSupport
route_support kernel_type =
    if one_of kernel_type ("xray" ∷ "singbox" ∷ [])
    then some (record { matchers = route_matchers; actions = route_actions })
    else none

-- `hasAnyNonBlank`
unfoldable pub has_any_non_blank : List String → Bool
has_any_non_blank [] = false
has_any_non_blank (v ∷ vs) = not (trim_space v == "") || has_any_non_blank vs

-- `hasRouteMatch`
unfoldable pub has_route_match : RouteMatch → Bool
unfolding has_any_non_blank
has_route_match m =
    has_any_non_blank m.domains
    || has_any_non_blank m.domain_suffixes
    || has_any_non_blank m.ip_cidrs
    || has_any_non_blank m.ports
    || has_any_non_blank m.networks
    || has_any_non_blank m.source_cidrs
    || has_any_non_blank m.source_ports

abbrev pub contains_char : ℕ → String → Bool
contains_char n String.[] = false
contains_char n (String.◌∷◌ c s) = nat_eq (code c) n || contains_char n s

abbrev pub bad_bounds : ℕ → ℕ → Bool
bad_bounds low n = ltb n 1 || ltb 65535 n || ltb n low

abbrev pub refused : ℕ → Option ℕ → Bool
refused low none = true
refused low (some n) = bad_bounds low n

-- The two ends of a range.
abbrev pub refused_ends : Option ℕ → Option ℕ → Bool
refused_ends none last = true
refused_ends (some start) last = bad_bounds 0 start || refused start last

abbrev pub refused_parts : List String → Bool
refused_parts (a ∷ b ∷ []) = refused_ends (atoi (trim_space a)) (atoi (trim_space b))
refused_parts other_parts = true

-- One round of the loop in `validatePortSpecs`, on the trimmed text.
unfoldable pub refused_ports : String → Bool
refused_ports spec =
    if spec == ""
    then false
    else if contains_char b'-' spec || contains_char b':' spec
    then refused_parts (split (if contains_char b':' spec then b':' else b'-') spec)
    else refused 0 (atoi spec)

-- `validatePortSpecs`
unfoldable pub validate_port_specs : List String → Check
validate_port_specs [] = ok tt
validate_port_specs (spec ∷ specs) =
    let rest = validate_port_specs specs in
    (do reject (refused_ports (trim_space spec)) bad_ports; rest)

module _ (to_lower : String → String) where
  -- `validateNetworks`
  unfoldable pub validate_networks : List String → Check
  validate_networks [] = ok tt
  validate_networks (network ∷ networks) =
      let rest = validate_networks networks in
      let n = key_of to_lower network in
      (do reject (not (n == "") && not (n == "tcp") && not (n == "udp")) bad_network; rest)

  abbrev pub unsupported : List String → String → List String → Bool
  unsupported matchers matcher values = has_any_non_blank values && not (one_of matcher matchers)

  abbrev pub supported_actions : Option RouteSupport → List String
  supported_actions none = []
  supported_actions (some s) = map to_lower s.actions

  abbrev pub supported_matchers : Option RouteSupport → List String
  supported_matchers none = []
  supported_matchers (some s) = map to_lower s.matchers

  -- `ensureRouteMatcherSupported`, with the kernel's support where a kernel is given.
  unfoldable pub ensure_matchers : Option RouteSupport → RouteMatch → Check
  ensure_matchers none m = ok tt
  ensure_matchers (some s) m =
      let matchers = supported_matchers (some s) in
      reject
        (unsupported matchers "domains" m.domains
          || unsupported matchers "domain_suffixes" m.domain_suffixes
          || unsupported matchers "ip_cidrs" m.ip_cidrs
          || unsupported matchers "ports" m.ports
          || unsupported matchers "networks" m.networks
          || unsupported matchers "source_cidrs" m.source_cidrs
          || unsupported matchers "source_ports" m.source_ports)
        unsupported_matcher

  abbrev pub unsupported_by : Option RouteSupport → String → Bool
  unsupported_by none action = false
  unsupported_by (some s) action = not (one_of action (supported_actions (some s)))

  -- The tags are `nil`, or know the target.
  abbrev pub known : Option (List String) → String → Bool
  known none key = true
  known (some tags) key = one_of key tags

  -- The action of a rule.
  unfoldable pub validate_action : Option RouteSupport → Option (List String) → RouteAction → Check
  validate_action support available a = do
    let action = key_of to_lower a.type
    reject (action == "") action_required
    reject (unsupported_by support action) unsupported_action
    let target = trim_space a.target
    if action == "route"
        then (do
          reject (target == "") target_required
          reject (not (known available (to_lower target))) unknown_target)
        else if one_of action ("direct" ∷ "block" ∷ [])
        then reject (not (target == "")) target_forbidden
        else err unsupported_action

  -- One round of the loop in `ValidateCustomRouteRules`, for a rule that is not disabled.
  unfoldable pub validate_rule :
      Option RouteSupport → Option (List String) → CustomRouteRule → Check
  validate_rule support available rule = do
    reject (not (has_route_match rule.matches)) match_required
    ensure_matchers support rule.matches
    validate_port_specs rule.matches.ports
    validate_port_specs rule.matches.source_ports
    validate_networks rule.matches.networks
    validate_action support available rule.action

  unfoldable pub validate_rules_with :
      Option RouteSupport → Option (List String) → List CustomRouteRule → Check
  validate_rules_with support available [] = ok tt
  validate_rules_with support available (rule ∷ rules) =
      let rest = validate_rules_with support available rules in
      if rule.disabled then rest else (do validate_rule support available rule; rest)

  abbrev pub supported_rules :
      Option RouteSupport → Option (List String) → List CustomRouteRule → Check
  supported_rules none available rules = err unsupported_kernel
  supported_rules (some support) available rules =
      validate_rules_with (some support) available rules

  -- `ValidateCustomRouteRules`
  unfoldable pub validate_route_rules : List CustomRouteRule → String → Option (List String) → Check
  validate_route_rules [] kernel_type available = ok tt
  validate_route_rules (rule ∷ rules) kernel_type available =
      let kernel = key_of to_lower kernel_type in
      if kernel == ""
      then validate_rules_with none available (rule ∷ rules)
      else supported_rules (route_support kernel) available (rule ∷ rules)
