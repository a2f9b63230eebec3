-- ===== src/Model.antt =====
-- internal/model/types.go and custom_route.go: the configuration of a node, without the fields that
-- only the kernels read. A map of type `map[string]any` is a list of fields.
pub mod Relay
pub mod Custom
pub mod Routes
pub mod Validate
pub mod Accepted
pub mod Tests
use Prim.Native.String.{String}
use yzboard_node.Prelude.{
  ℕ, Bool, true, false, not, ◌&&◌, ◌||◌, Option, none, some, List, [], ◌∷◌, if◌then◌else◌, ltb,
  ◌==◌, nat_Eq, string_Eq, trim_space, Dict, insert,
}
use yzboard_node.Portset

-- A value of type `any`: `whole` is a number that is whole and not negative, `other` any other number.
mutual
  pub data Any : Type 0 where
    null other : Any
    text : String → Any
    truth : Bool → Any
    whole : ℕ → Any
    object : Fields → Any
    array : Elements → Any

  pub data Elements : Type 0 where
    done : Elements
    element : Any → Elements → Elements

  pub data Fields : Type 0 where
    end : Fields
    field : String → Any → Fields → Fields

-- `value, ok := m[key]`
unfoldable pub get : String → Fields → Option Any
get key end = none
get key (field k v rest) = let found = get key rest in if k == key then some v else found

-- `anyString(m[key])`: the text, or the empty one.
abbrev pub any_string : Option Any → String
any_string (some (text s)) = s
any_string other_value = ""

-- Why a configuration is refused.
pub data Failure : Type 0 where
  hopping_unsupported bad_kernel_type unsupported_kernel unsupported_transport : Failure
  bad_hopping : Portset.Error → Failure
  read_failed parse_failed : Failure
  tag_required protocol_required unsupported_protocol duplicate_tag : Failure
  settings_required reserved_setting blank_setting bad_setting_port : Failure
  blank_proxy own_proxy unknown_proxy : Failure
  match_required unsupported_matcher bad_ports bad_network : Failure
  action_required unsupported_action target_required unknown_target target_forbidden : Failure
  unsupported_mode bad_version bad_obfs short_password ech_key_required : Failure
  bad_node_id empty_tag reserved_tag bad_route_id duplicate_route_id empty_address bad_port :
      Failure
  bad_cipher empty_password vless_required bad_uuid unsupported_network bad_tls_mode : Failure
  reality_unsupported tls_required auth_required bad_flow encryption_required bad_encryption :
      Failure
  reality_setting_required removed_setting vision_unsupported header_unsupported : Failure

-- `config.CertConfig`
pub record CertConfig : Type 0 where
  pub auto_tls : Bool
  pub domain : String
  pub cert_file : String
  pub key_file : String
  pub cert_dir : String
  pub cert_mode : String
  pub dns_provider : String
  pub cert_content : String
  pub key_content : String

pub record RelayVlessConfig : Type 0 where
  pub id : String
  pub network : String
  pub network_settings : Fields
  pub tls : ℕ
  pub flow : String
  pub encryption : String
  pub reality_settings : Fields
  pub transport_auth : String

pub record RelayChild : Type 0 where
  pub node_id : ℕ
  pub tag : String
  pub route_id : ℕ
  pub protocol : String
  pub address : String
  pub port : ℕ
  pub cipher : String
  pub password : String
  pub vless : Option RelayVlessConfig

pub record RelayConfig : Type 0 where
  pub mode : String
  pub route_id : ℕ
  pub children : List RelayChild
  pub protocol : String
  pub listen_port : ℕ
  pub cipher : String
  pub password : String
  pub vless : Option RelayVlessConfig

pub record OutboundConfig : Type 0 where
  pub tag : String
  pub protocol : String
  pub settings : Fields
  pub proxy_tag : String

pub record RouteMatch : Type 0 where
  pub domains : List String
  pub domain_suffixes : List String
  pub ip_cidrs : List String
  pub ports : List String
  pub networks : List String
  pub source_cidrs : List String
  pub source_ports : List String

pub record RouteAction : Type 0 where
  pub type : String
  pub target : String

pub record CustomRouteRule : Type 0 where
  pub name : String
  pub disabled : Bool
  pub matches : RouteMatch
  pub action : RouteAction

pub record NodeSpec : Type 0 where
  pub protocol : String
  pub listen_ip : String
  pub server_port : ℕ
  pub port_hopping : String
  pub network : String
  pub network_settings : Fields
  pub kernel_type : String
  pub kernel_log_level : String
  pub custom_outbounds : List OutboundConfig
  pub custom_route_rules : List CustomRouteRule
  pub cert_config : Option CertConfig
  pub auto_tls : Bool
  pub domain : String
  pub cipher : String
  pub tls : ℕ
  pub flow : String
  pub decryption : String
  -- `nil` where it is missing.
  pub tls_settings : Option Fields
  pub version : ℕ
  pub obfs : String
  pub obfs_password : String
  pub transport : String
  pub relay : Option RelayConfig

-- A field of the TLS settings; `nil` has none.
abbrev pub get_setting : String → Option Fields → Option Any
get_setting key none = none
get_setting key (some settings) = get key settings

-- `IsEntry` and `IsLanding`
abbrev pub has_mode : String → Option RelayConfig → Bool
has_mode mode none = false
has_mode mode (some r) = r.mode == mode

unfoldable pub is_relay_entry : NodeSpec → Bool
is_relay_entry n = has_mode "entry" n.relay

unfoldable pub is_relay_landing : NodeSpec → Bool
is_relay_landing n = has_mode "landing" n.relay

-- The tags of the children that have one.
abbrev pub child_tags : List RelayChild → List String
child_tags [] = []
child_tags (c ∷ cs) = let rest = child_tags cs in if c.tag == "" then rest else c.tag ∷ rest

abbrev pub children_of : Option RelayConfig → List RelayChild
children_of none = []
children_of (some r) = r.children

-- `RelayOutboundTags`
unfoldable pub relay_outbound_tags : NodeSpec → List String
unfolding is_relay_entry
relay_outbound_tags n = if is_relay_entry n then child_tags (children_of n.relay) else []

abbrev pub put_child : Dict String ℕ → RelayChild → Dict String ℕ
put_child out c = if not (c.tag == "") && ltb 0 c.node_id then insert c.tag c.node_id out else out

abbrev pub put_children : Dict String ℕ → List RelayChild → Dict String ℕ
put_children out [] = out
put_children out (c ∷ cs) = put_children (put_child out c) cs

-- `RelayNodeIDByTag`
unfoldable pub relay_node_id_by_tag : NodeSpec → Dict String ℕ
unfolding is_relay_entry
relay_node_id_by_tag n = if is_relay_entry n then put_children [] (children_of n.relay) else []

-- `strings.ToLower` is the parameter of the parts that use it.
module _ (to_lower : String → String) where
  -- `strings.ToLower(strings.TrimSpace(s))`
  abbrev pub key_of : String → String
  key_of s = to_lower (trim_space s)
