-- ===== src/Model/Tests.antt =====
-- Concrete nodes for internal/model.
use Prim.Native.String.{String}
use yzboard_node.Prelude.{ℕ, ◌≡◌, ◌≤◌, ◌<◌, refl, false, none, some, [], ◌∷◌, ok, trim_space}
use yzboard_node.Model.{
  get, NodeSpec, RelayChild, RelayConfig, text, object, array, element, done, end, field,
}
use yzboard_node.Model.Custom.{
  Files, contents, collect_additional_tags, collect_config_tags, collect_raw_tags, objects_of,
}
use yzboard_node.Model.Relay
use yzboard_node.Model.Validate.{validate_transport_kernel, resolve_kernel_for_transport}
use yzboard_node.Model.Accepted.{
  ArePlaced, validate_relay_entry-ArePlaced, validate_transport_kernel-resolve,
}

-- Texts without capitals.
abbrev as_is : String → String
as_is s = s

abbrev child : ℕ → String → ℕ → RelayChild
child node_id tag route_id = record {
  node_id = node_id;
  tag = tag;
  route_id = route_id;
  protocol = "shadowsocks";
  address = "192.0.2.1";
  port = 8388;
  cipher = "2022-blake3-aes-128-gcm";
  password = "p";
  vless = none;
}

abbrev relay : RelayConfig
relay = record {
  mode = "entry";
  route_id = 10;
  children = child 7 "hk" 11 ∷ child 8 "jp" 12 ∷ [];
  protocol = "";
  listen_port = 0;
  cipher = "";
  password = "";
  vless = none;
}

abbrev entry : NodeSpec
entry = record {
  protocol = "hysteria";
  listen_ip = "";
  server_port = 443;
  port_hopping = "";
  network = "";
  network_settings = end;
  kernel_type = "singbox";
  kernel_log_level = "";
  custom_outbounds = [];
  custom_route_rules = [];
  cert_config = none;
  auto_tls = false;
  domain = "";
  cipher = "";
  tls = 1;
  flow = "";
  decryption = "";
  tls_settings = none;
  version = 2;
  obfs = "";
  obfs_password = "";
  transport = "";
  relay = some relay;
}

entry_accepted :
    Relay.validate_relay_entry as_is entry relay "singbox" ("direct" ∷ "block" ∷ []) ≡ ok tt
unfolding Relay.validate_relay_entry Relay.validate_route_id Relay.validate_children
    Relay.validate_child Relay.validate_transit Relay.is_relay_transit_cipher trim_space
entry_accepted = refl

validate_relay_entry-ArePlaced_example :
    (0 < 10) × (10 ≤ 65535) × ArePlaced as_is ("direct" ∷ "block" ∷ []) [] (10 ∷ []) relay.children
validate_relay_entry-ArePlaced_example =
    validate_relay_entry-ArePlaced as_is entry relay "singbox" ("direct" ∷ "block" ∷ [])
      entry_accepted

validate_transport_kernel-resolve_example :
    validate_transport_kernel as_is "xhttp" (resolve_kernel_for_transport as_is "xhttp" "singbox")
    ≡ ok tt
validate_transport_kernel-resolve_example =
    validate_transport_kernel-resolve as_is "xhttp" "singbox"

-- A file with one outbound that has a tag and one that has none.
abbrev files : Files
files = record {
  read_file = λ path. contents "{}";
  decode_json = λ s. some (
      field "outbounds"
        (array (element (object (field "tag" (text " warp ") end)) (element (object end) done)))
        end);
  decode_yaml = λ s. none;
}

tags_of_file :
    collect_additional_tags files "config.json" (field "tag" (text "proxy") end ∷ [])
    ≡ ok ("proxy" ∷ "warp" ∷ [])
unfolding collect_additional_tags collect_config_tags collect_raw_tags objects_of trim_space get
tags_of_file = refl
