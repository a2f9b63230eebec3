-- ===== src/Model/Relay.antt =====
-- internal/model/relay_validate.go: which relay topologies are accepted. With `UsesSS2022` of
-- internal/model/types.go.
use Prim.Native.Nat.{◌/◌, ◌%◌}
use Prim.Native.String.{String, len}
use package.text.Mathlib.Text.{starts_with}
use yzboard_node.Prelude.{
  ℕ, ◌*◌, Bool, true, false, not, ◌&&◌, ◌||◌, Option, none, some, List, [], ◌∷◌, if◌then◌else◌, ltb,
  leb, nat_eq, ◌==◌, nat_Eq, string_Eq, trim_space, equal_fold, split, one_of, without_char,
  all_chars, is_digit, is_hex_digit, cut_last, Outcome, ok, err, ◌>>◌, reject,
}
use yzboard_node.Model.{
  Any, text, truth, object, Fields, get, any_string, get_setting, Failure, RelayVlessConfig,
  RelayChild, RelayConfig, NodeSpec, key_of, unsupported_kernel, unsupported_mode,
  unsupported_protocol, bad_version, bad_obfs, short_password, ech_key_required, bad_node_id,
  empty_tag, reserved_tag, duplicate_tag, bad_route_id, duplicate_route_id, empty_address, bad_port,
  bad_cipher, empty_password, vless_required, bad_uuid, unsupported_network, bad_tls_mode,
  reality_unsupported, tls_required, auth_required, bad_flow, encryption_required, bad_encryption,
  reality_setting_required, removed_setting, vision_unsupported, header_unsupported,
}

abbrev pub Check : Type 0
Check = Outcome Failure (Unit {0})

-- `validateRouteID`
unfoldable pub validate_route_id : ℕ → Check
validate_route_id id = reject (ltb id 1 || ltb 65535 id) bad_route_id

-- A text in unpadded base64 for URLs, as `base64.RawURLEncoding` reads it: how many bytes it stands for,
-- if it is one. Line breaks are skipped.
abbrev pub is_base64 : ℕ → Bool
is_base64 n =
    is_digit n
    || (leb b'a' n && leb n b'z')
    || (leb b'A' n && leb n b'Z')
    || nat_eq n b'-'
    || nat_eq n b'_'

unfoldable pub decoded_length : String → Option ℕ
decoded_length s =
    let body = without_char 10 (without_char 13 s) in
    if all_chars is_base64 body && not (nat_eq (len body % 4) 1)
    then some (len body * 3 / 4)
    else none

abbrev pub is_empty : String → Bool
is_empty s = s == ""

-- One or two runs of digits.
abbrev pub are_seconds : List String → Bool
are_seconds [] = false
are_seconds (a ∷ []) = not (is_empty a) && all_chars is_digit a
are_seconds (a ∷ b ∷ []) =
    not (is_empty a) && all_chars is_digit a && (not (is_empty b) && all_chars is_digit b)
are_seconds (a ∷ b ∷ c ∷ rest) = false

-- `validVLESSSeconds`
unfoldable pub valid_vless_seconds : String → Bool
valid_vless_seconds value = elim (cut_last b's' value) [
  | none ↦ false
  | some front ↦ are_seconds (split b'-' front)
]

abbrev pub key_length_ok : Bool → ℕ → Bool
key_length_ok decryption n =
    if decryption then nat_eq n 32 || nat_eq n 64 else nat_eq n 32 || nat_eq n 1184

-- The loop over the parts behind the third: short ones are padding, the others keys.
unfoldable pub valid_keys : Bool → Bool → List String → Bool
valid_keys decryption has_key [] = has_key
valid_keys decryption has_key (part ∷ parts) =
    let short = ltb (len part) 20 in
    let rest = valid_keys decryption (if short then has_key else true) parts in
    if short
    then rest
    else elim (decoded_length part) [ none ↦ false | some n ↦ key_length_ok decryption n && rest ]

abbrev pub valid_parts : Bool → List String → Bool
valid_parts decryption (suite ∷ mode ∷ time ∷ key ∷ keys) =
    if not (suite == "mlkem768x25519plus")
      || not (one_of mode ("native" ∷ "xorpub" ∷ "random" ∷ []))
    then false
    else if not
        (if decryption then valid_vless_seconds time else one_of time ("0rtt" ∷ "1rtt" ∷ []))
    then false
    else valid_keys decryption false (key ∷ keys)
valid_parts decryption fewer = false

-- `validVLESSEncryption`
unfoldable pub valid_vless_encryption : String → Bool → Bool
valid_vless_encryption value decryption = valid_parts decryption (split b'.' (trim_space value))

-- `validRelayUUID`
unfoldable pub valid_relay_uuid : String → Bool
valid_relay_uuid value =
    let raw = without_char b'-' (trim_space value) in
    nat_eq (len raw) 32 && all_chars is_hex_digit raw

abbrev pub is_blank : String → Bool
is_blank s = is_empty (trim_space s)

-- A missing key, or a value that is no text or a blank one.
abbrev pub lacks : String → Fields → Bool
lacks key settings = is_blank (any_string (get key settings))

abbrev pub has : String → Fields → Bool
has key settings = elim (get key settings) [ none ↦ false | some v ↦ true ]

module _ (to_lower : String → String) where
  -- `IsRelayTransitCipher`
  unfoldable pub is_relay_transit_cipher : String → Bool
  is_relay_transit_cipher cipher = one_of (key_of to_lower cipher) (
      "2022-blake3-aes-128-gcm" ∷ "2022-blake3-aes-256-gcm" ∷ "2022-blake3-chacha20-poly1305"
      ∷ "aes-128-gcm" ∷ "aes-192-gcm" ∷ "aes-256-gcm" ∷ "chacha20-ietf-poly1305"
      ∷ "xchacha20-ietf-poly1305" ∷ [])

  -- `IsRelaySS2022Cipher`
  unfoldable pub is_relay_ss2022_cipher : String → Bool
  is_relay_ss2022_cipher cipher = starts_with (key_of to_lower cipher) "2022-blake3-"

  -- `NormalizeRelayVLESSNetwork`
  unfoldable pub normalize_relay_vless_network : String → Option String
  normalize_relay_vless_network network =
      let n = key_of to_lower network in
      if one_of n ("tcp" ∷ "raw" ∷ [])
      then some "tcp"
      else if one_of n ("ws" ∷ "websocket" ∷ [])
      then some "ws"
      else if n == "grpc"
      then some "grpc"
      else if one_of n ("xhttp" ∷ "splithttp" ∷ [])
      then some "xhttp"
      else if n == "httpupgrade"
      then some "httpupgrade"
      else if one_of n ("kcp" ∷ "mkcp" ∷ [])
      then some "kcp"
      else if n == "hysteria"
      then some "hysteria"
      else none

  abbrev pub or_tcp : Bool → String → String
  or_tcp missing network = if missing then "tcp" else network

  abbrev pub reality_network : String → Bool
  reality_network n = one_of n ("tcp" ∷ "xhttp" ∷ "grpc" ∷ [])

  -- The header type asks for camouflage.
  abbrev pub camouflaged : Option Any → Bool
  camouflaged (some (object header)) =
      let value = any_string (get "type" header) in not (is_empty value) && not (value == "none")
  camouflaged other_value = false

  abbrev pub or_empty : Option String → String
  or_empty none = ""
  or_empty (some s) = s

  -- `validateSingBoxRelayVLESS`
  unfoldable pub validate_singbox_relay_vless : String → String → String → ℕ → Fields → Check
  validate_singbox_relay_vless network flow encryption tls settings = do
    let n = or_empty (normalize_relay_vless_network (or_tcp (is_empty network) network))
    reject (not (one_of n ("tcp" ∷ "ws" ∷ "grpc" ∷ "httpupgrade" ∷ []))) unsupported_network
    reject (not (is_empty encryption) && not (encryption == "none")) bad_encryption
    reject (flow == "xtls-rprx-vision" && (not (n == "tcp") || nat_eq tls 0)) vision_unsupported
    reject (n == "tcp" && camouflaged (get "header" settings)) header_unsupported

  -- What `validateRelayVLESS` checks once the transport is known.
  abbrev pub check_vless : RelayVlessConfig → String → Check
  check_vless v network = do
    reject (ltb 2 v.tls) bad_tls_mode
    reject (nat_eq v.tls 2 && not (reality_network network)) reality_unsupported
    reject (network == "hysteria" && not (nat_eq v.tls 1)) tls_required
    reject (network == "hysteria" && is_blank v.transport_auth) auth_required
    reject (not (is_empty v.flow) && not (v.flow == "xtls-rprx-vision")) bad_flow
    let encryption = trim_space v.encryption
    reject (is_empty encryption) encryption_required
    reject (not (encryption == "none") && not (valid_vless_encryption encryption false))
        bad_encryption
    reject
        (nat_eq v.tls 2
          && (lacks "server_name" v.reality_settings
              || lacks "public_key" v.reality_settings
              || lacks "fingerprint" v.reality_settings))
        reality_setting_required
    reject (network == "kcp" && (has "header" v.network_settings || has "seed" v.network_settings))
        removed_setting

  abbrev pub with_network {ℓ} :
      {A : Type ℓ} → Option String → (String → Outcome Failure A) → Outcome Failure A
  with_network none check = err unsupported_network
  with_network (some n) check = check n

  -- `validateRelayVLESS`
  unfoldable pub validate_relay_vless : Option RelayVlessConfig → Check
  validate_relay_vless none = err vless_required
  validate_relay_vless (some v) = do
    reject (not (valid_relay_uuid v.id)) bad_uuid
    with_network (normalize_relay_vless_network (or_tcp (is_blank v.network) v.network))
        (check_vless v)

  abbrev pub check_entry_vless : NodeSpec → String → Check
  check_entry_vless n network = do
    reject (ltb 2 n.tls) bad_tls_mode
    reject (nat_eq n.tls 2 && not (reality_network network)) reality_unsupported
    reject (network == "hysteria" && not (nat_eq n.tls 1)) tls_required
    reject (not (is_empty n.flow) && not (n.flow == "xtls-rprx-vision")) bad_flow

  -- `validateRelayEntryVLESS`
  unfoldable pub validate_relay_entry_vless : NodeSpec → Check
  validate_relay_entry_vless n =
      with_network (normalize_relay_vless_network (or_tcp (is_blank n.network) n.network))
        (check_entry_vless n)

  -- ECH is switched on, and has neither a key nor a path of one.
  abbrev pub keyless_ech : Option Any → Bool
  keyless_ech (some (object ech)) = elim (get "enabled" ech) [
    | some (truth true) ↦ lacks "key" ech && lacks "key_path" ech
    | _ ↦ false
  ]
  keyless_ech other_value = false

  -- The inbound of an entry.
  abbrev pub validate_inbound : NodeSpec → String → Check
  validate_inbound n kernel_type =
      let protocol = key_of to_lower n.protocol in
      if protocol == "vless"
      then (do
        validate_relay_entry_vless n
        if kernel_type == "singbox"
            then validate_singbox_relay_vless n.network n.flow n.decryption n.tls n.network_settings
            else ok tt)
      else if protocol == "hysteria"
      then (do
        reject (not (nat_eq n.version 2)) bad_version
        reject (not (is_empty n.obfs) && not (n.obfs == "salamander")) bad_obfs
        reject (n.obfs == "salamander" && ltb (len n.obfs_password) 4) short_password
        reject (keyless_ech (get_setting "ech" n.tls_settings)) ech_key_required)
      else err unsupported_protocol

  abbrev pub singbox_child : Option RelayVlessConfig → Check
  singbox_child none = err vless_required
  singbox_child (some v) =
      validate_singbox_relay_vless v.network v.flow v.encryption v.tls v.network_settings

  -- The link of an entry to a child.
  unfoldable pub validate_transit : RelayChild → String → Check
  validate_transit child kernel_type =
      let protocol = key_of to_lower child.protocol in
      if protocol == "shadowsocks"
      then (do
        reject (not (is_relay_transit_cipher child.cipher)) bad_cipher
        reject (is_blank child.password) empty_password)
      else if protocol == "vless"
      then (do
        validate_relay_vless child.vless
        if kernel_type == "singbox" then singbox_child child.vless else ok tt)
      else err unsupported_protocol

  abbrev pub seen_route : ℕ → List ℕ → Bool
  seen_route id [] = false
  seen_route id (r ∷ rs) = nat_eq r id || seen_route id rs

  -- One round of the loop over the children, with what the rounds before have seen.
  unfoldable pub validate_child : String → List String → List String → List ℕ → RelayChild → Check
  validate_child kernel_type available seen_tags seen_routes child = do
    reject (nat_eq child.node_id 0) bad_node_id
    let tag = key_of to_lower child.tag
    reject (is_empty tag) empty_tag
    reject (tag == "direct" || tag == "block") reserved_tag
    reject (one_of tag seen_tags) duplicate_tag
    reject (one_of tag available) duplicate_tag
    validate_route_id child.route_id
    reject (seen_route child.route_id seen_routes) duplicate_route_id
    reject (is_blank child.address) empty_address
    reject (nat_eq child.port 0 || ltb 65535 child.port) bad_port
    validate_transit child kernel_type

  unfoldable pub validate_children :
      String → List String → List String → List ℕ → List RelayChild → Check
  validate_children kernel_type available seen_tags seen_routes [] = ok tt
  validate_children kernel_type available seen_tags seen_routes (child ∷ children) =
      let rest =
        validate_children kernel_type available (key_of to_lower child.tag ∷ seen_tags)
          (child.route_id ∷ seen_routes) children in
      (do validate_child kernel_type available seen_tags seen_routes child; rest)

  abbrev pub known_kernel : String → Bool
  known_kernel kernel_type = kernel_type == "xray" || kernel_type == "singbox"

  -- `validateRelayEntry`
  unfoldable pub validate_relay_entry : NodeSpec → RelayConfig → String → List String → Check
  validate_relay_entry n r kernel_type available = do
    reject (not (known_kernel kernel_type)) unsupported_kernel
    validate_inbound n kernel_type
    validate_route_id r.route_id
    validate_children kernel_type available [] (r.route_id ∷ []) r.children

  abbrev pub link_id : Option RelayVlessConfig → String
  link_id none = ""
  link_id (some v) = v.id

  abbrev pub link_auth : Option RelayVlessConfig → String
  link_auth none = ""
  link_auth (some v) = v.transport_auth

  -- The settings that the server side of Reality stands for.
  abbrev pub server_side : Fields
  server_side = Fields.field "server_name" (text "server-side") (
      Fields.field "public_key" (text "server-side")
        (Fields.field "fingerprint" (text "chrome") Fields.end))

  abbrev pub landing_vless : NodeSpec → RelayConfig → RelayVlessConfig
  landing_vless n r = record {
    id = link_id r.vless;
    network = n.network;
    network_settings = n.network_settings;
    tls = n.tls;
    flow = n.flow;
    encryption = "none";
    reality_settings = if nat_eq n.tls 2 then server_side else Fields.end;
    transport_auth = link_auth r.vless;
  }

  abbrev pub or_none : String → String
  or_none decryption = if is_empty decryption then "none" else decryption

  -- `validateRelayLanding`
  unfoldable pub validate_relay_landing : NodeSpec → RelayConfig → String → Check
  validate_relay_landing n r kernel_type = do
    reject (not (known_kernel kernel_type)) unsupported_kernel
    let port = if nat_eq r.listen_port 0 then n.server_port else r.listen_port
    reject (nat_eq port 0 || ltb 65535 port) bad_port
    let protocol = key_of to_lower r.protocol
    if protocol == "shadowsocks"
        then (do
          reject (not (is_relay_transit_cipher r.cipher)) bad_cipher
          reject (is_blank r.password) empty_password)
        else if protocol == "vless"
        then (do
          validate_relay_vless (some (landing_vless n r))
          let decryption = or_none (trim_space n.decryption)
          reject (not (decryption == "none") && not (valid_vless_encryption decryption true))
              bad_encryption
          if kernel_type == "singbox"
              then validate_singbox_relay_vless n.network n.flow decryption n.tls n.network_settings
              else ok tt)
        else err unsupported_protocol

  abbrev pub validate_mode : NodeSpec → Option RelayConfig → String → List String → Check
  validate_mode n none kernel_type available = ok tt
  validate_mode n (some r) kernel_type available =
      if is_empty r.mode
      then ok tt
      else if r.mode == "entry"
      then validate_relay_entry n r kernel_type available
      else if r.mode == "landing"
      then validate_relay_landing n r kernel_type
      else err unsupported_mode

  -- `validateRelay`
  unfoldable pub validate_relay : NodeSpec → String → List String → Check
  validate_relay n kernel_type available = validate_mode n n.relay kernel_type available

  -- The protocol of a relay link is Shadowsocks, with a cipher of the 2022 edition.
  abbrev pub is_ss2022_link : String → String → Bool
  is_ss2022_link protocol cipher =
      equal_fold (trim_space protocol) "shadowsocks" && is_relay_ss2022_cipher cipher

  abbrev pub any_ss2022 : List RelayChild → Bool
  any_ss2022 [] = false
  any_ss2022 (c ∷ cs) = is_ss2022_link c.protocol c.cipher || any_ss2022 cs

  abbrev pub relay_uses_ss2022 : Option RelayConfig → Bool
  relay_uses_ss2022 none = false
  relay_uses_ss2022 (some r) =
      if r.mode == "landing"
      then is_ss2022_link r.protocol r.cipher
      else if not (r.mode == "entry")
      then false
      else any_ss2022 r.children

  -- `UsesSS2022`, on a configuration that is not `nil`.
  unfoldable pub uses_ss2022 : NodeSpec → Bool
  uses_ss2022 n =
      if one_of (key_of to_lower n.protocol) ("shadowsocks" ∷ "ss" ∷ [])
        && is_relay_ss2022_cipher n.cipher
      then true
      else relay_uses_ss2022 n.relay
