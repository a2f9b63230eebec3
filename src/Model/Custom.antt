-- ===== src/Model/Custom.antt =====
-- internal/model/custom_config_tags.go, custom_outbound_alias.go, custom_outbound_support.go and
-- custom_outbound_validate.go: the tags of the outbounds, and which custom outbounds are accepted.
use Prim.Native.Char.{code}
use Prim.Native.String.{String}
use package.text.Mathlib.Text.{starts_with}
use yzboard_node.Prelude.{
  ℕ, Bool, true, false, not, ◌&&◌, ◌||◌, Option, none, some, List, [], ◌∷◌, ◌++◌, map,
  if◌then◌else◌, ltb, nat_eq, ◌==◌, string_Eq, trim_space, one_of, two63, Outcome, ok, err, ◌>>=◌,
  ◌>>◌, reject,
}
use yzboard_node.Portset.{all_digits, value}
use yzboard_node.Model.{
  Any, text, whole, object, array, Fields, field, Elements, done, element, get, any_string, Failure,
  OutboundConfig, key_of, read_failed, parse_failed, duplicate_tag, tag_required, protocol_required,
  unsupported_protocol, unsupported_kernel, settings_required, reserved_setting, blank_setting,
  bad_setting_port, blank_proxy, own_proxy, unknown_proxy,
}

abbrev pub Check : Type 0
Check = Outcome Failure (Unit {0})

-- What `os.ReadFile` gives.
pub data FileRead : Type 0 where
  missing unreadable : FileRead
  contents : String → FileRead

-- The files of the host, and the two decoders, which give nothing for a text they refuse.
pub record Files : Type 0 where
  pub read_file : String → FileRead
  pub decode_json : String → Option Fields
  pub decode_yaml : String → Option Fields

-- `collectRawOutboundTagSources`, without the places that only a message names.
unfoldable pub collect_raw_tags : List Fields → List String
collect_raw_tags [] = []
collect_raw_tags (outbound ∷ rest) =
    let others = collect_raw_tags rest in
    let tag = trim_space (any_string (get "tag" outbound)) in
    if tag == "" then others else tag ∷ others

-- `toSliceOfMaps`, where no slice and an empty one come to the same.
unfoldable pub objects_of : Elements → List Fields
objects_of done = []
objects_of (element v vs) =
    let others = objects_of vs in elim v [ object fields ↦ fields ∷ others | _ ↦ others ]

abbrev pub to_slice_of_maps : Option Any → List Fields
to_slice_of_maps (some (array items)) = objects_of items
to_slice_of_maps other_value = []

abbrev pub decode : Files → String → Option Fields
decode files data_text =
    if starts_with (trim_space data_text) "{"
    then files.decode_json data_text
    else files.decode_yaml data_text

abbrev pub tags_of_config : Option Fields → Outcome Failure (List String)
tags_of_config none = err parse_failed
tags_of_config (some decoded) = ok (collect_raw_tags (to_slice_of_maps (get "outbounds" decoded)))

abbrev pub tags_of_file : Files → FileRead → Outcome Failure (List String)
tags_of_file files missing = ok []
tags_of_file files unreadable = err read_failed
tags_of_file files (contents data_text) =
    if trim_space data_text == "" then ok [] else tags_of_config (decode files data_text)

-- `collectCustomConfigOutboundTagSources`
unfoldable pub collect_config_tags : Files → String → Outcome Failure (List String)
collect_config_tags files path =
    if trim_space path == "" then ok [] else tags_of_file files (files.read_file path)

-- `collectAdditionalOutboundTagSources`, with `additionalTagNames` of its result.
unfoldable pub collect_additional_tags :
    Files → String → List Fields → Outcome Failure (List String)
collect_additional_tags files path raw_outbounds = do
  custom ← collect_config_tags files path
  ok (collect_raw_tags raw_outbounds ++ custom)

-- `strconv.Atoi`, with nothing for an error and for a text with a minus sign: the callers refuse both.
abbrev pub unsigned : String → String
unsigned String.[] = ""
unsigned (String.◌∷◌ c s) = if nat_eq (code c) b'+' then s else String.◌∷◌ c s

unfoldable pub atoi : String → Option ℕ
atoi s =
    let digits = unsigned s in
    if not (digits == "") && all_digits digits && ltb (value 0 digits) two63
    then some (value 0 digits)
    else none

abbrev pub in_range : ℕ → Option ℕ
in_range n = if ltb n 1 || ltb 65535 n then none else some n

abbrev pub port_in_range : Option ℕ → Option ℕ
port_in_range none = none
port_in_range (some n) = in_range n

-- `asPort`, with nothing for an error.
unfoldable pub as_port : Any → Option ℕ
unfolding atoi
as_port (whole n) = in_range n
as_port (text s) = port_in_range (atoi (trim_space s))
as_port other_value = none

abbrev pub has_any : List String → Fields → Bool
has_any [] settings = false
has_any (key ∷ keys) settings =
    let rest = has_any keys settings in elim (get key settings) [ none ↦ rest | some v ↦ true ]

-- The field is there and prints as blank: only a blank text does.
abbrev pub blank_value : Option Any → Bool
blank_value (some (text s)) = trim_space s == ""
blank_value other_value = false

abbrev pub any_blank : List String → Fields → Bool
any_blank [] settings = false
any_blank (key ∷ keys) settings = blank_value (get key settings) || any_blank keys settings

abbrev pub refused_port : Option Any → Bool
refused_port none = false
refused_port (some v) = elim (as_port v) [ none ↦ true | some port ↦ false ]

abbrev pub has_no_fields : Fields → Bool
has_no_fields Fields.end = true
has_no_fields (field key v rest) = false

-- `OutboundSupportMatrix`, the protocols.
unfoldable pub outbound_protocols : String → Option (List String)
outbound_protocols kernel_type =
    if kernel_type == "xray"
    then some (
        "vmess" ∷ "vless" ∷ "trojan" ∷ "shadowsocks" ∷ "socks" ∷ "http" ∷ "wireguard" ∷ "freedom"
        ∷ "direct" ∷ "blackhole" ∷ "block" ∷ [])
    else if kernel_type == "singbox"
    then some (
        "vmess" ∷ "vless" ∷ "trojan" ∷ "shadowsocks" ∷ "socks" ∷ "http" ∷ "wireguard" ∷ "tuic"
        ∷ "hysteria2" ∷ "anytls" ∷ "naive" ∷ "mieru" ∷ "freedom" ∷ "direct" ∷ "blackhole" ∷ "block"
        ∷ [])
    else none

module _ (to_lower : String → String) where
  -- `validateOutboundTagCollisions`: the loop over the additional tags.
  unfoldable pub seen_keys : List String → List String → Outcome Failure (List String)
  seen_keys seen [] = ok seen
  seen_keys seen (tag ∷ tags) =
      let key = key_of to_lower tag in
      let skipped = seen_keys seen tags in
      let added = seen_keys (key ∷ seen) tags in
      if key == "" then skipped else if one_of key seen then err duplicate_tag else added

  -- The loop over the outbounds.
  unfoldable pub structured_collisions : List String → List OutboundConfig → Check
  structured_collisions seen [] = ok tt
  structured_collisions seen (outbound ∷ rest) =
      let others = structured_collisions seen rest in
      let key = key_of to_lower outbound.tag in
      if not (key == "") && one_of key seen then err duplicate_tag else others

  -- `validateOutboundTagCollisions`
  unfoldable pub validate_tag_collisions : List OutboundConfig → List String → Check
  validate_tag_collisions structured additional = do
    seen ← seen_keys [] additional
    structured_collisions seen structured

  -- `IsDirectOutbound`
  unfoldable pub is_direct_outbound : String → Bool
  is_direct_outbound protocol = one_of (key_of to_lower protocol) ("freedom" ∷ "direct" ∷ [])

  -- `IsBlockOutbound`
  unfoldable pub is_block_outbound : String → Bool
  is_block_outbound protocol = one_of (key_of to_lower protocol) ("blackhole" ∷ "block" ∷ [])

  -- `OutboundNeedsSettings`
  unfoldable pub outbound_needs_settings : String → Bool
  outbound_needs_settings protocol =
      not (is_direct_outbound protocol) && not (is_block_outbound protocol)

  -- `validateOutboundSettings`
  unfoldable pub validate_outbound_settings : String → Fields → Check
  validate_outbound_settings protocol settings =
      if has_no_fields settings
      then reject (outbound_needs_settings protocol) settings_required
      else (do
        reject (has_any ("tag" ∷ "protocol" ∷ "proxy_tag" ∷ "proxyTag" ∷ []) settings)
            reserved_setting
        reject
            (any_blank
              ("server" ∷ "uuid" ∷ "password" ∷ "method" ∷ "cipher" ∷ "private_key" ∷ "secret_key"
                ∷ "privateKey" ∷ "secretKey" ∷ [])
              settings)
            blank_setting
        reject (refused_port (get "server_port" settings)) bad_setting_port
        reject (refused_port (get "serverPort" settings)) bad_setting_port)

  -- The keys of the tags that have one.
  abbrev pub tag_keys : List String → List String
  tag_keys [] = []
  tag_keys (tag ∷ tags) =
      let rest = tag_keys tags in
      let key = key_of to_lower tag in if key == "" then rest else key ∷ rest

  abbrev pub protocol_allowed : Option (List String) → String → Bool
  protocol_allowed none protocol = true
  protocol_allowed (some protocols) protocol = one_of protocol (map to_lower protocols)

  -- The first loop of `ValidateCustomOutboundsForKernel`: the keys of the outbounds.
  unfoldable pub outbound_keys :
      Option (List String) → List String → List OutboundConfig → Outcome Failure (List String)
  outbound_keys allowed seen [] = ok seen
  outbound_keys allowed seen (outbound ∷ rest) =
      let tag = trim_space outbound.tag in
      let protocol = key_of to_lower outbound.protocol in
      let key = to_lower tag in
      let others = outbound_keys allowed (key ∷ seen) rest in
      (do
        reject (tag == "") tag_required
        reject (protocol == "") protocol_required
        reject (not (protocol_allowed allowed protocol)) unsupported_protocol
        validate_outbound_settings protocol outbound.settings
        reject (one_of key seen) duplicate_tag
        others)

  -- The second loop.
  unfoldable pub validate_proxies : List String → List OutboundConfig → Check
  validate_proxies available [] = ok tt
  validate_proxies available (outbound ∷ rest) =
      let others = validate_proxies available rest in
      let proxy = key_of to_lower outbound.proxy_tag in
      if outbound.proxy_tag == "" then others else (do
        reject (proxy == "") blank_proxy
        reject (proxy == key_of to_lower outbound.tag) own_proxy
        reject (not (one_of proxy available)) unknown_proxy
        others)

  abbrev pub validate_outbounds_with :
      Option (List String) → List OutboundConfig → List String → Check
  validate_outbounds_with allowed outbounds additional = do
    keys ← outbound_keys allowed [] outbounds
    validate_proxies (keys ++ ("direct" ∷ "block" ∷ tag_keys additional)) outbounds

  abbrev pub with_protocols {ℓ} :
      {A : Type ℓ}
      → Option (List String)
      → (Option (List String) → Outcome Failure A)
      → Outcome Failure A
  with_protocols none next = err unsupported_kernel
  with_protocols (some protocols) next = next (some protocols)

  -- `ValidateCustomOutboundsForKernel`
  unfoldable pub validate_outbounds : List OutboundConfig → String → List String → Check
  validate_outbounds [] kernel_type additional = ok tt
  validate_outbounds (outbound ∷ rest) kernel_type additional =
      let kernel = key_of to_lower kernel_type in
      if kernel == ""
      then validate_outbounds_with none (outbound ∷ rest) additional
      else with_protocols (outbound_protocols kernel)
          (λ allowed. validate_outbounds_with allowed (outbound ∷ rest) additional)
