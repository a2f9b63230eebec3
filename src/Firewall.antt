-- ===== src/Firewall.antt =====
-- internal/firewall/plan.go: the rules that a node's listeners and redirects need, and their union over
-- the nodes. Families, ports and versions are natural numbers.
pub mod Combine
pub mod Merged
pub mod Conflict
pub mod Manager
pub mod Owned
pub mod Tests
use Prim.Native.String.{String}
use mathlib.Core.List.{foldl}
use yzboard_node.Prelude.{
  Outcome, err, ok, ◌>>=◌, ℕ, ◌≡◌, Bool, true, false, not, ◌&&◌, ◌||◌, Option, none, some, List, [],
  ◌∷◌, ◌++◌, map, if◌then◌else◌, ltb, leb, Dict, ◌==◌, nat_Eq, string_Eq, trim_space, trim_brackets,
  lower_is,
}
use yzboard_node.Model.{NodeSpec, RelayConfig, is_relay_landing}
use yzboard_node.Portset
use yzboard_node.Portset.{Range}

-- An empty address is every address of the family.
pub record Rule : Type 0 where
  pub family : ℕ
  pub address : String
  pub protocol : String
  pub ports : Range
  pub target : ℕ

pub record Plan : Type 0 where
  pub listeners : List Rule
  pub redirects : List Rule

-- The package net/netip, as far as the code calls it.
pub record Netip : Type 1 where
  pub Addr : Type 0
  pub parse_addr : String → Option Addr
  pub is_unspecified : Addr → Bool
  pub is4 : Addr → Bool
  pub zone : Addr → String
  pub unmap : Addr → Addr
  pub to_string : Addr → String

pub data Error : Type 0 where
  bad_listen_port bad_listen_ip unsupported_protocol unsupported_hopping : Error
  bad_hopping : Portset.Error → Error
  conflict : Error

abbrev pub Result {ℓ} : Type ℓ → Type ℓ
Result A = Outcome Error A

abbrev pub lift_ports : Portset.Result (List Range) → Result (List Range)
lift_ports (ok rs) = ok rs
lift_ports (err e) = err (bad_hopping e)

-- `listenerProtocols`
unfoldable pub listener_protocols : NodeSpec → String → Result (List String)
listener_protocols node kernel_type =
    let p = node.protocol in
    if p == "hysteria" || p == "tuic"
    then ok ("udp" ∷ [])
    else if p == "shadowsocks" || p == "naive"
    then ok ("tcp" ∷ "udp" ∷ [])
    else if p == "socks"
    then (if kernel_type == "xray" then ok ("tcp" ∷ "udp" ∷ []) else ok ("tcp" ∷ []))
    else if p == "http" || p == "anytls"
    then ok ("tcp" ∷ [])
    else if p == "mieru"
    then (if lower_is node.transport "udp" then ok ("udp" ∷ []) else ok ("tcp" ∷ []))
    else if p == "vmess" || p == "vless" || p == "trojan"
    then (if lower_is node.network "kcp"
          || lower_is node.network "mkcp"
          || lower_is node.network "quic"
          || lower_is node.network "hysteria"
        then ok ("udp" ∷ [])
        else ok ("tcp" ∷ []))
    else err unsupported_protocol

-- A rule that only has its address yet.
abbrev pub at_address : ℕ → String → Rule
at_address family address = record {
  family = family;
  address = address;
  protocol = "";
  ports = record { from = 0; to = 0 };
  target = 0;
}

-- `rule.Protocol = protocol; rule.Ports = …`, for each protocol.
abbrev pub listeners_at : ℕ → Rule → List String → List Rule
listeners_at port address [] = []
listeners_at port address (protocol ∷ protocols) =
    record address { protocol = protocol; ports = record { from = port; to = port } }
    ∷ listeners_at port address protocols

abbrev pub listeners_for : ℕ → List Rule → List String → List Rule
listeners_for port [] protocols = []
listeners_for port (address ∷ addresses) protocols =
    listeners_at port address protocols ++ listeners_for port addresses protocols

abbrev pub redirects_at : ℕ → Rule → List Range → List Rule
redirects_at port address [] = []
redirects_at port address (ports ∷ rest) =
    record address { protocol = "udp"; ports = ports; target = port }
    ∷ redirects_at port address rest

abbrev pub redirects_for : ℕ → List Rule → List Range → List Rule
redirects_for port [] ports = []
redirects_for port (address ∷ addresses) ports =
    redirects_at port address (Portset.without ports port) ++ redirects_for port addresses ports

-- The node that `PlanForNode` plans for: a landing node listens for the transit protocol.
abbrev pub effective_relay : Option RelayConfig → NodeSpec → NodeSpec
effective_relay none n = n
effective_relay (some r) n = record n {
  protocol = r.protocol;
  server_port = if not (r.listen_port == 0) then r.listen_port else n.server_port;
}

unfoldable pub effective_node : NodeSpec → NodeSpec
effective_node n = if is_relay_landing n then effective_relay n.relay n else n

module _ (ip : Netip) where
  open ip use {Addr, parse_addr, is_unspecified, is4, zone, unmap, to_string}

  -- The address of a rule, in `Rule.valid`.
  abbrev pub valid_addr : ℕ → Option Addr → Bool
  valid_addr family none = false
  valid_addr family (some a) =
      not (is_unspecified a) && (if is4 a then family == 4 else not (family == 4))

  abbrev pub known_family : ℕ → Bool
  known_family family = family == 4 || family == 6

  abbrev pub known_protocol : String → Bool
  known_protocol protocol = protocol == "tcp" || protocol == "udp"

  -- `Rule.valid`
  unfoldable pub valid : Rule → Bool
  valid r =
      if not (known_family r.family)
        || not (Portset.valid r.ports)
        || not (known_protocol r.protocol)
        || ltb 65535 r.target
      then false
      else if not (r.target == 0) && not (r.protocol == "udp")
      then false
      else if not (r.address == "")
      then valid_addr r.family (parse_addr r.address)
      else true

  -- The address behind `Unmap`.
  abbrev pub address_rule : Addr → Rule
  address_rule a =
      at_address (if is4 a then 4 else 6) (if is_unspecified a then "" else to_string a)

  abbrev pub parsed_address : Option Addr → Result (List Rule)
  parsed_address none = err bad_listen_ip
  parsed_address (some a) =
      if not (zone a == "") then err bad_listen_ip else ok (address_rule (unmap a) ∷ [])

  -- `listenerAddresses`
  unfoldable pub listener_addresses : String → Result (List Rule)
  listener_addresses raw =
      let s = trim_space raw in
      if s == "" || s == "::" || s == "[::]"
      then ok (at_address 4 "" ∷ at_address 6 "" ∷ [])
      else parsed_address (parse_addr (trim_brackets s))

  -- The redirects of `PlanForNode`, for a node that asks for port hopping.
  unfoldable pub plan_redirects : NodeSpec → List Rule → Result (List Rule)
  plan_redirects node addresses =
      if not (node.protocol == "hysteria") || not (node.version == 2) || is_relay_landing node
      then err unsupported_hopping
      else (do
        ports ← lift_ports (Portset.parse node.port_hopping)
        ok (redirects_for node.server_port addresses ports))

  unfoldable pub plan_effective : NodeSpec → String → Result Plan
  plan_effective node kernel_type =
      if ltb node.server_port 1 || ltb 65535 node.server_port then err bad_listen_port else (do
        addresses ← listener_addresses node.listen_ip
        protocols ← listener_protocols node kernel_type
        let listeners = listeners_for node.server_port addresses protocols
        (if trim_space node.port_hopping == ""
            then ok (record { listeners = listeners; redirects = [] })
            else (plan_redirects node addresses >>= λ redirects.
                ok (record { listeners = listeners; redirects = redirects }))))

  -- `PlanForNode`
  unfoldable pub plan_for_node : Option NodeSpec → String → Result Plan
  unfolding effective_node plan_effective
  plan_for_node none kernel_type = ok (record { listeners = []; redirects = [] })
  plan_for_node (some node) kernel_type = plan_effective (effective_node node) kernel_type
