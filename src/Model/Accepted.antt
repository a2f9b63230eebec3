-- ===== src/Model/Accepted.antt =====
-- What an accepted relay entry is like, and the kernel that a transport is given.
use Prim.Native.String.{String}
use yzboard_node.Prelude.{
  ℕ, ◌≡◌, ◌≤◌, ◌<◌, refl, false, not, ◌&&◌, ◌||◌, List, [], ◌∷◌, ltb, nat_eq, ◌==◌, string_Eq,
  one_of, arith, ok, reject_ok, reject_pass, then_ok, Bool-cases, inl, inr,
}
use yzboard_node.Model.{NodeSpec, RelayChild, RelayConfig, key_of}
use yzboard_node.Model.Relay.{
  validate_route_id, validate_child, validate_children, validate_relay_entry, validate_inbound,
  seen_route, known_kernel, is_blank,
}
use yzboard_node.Model.Validate.{
  validate_transport_kernel, resolve_kernel_for_transport, singbox_unsupported,
}

pub record IsPlaced (to_lower : String → String) (tags : List String) (routes : List ℕ)
    (c : RelayChild) : Type 0 where
  -- The child is a node, at a port, and its tag is neither empty nor one of the built-in outbounds.
  pub node : 0 < c.node_id
  pub port_low : 0 < c.port
  pub port_high : c.port ≤ 65535
  pub route_low : 0 < c.route_id
  pub route_high : c.route_id ≤ 65535
  pub reserved : one_of (key_of to_lower c.tag) ("direct" ∷ "block" ∷ []) ≡ false
  pub tagged : (key_of to_lower c.tag == "") ≡ false
  -- No other outbound has its tag, and no other inbound its route.
  pub fresh_tag : one_of (key_of to_lower c.tag) tags ≡ false
  pub fresh_route : seen_route to_lower c.route_id routes ≡ false

module _ (to_lower : String → String) where
  -- Each child is placed, beside the children before it and the outbounds that were there.
  pub data ArePlaced (available : List String)
      : List String → List ℕ → List RelayChild → Type 0 where
    all_placed : (tags : List String) (routes : List ℕ) → ArePlaced available tags routes []
    placed :
        (tags : List String) (routes : List ℕ) (c : RelayChild) (cs : List RelayChild)
        → IsPlaced to_lower tags routes c
        → one_of (key_of to_lower c.tag) available ≡ false
        → ArePlaced available (key_of to_lower c.tag ∷ tags) (c.route_id ∷ routes) cs
        → ArePlaced available tags routes (c ∷ cs)

  route_in_range : (id : ℕ) (x : Unit {0}) → validate_route_id id ≡ ok x → (0 < id) × (id ≤ 65535)
  unfolding validate_route_id
  route_in_range id x e = let p = reject_pass (ltb id 1 || ltb 65535 id) _ x e in ground (arith, p)

  validate_child-IsPlaced :
      (kernel_type : String) (available tags : List String) (routes : List ℕ) (c : RelayChild)
      (x : Unit {0})
      → validate_child to_lower kernel_type available tags routes c ≡ ok x
      → IsPlaced to_lower tags routes c × (one_of (key_of to_lower c.tag) available ≡ false)
  unfolding validate_child
  validate_child-IsPlaced kernel_type available tags routes c x e =
      let tag = key_of to_lower c.tag in
      let (p1, e1) = reject_ok (nat_eq c.node_id 0) _ _ x e in
      let (p2, e2) = reject_ok (tag == "") _ _ x e1 in
      let (p3, e3) = reject_ok (tag == "direct" || tag == "block") _ _ x e2 in
      let (p4, e4) = reject_ok (one_of tag tags) _ _ x e3 in
      let (p5, e5) = reject_ok (one_of tag available) _ _ x e4 in
      let (y, p6, e6) = then_ok (validate_route_id c.route_id) _ x e5 in
      let (p7, e7) = reject_ok (seen_route to_lower c.route_id routes) _ _ x e6 in
      let (p8, e8) = reject_ok (is_blank c.address) _ _ x e7 in
      let (p9, e9) = reject_ok (nat_eq c.port 0 || ltb 65535 c.port) _ _ x e8 in
      let (low, high) = route_in_range c.route_id y p6 in
      (
        record {
          node = ground (arith, p1);
          port_low = ground (arith, p9);
          port_high = ground (arith, p9);
          route_low = low;
          route_high = high;
          reserved = ground (arith, p3);
          tagged = p2;
          fresh_tag = p4;
          fresh_route = p7;
        },
        p5,
      )

  validate_children-ArePlaced :
      (kernel_type : String) (available tags : List String) (routes : List ℕ) (cs : List RelayChild)
      (x : Unit {0})
      → validate_children to_lower kernel_type available tags routes cs ≡ ok x
      → ArePlaced available tags routes cs
  unfolding validate_children
  validate_children-ArePlaced kernel_type available tags routes [] x e = all_placed tags routes
  validate_children-ArePlaced kernel_type available tags routes (c ∷ cs) x e =
      let (y, first, rest) =
        then_ok (validate_child to_lower kernel_type available tags routes c) _ x e in
      let (p, q) = validate_child-IsPlaced kernel_type available tags routes c y first in
      placed tags routes c cs p q (
        validate_children-ArePlaced kernel_type available (key_of to_lower c.tag ∷ tags)
          (c.route_id ∷ routes) cs x rest)

  -- An accepted relay entry has a route in range; each of its children is a node at a port, with a tag that
  -- is neither built in nor that of another child or outbound, whichever case it is written in, and a route
  -- in range that neither the entry nor another child has.
  pub validate_relay_entry-ArePlaced :
      (n : NodeSpec) (r : RelayConfig) (kernel_type : String) (available : List String)
      → validate_relay_entry to_lower n r kernel_type available ≡ ok tt
      → (0 < r.route_id)
        × (r.route_id ≤ 65535)
        × ArePlaced available [] (r.route_id ∷ []) r.children
  unfolding validate_relay_entry
  validate_relay_entry-ArePlaced n r kernel_type available e =
      let (p1, e1) = reject_ok (not (known_kernel to_lower kernel_type)) _ _ tt e in
      let (y, p2, e2) = then_ok (validate_inbound to_lower n kernel_type) _ tt e1 in
      let (z, p3, e3) = then_ok (validate_route_id r.route_id) _ tt e2 in
      let (low, high) = route_in_range r.route_id z p3 in
      (
        low,
        high,
        validate_children-ArePlaced kernel_type available [] (r.route_id ∷ []) r.children tt e3,
      )

  -- The kernel that `ResolveKernelForTransport` chooses is one that can handle the transport.
  pub validate_transport_kernel-resolve :
      (network configured : String)
      → validate_transport_kernel to_lower network
          (resolve_kernel_for_transport to_lower network configured)
        ≡ ok tt
  unfolding validate_transport_kernel resolve_kernel_for_transport
  validate_transport_kernel-resolve network configured =
      elim (Bool-cases
        (configured == "singbox" && one_of (key_of to_lower network) singbox_unsupported)) [
          | inl e ↦ rw e refl
          | inr e ↦ rw e (rw e refl)
        ]
