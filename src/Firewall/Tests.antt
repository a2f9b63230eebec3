-- ===== src/Firewall/Tests.antt =====
-- Concrete nodes and rules for internal/firewall/plan.go and manager.go.
use Prim.Native.String.{String}
use yzboard_node.Prelude.{
  ok, ℕ, ◌+◌, ◌≡◌, refl, inl, inr, true, false, none, some, [], ◌∷◌, arith, Dict, erase, contains,
  string_Eq, codes, trim_space, trim_brackets, split,
}
use yzboard_node.Portset
use yzboard_node.Portset.{Range}
use yzboard_node.Model.{NodeSpec, end, is_relay_landing}
use yzboard_node.Firewall as Plans
use yzboard_node.Firewall.{Rule, Plan, Netip, plan_for_node, ok}
use yzboard_node.Firewall.Combine.{
  key, claims_of, allows_of, redirects_of, any_clash, clashes_any, clashes, combine_plans,
  merge_rules,
}
use yzboard_node.Firewall.Merged.{permits, permits-merge_rules}
use yzboard_node.Firewall.Conflict.{combine_plans-targets, erase-combines}
use yzboard_node.Firewall.Manager.{Backend, Manager, apply, release, reconcile}
use yzboard_node.Firewall.Manager.Controlled.{IsApplied, apply-IsApplied}
use yzboard_node.Firewall.Manager.Plans.{
  IsConsistent, IsReleased, IsInForce, apply-IsConsistent, release-IsReleased,
}

abbrev range : ℕ → ℕ → Range
range from to = record { from = from; to = to }

abbrev udp : ℕ → ℕ → ℕ → Rule
udp from to target = record {
  family = 4;
  address = "";
  protocol = "udp";
  ports = range from to;
  target = target;
}

key_text : key (udp 443 8443 10) ≡ codes "4//udp/443-8443/10"
unfolding key
key_text = refl

-- Two nodes that listen on 443, and take overlapping ranges of other ports too.
abbrev plans : Dict String Plan
plans =
    ("a", record { listeners = udp 443 443 0 ∷ []; redirects = udp 20000 20100 443 ∷ [] })
    ∷ ("b", record { listeners = udp 443 443 0 ∷ []; redirects = udp 20050 20150 443 ∷ [] })
    ∷ []

plans_combine : any_clash (claims_of plans) ≡ false
unfolding any_clash clashes_any clashes Portset.overlaps
plans_combine = refl

plans_combined :
    combine_plans plans ≡ ok (merge_rules (allows_of plans), merge_rules (redirects_of plans))
unfolding combine_plans
plans_combined = rw plans_combine refl

in_range : Portset.contains (range 20000 20100) 20070 ≡ true
unfolding Portset.contains
in_range = refl

in_other : Portset.contains (range 20050 20150) 20070 ≡ true
unfolding Portset.contains
in_other = refl

combine_plans-targets_example : (udp 20000 20100 443).target ≡ (udp 20050 20150 443).target
combine_plans-targets_example =
    combine_plans-targets plans (merge_rules (allows_of plans)) (merge_rules (redirects_of plans))
      (udp 20000 20100 443) (udp 20050 20150 443) 20070 plans_combined (inr (inl refl))
      (inr (inr (inr (inl refl)))) refl in_range in_other

permits-merge_rules_example :
    permits (udp 0 0 443) 20101 (merge_rules (udp 20101 20200 443 ∷ udp 20000 20100 443 ∷ []))
    ≡ permits (udp 0 0 443) 20101 (udp 20101 20200 443 ∷ udp 20000 20100 443 ∷ [])
permits-merge_rules_example =
    permits-merge_rules (udp 0 0 443) 20101 (udp 20101 20200 443 ∷ udp 20000 20100 443 ∷ [])
      (omega arith)

erase-combines_example : any_clash (claims_of (erase "a" plans)) ≡ false
erase-combines_example = erase-combines "a" plans plans_combine

-- Addresses as their texts.
abbrev pub texts : Netip
texts = record {
  Addr = String;
  parse_addr = λ s. some s;
  is_unspecified = λ a. false;
  is4 = λ a. true;
  zone = λ a. "";
  unmap = λ a. a;
  to_string = λ a. a;
}

-- A backend that counts its rounds.
abbrev pub counting : Backend
counting = record { State = ℕ; apply = λ allows redirects n. (n + 1, none); close = λ n. (n, none) }

abbrev pub manager : Manager counting
manager = record {
  plans = plans;
  backend = some 0;
  enabled = true;
  linux = true;
  closed = false;
  last_err = none;
}

abbrev spec : NodeSpec
spec = record {
  protocol = "hysteria";
  listen_ip = "10.0.0.1";
  server_port = 445;
  port_hopping = "30000-30100";
  network = "";
  network_settings = end;
  kernel_type = "";
  kernel_log_level = "";
  custom_outbounds = [];
  custom_route_rules = [];
  cert_config = none;
  auto_tls = false;
  domain = "";
  cipher = "";
  tls = 1;
  flow = "";
  decryption = "";
  tls_settings = none;
  version = 2;
  obfs = "";
  obfs_password = "";
  transport = "";
  relay = none;
}

apply-IsConsistent_example :
    IsConsistent counting (apply counting texts "c" (some spec) "xray" manager).0
apply-IsConsistent_example =
    apply-IsConsistent counting texts "c" (some spec) "xray" manager plans_combine

release-IsReleased_example :
    let (m', e) = release counting "a" manager in
    (manager.closed ≡ false → IsReleased counting "a" manager m')
    × (manager.closed ≡ false
        → contains "a" manager.plans ≡ true
        → e ≡ none
        → IsInForce counting m')
    × (IsConsistent counting manager → IsConsistent counting m')
    × (manager.closed ≡ true → m' ≡ manager)
release-IsReleased_example = release-IsReleased counting "a" manager

-- The plan of this node is made, and combines with the others.
apply_done : (apply counting texts "c" (some spec) "xray" manager).1 ≡ none
unfolding apply plan_for_node is_relay_landing Plans.listener_addresses trim_space
    Plans.listener_protocols Plans.plan_redirects Portset.parse split Portset.parse_port
    Portset.all_digits Portset.value combine_plans any_clash clashes Portset.overlaps
    Portset.without Portset.merge clashes_any reconcile merge_rules Portset.sort_ranges
    Portset.contains trim_brackets
apply_done = refl

apply-IsApplied_example :
    IsApplied counting texts "c" (apply counting texts "c" (some spec) "xray" manager).0 spec "xray"
apply-IsApplied_example = apply-IsApplied counting texts "c" manager spec "xray" apply_done
