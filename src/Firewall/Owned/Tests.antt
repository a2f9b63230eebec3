-- ===== src/Firewall/Owned/Tests.antt =====
-- Concrete redirects for internal/firewall/state.go and redirect.go.
use yzboard_node.Prelude.{
  ℕ, ◌≡◌, ◌≢◌, refl, Bool, true, false, none, List, [], ◌∷◌, if◌then◌else◌, nat_eq,
}
use yzboard_node.Firewall.{Rule}
use yzboard_node.Firewall.Owned.{
  OwnedRule, SavedState, unwritten, unsynced, same_owned, owns, Tools, SystemBackend, remember,
  forget, apply_redirects,
}
use yzboard_node.Firewall.Owned.Recorded.{IsFiled, IsLess, remember-IsFiled, forget-IsFiled}

abbrev any_rule : List Rule → Bool
any_rule [] = false
any_rule (r ∷ rs) = true

-- The flag of the family `g` after the family `f` has been set.
abbrev set_flag : ℕ → Bool → (ℕ → Bool) → ℕ → Bool
set_flag f x flags g = if nat_eq f g then x else flags g

-- A system that holds whether nftables redirects, and for which families iptables does.
abbrev flags : Tools
flags = record {
  System = Bool × (ℕ → Bool);
  available = λ name s. true;
  sync_nft = λ rs s. ((any_rule rs, s.1), none);
  sync_family = λ f rs s. ((s.0, set_flag f (any_rule rs) s.1), none);
}

abbrev hop : Rule
hop = record {
  family = 4;
  address = "";
  protocol = "udp";
  ports = record { from = 20000; to = 20100 };
  target = 443;
}

abbrev owned : OwnedRule
owned = record { backend = "ufw"; zone = ""; rule = record hop { target = 0 } }

abbrev recorded : SavedState
recorded = record { owned = []; redirect = "nftables"; redirect_families = [] }

-- nftables is in force, and the first save will fail.
abbrev running : SystemBackend flags
running = record {
  state = recorded;
  file = recorded;
  system = (true, λ f. false);
  savings = unwritten ∷ [];
}

running-IsFiled : (r : OwnedRule) → IsFiled flags r running
running-IsFiled r h = h

remember-IsFiled_example :
    let (b', e) = remember flags owned running in
    ((r : OwnedRule) → IsFiled flags r b')
    × (e ≡ none → (owns owned b'.state.owned ≡ true) × (owns owned b'.file.owned ≡ true))
    × (e ≢ none → b'.state.owned ≡ running.state.owned)
remember-IsFiled_example = remember-IsFiled flags owned running running-IsFiled

-- A backend that owns a rule, and whose next save ends after the file is in place.
abbrev owning : SystemBackend flags
owning = record running {
  state = record recorded { owned = owned ∷ [] };
  file = record recorded { owned = owned ∷ [] };
  savings = unsynced ∷ [];
}

owning-IsFiled : (r : OwnedRule) → IsFiled flags r owning
owning-IsFiled r h = h

forget-IsFiled_example :
    let (b', e) = forget flags owned owning in
    ((r : OwnedRule) → same_owned owned r ≡ false → IsFiled flags r b')
    × (e ≡ none
        → owns owned owning.state.owned ≡ true
        → IsLess owned owning.state.owned b'.state.owned × (b'.file.owned ≡ b'.state.owned))
    × (owns owned owning.state.owned ≡ false → b'.state.owned ≡ owning.state.owned)
    × (e ≢ none → b'.state.owned ≡ owning.state.owned)
forget-IsFiled_example = forget-IsFiled flags owned owning owning-IsFiled

-- A redirect moves from nftables to iptables once the first save succeeds.
redirect_moved :
    let (b', e) = apply_redirects flags "iptables" (hop ∷ []) (record running { savings = [] }) in
    (b'.file.redirect ≡ "iptables") × (b'.file.redirect_families ≡ 4 ∷ []) × (b'.system.0 ≡ false)
unfolding apply_redirects
redirect_moved = (refl, refl, refl)
