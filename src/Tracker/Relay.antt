-- ===== src/Tracker/Relay.antt =====
-- internal/tracker/relay.go: the counters of the relay's logical nodes, and of its users by node.
use mathlib.Core.List.{foldl}
use yzboard_node.Prelude.{ℕ, [], ◌∷◌, if◌then◌else◌, Dict, lookup_or, insert, nat_Eq}
use yzboard_node.Tracker.{
  Traffic, no_traffic, Tracker, delta_traffic, moved, accumulate, restore_entry,
}

-- The two maps that a loop over relay readings changes.
pub record Counts : Type 0 where
  pub last : Dict ℕ Traffic
  pub pending : Dict ℕ Traffic

-- One round of the loop in `ProcessRelay`, and of the inner loop in `ProcessRelayUser`.
unfoldable pub process_node : Counts → ℕ × Traffic → Counts
process_node c (node_id, cum) =
    let d = delta_traffic cum (lookup_or no_traffic node_id c.last) in
    let last' = insert node_id cum c.last in
    if moved d
    then record { last = last'; pending = accumulate node_id d c.pending }
    else record c { last = last' }

-- With no entry the loop makes no round, so the early return leaves the state as the loop would.
unfoldable pub process_relay : Tracker → Dict ℕ Traffic → Tracker
process_relay t [] = t
process_relay t (r ∷ rs) =
    let c =
      foldl process_node (record { last = t.last_seen_relay; pending = t.pending_relay })
        (r ∷ rs) in
    record t { last_seen_relay = c.last; pending_relay = c.pending }

-- An empty map is returned as `nil`.
unfoldable pub flush_relay_traffic : Tracker → Tracker × Dict ℕ Traffic
flush_relay_traffic t = (record t { pending_relay = [] }, t.pending_relay)

unfoldable pub restore_relay_traffic : Tracker → Dict ℕ Traffic → Tracker
restore_relay_traffic t [] = t
restore_relay_traffic t (r ∷ rs) = record t {
  pending_relay = foldl restore_entry t.pending_relay (r ∷ rs);
}

-- The two maps of maps that `ProcessRelayUser` changes.
pub record UserCounts : Type 0 where
  pub last : Dict ℕ (Dict ℕ Traffic)
  pub pending : Dict ℕ (Dict ℕ Traffic)

-- One round of the outer loop: a missing inner map is made, also where no node follows.
unfoldable pub process_user_nodes : UserCounts → ℕ × Dict ℕ Traffic → UserCounts
process_user_nodes u (uid, nodes) =
    let c =
      foldl process_node
        (record { last = lookup_or [] uid u.last; pending = lookup_or [] uid u.pending }) nodes in
    record { last = insert uid c.last u.last; pending = insert uid c.pending u.pending }

unfoldable pub process_relay_user : Tracker → Dict ℕ (Dict ℕ Traffic) → Tracker
process_relay_user t [] = t
process_relay_user t (r ∷ rs) =
    let u =
      foldl process_user_nodes
        (record { last = t.last_seen_relay_user; pending = t.pending_relay_user }) (r ∷ rs) in
    record t { last_seen_relay_user = u.last; pending_relay_user = u.pending }

unfoldable pub flush_relay_user_traffic : Tracker → Tracker × Dict ℕ (Dict ℕ Traffic)
flush_relay_user_traffic t = (record t { pending_relay_user = [] }, t.pending_relay_user)

abbrev pub restore_user_nodes :
    Dict ℕ (Dict ℕ Traffic) → ℕ × Dict ℕ Traffic → Dict ℕ (Dict ℕ Traffic)
restore_user_nodes m (uid, nodes) = insert uid (foldl restore_entry (lookup_or [] uid m) nodes) m

unfoldable pub restore_relay_user_traffic : Tracker → Dict ℕ (Dict ℕ Traffic) → Tracker
restore_relay_user_traffic t [] = t
restore_relay_user_traffic t (r ∷ rs) = record t {
  pending_relay_user = foldl restore_user_nodes t.pending_relay_user (r ∷ rs);
}
