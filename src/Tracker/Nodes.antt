-- ===== src/Tracker/Nodes.antt =====
-- The relay counters after `ProcessRelay` and `ProcessRelayUser`, against the readings.
use mathlib.Core.List.{foldl}
use yzboard_node.Prelude.{
  ℕ, ◌≡◌, refl, ap, ◌∙◌, none, [], ◌∷◌, if◌then◌else◌, arith, Dict, lookup, lookup_or,
  lookup_or-insert, IsMap, nat_Eq, ◌==◌, All, Bool-cases, inl, inr,
}
use yzboard_node.Tracker.{Traffic, add_traffic, Tracker}
use yzboard_node.Tracker.Relay.{
  Counts, process_node, process_relay, UserCounts, process_user_nodes, process_relay_user,
}
use yzboard_node.Tracker.Deltas.{IsReading}
use yzboard_node.Tracker.Ledger.{counted, latest, growth, IsWords, process_nodes-counted}

abbrev pub relay_counts : Tracker → Counts
relay_counts t = record { last = t.last_seen_relay; pending = t.pending_relay }

process_relay-counts :
    (t : Tracker) (cum : Dict ℕ Traffic)
    → relay_counts (process_relay t cum) ≡ foldl process_node (relay_counts t) cum
unfolding process_relay
process_relay-counts t [] = refl
process_relay-counts t (r ∷ rs) = refl

-- A sampling of the relay's nodes, which gives each node one reading at most and none that is negative,
-- where the pending counters are words: the last readings become those of the sampling, and each pending
-- counter grows by the delta of its reading. Nodes with no reading keep both.
pub process_relay-counted :
    (t : Tracker) (cum : Dict ℕ Traffic) (node_id : ℕ)
    → IsMap cum
    → IsWords t.pending_relay
    → All (λ e. IsReading e.1) cum
    → let t' = process_relay t cum in
      (counted node_id t'.last_seen_relay
        ≡ latest (counted node_id t.last_seen_relay) (lookup node_id cum))
      × (counted node_id t'.pending_relay
          ≡ add_traffic
              (counted node_id t.pending_relay)
              (growth (counted node_id t.last_seen_relay) (lookup node_id cum)))
process_relay-counted t cum node_id i w r =
    let e = process_relay-counts t cum in
    let (last, pending) = process_nodes-counted (relay_counts t) cum node_id i w r in
    (ap (λ c. counted node_id c.last) e ∙ last, ap (λ c. counted node_id c.pending) e ∙ pending)

-- The two counters of a user, by node.
abbrev pub nodes_of : ℕ → UserCounts → Counts
nodes_of uid u = record { last = lookup_or [] uid u.last; pending = lookup_or [] uid u.pending }

process_user_nodes-nodes_of :
    (u : UserCounts) (k : ℕ) (nodes : Dict ℕ Traffic) (uid : ℕ)
    → nodes_of uid (process_user_nodes u (k, nodes))
      ≡ (if k == uid then foldl process_node (nodes_of uid u) nodes else nodes_of uid u)
unfolding process_user_nodes
process_user_nodes-nodes_of u k nodes uid =
    let c = foldl process_node (nodes_of k u) nodes in
    ground (
      arith,
      lookup_or-insert [] k c.last uid u.last,
      lookup_or-insert [] k c.pending uid u.pending,
    )

users_absent :
    (u : UserCounts) (cum : Dict ℕ (Dict ℕ Traffic)) (uid : ℕ)
    → lookup uid cum ≡ none
    → nodes_of uid (foldl process_user_nodes u cum) ≡ nodes_of uid u
users_absent u [] uid h = refl
users_absent u ((k, nodes) ∷ m) uid h = ground (
  arith,
  process_user_nodes-nodes_of u k nodes uid,
  users_absent (process_user_nodes u (k, nodes)) m uid,
)

users-nodes_of :
    (u : UserCounts) (cum : Dict ℕ (Dict ℕ Traffic)) (uid : ℕ)
    → IsMap cum
    → nodes_of uid (foldl process_user_nodes u cum)
      ≡ foldl process_node (nodes_of uid u) (lookup_or [] uid cum)
users-nodes_of u [] uid i = refl
users-nodes_of u ((k, nodes) ∷ m) uid (fresh, i) =
    let u' = process_user_nodes u (k, nodes) in
    elim (Bool-cases (k == uid)) [
      | inl e ↦ ground (arith, process_user_nodes-nodes_of u k nodes uid, users_absent u' m uid)
      | inr e ↦ ground (arith, process_user_nodes-nodes_of u k nodes uid, users-nodes_of u' m uid i)
    ]

abbrev pub relay_user_counts : Tracker → UserCounts
relay_user_counts t = record { last = t.last_seen_relay_user; pending = t.pending_relay_user }

process_relay_user-counts :
    (t : Tracker) (cum : Dict ℕ (Dict ℕ Traffic))
    → relay_user_counts (process_relay_user t cum)
      ≡ foldl process_user_nodes (relay_user_counts t) cum
unfolding process_relay_user
process_relay_user-counts t [] = refl
process_relay_user-counts t (r ∷ rs) = refl

-- A sampling of the relay's users by node, which names each user once at most and gives the user `uid`
-- one reading at most for a node and none that is negative, where the user's pending counters are words:
-- the user's last readings become those of the sampling, and each pending counter of the user grows by
-- the delta of its reading. Nodes that the sampling does not name for the user keep both, and so do all
-- the nodes of a user that it does not name.
pub process_relay_user-counted :
    (t : Tracker) (cum : Dict ℕ (Dict ℕ Traffic)) (uid node_id : ℕ)
    → IsMap cum
    → IsMap (lookup_or [] uid cum)
    → IsWords (lookup_or [] uid t.pending_relay_user)
    → All (λ e. IsReading e.1) (lookup_or [] uid cum)
    → let t' = process_relay_user t cum in
      let reading = lookup node_id (lookup_or [] uid cum) in
      let old = counted node_id (lookup_or [] uid t.last_seen_relay_user) in
      (counted node_id (lookup_or [] uid t'.last_seen_relay_user) ≡ latest old reading)
      × (counted node_id (lookup_or [] uid t'.pending_relay_user)
          ≡ add_traffic
              (counted node_id (lookup_or [] uid t.pending_relay_user))
              (growth old reading))
process_relay_user-counted t cum uid node_id i j w r =
    let e =
      ap (nodes_of uid) (process_relay_user-counts t cum)
      ∙ users-nodes_of (relay_user_counts t) cum uid i in
    let (last, pending) =
      process_nodes-counted (nodes_of uid (relay_user_counts t)) (lookup_or [] uid cum) node_id j w
        r in
    (ap (λ c. counted node_id c.last) e ∙ last, ap (λ c. counted node_id c.pending) e ∙ pending)
