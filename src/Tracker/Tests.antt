-- ===== src/Tracker/Tests.antt =====
-- Concrete readings for internal/tracker/tracker.go.
use yzboard_node.Prelude.{
  ℕ, ◌-◌, ◌≡◌, refl, [], ◌∷◌, if◌then◌else◌, arith, Dict, lookup, lookup_or, IsMap, nat_Eq, All,
  ltb,
}
use yzboard_node.Tracker.{Traffic, add_traffic, delta, process, Tracker}
use yzboard_node.Tracker.Deltas.{IsReading, delta_exact}
use yzboard_node.Tracker.Relay.{process_relay, process_relay_user}
use yzboard_node.Tracker.Nodes.{process_relay-counted, process_relay_user-counted}
use yzboard_node.Tracker.Ledger.{counted, latest, growth, IsWords, process-counted}

abbrev traffic : ℕ → ℕ → Traffic
traffic up down = record { up = up; down = down }

-- Two users, of whom the first has been seen before.
abbrev before : Tracker
before = record {
  last_seen = (1, traffic 100 200) ∷ [];
  pending_traffic = (1, traffic 5 5) ∷ [];
  last_seen_relay = [];
  pending_relay = [];
  last_seen_relay_user = [];
  pending_relay_user = [];
  live = record {
    traffic = [];
    alive_ips = [];
    online = [];
    conn_count = 0;
    in_speed = 0;
    out_speed = 0;
  };
}

abbrev reading : Dict ℕ Traffic
reading = (1, traffic 150 50) ∷ (2, traffic 7 0) ∷ []

reading-IsMap : IsMap reading
reading-IsMap = (refl, (refl, tt))

reading-IsReading : All (λ e. IsReading e.1) reading
reading-IsReading = omega arith

before-IsWords : IsWords before.pending_traffic
before-IsWords u = ground arith

delta_exact_example : delta 50 200 ≡ (if ltb 50 200 then 50 else 50 - 200)
delta_exact_example = delta_exact 50 200 (omega arith) (omega arith)

process-counted_example :
    let t' = process before reading ((1, "10.0.0.1" ∷ []) ∷ []) 3 in
    (counted 1 t'.last_seen ≡ latest (counted 1 before.last_seen) (lookup 1 reading))
    × (counted 1 t'.pending_traffic
        ≡ add_traffic
            (counted 1 before.pending_traffic)
            (growth (counted 1 before.last_seen) (lookup 1 reading)))
    × IsWords t'.pending_traffic
process-counted_example =
    process-counted before reading ((1, "10.0.0.1" ∷ []) ∷ []) 3 1 reading-IsMap before-IsWords
      reading-IsReading

-- A tracker that has seen a relay node, and a user at it.
abbrev relayed : Tracker
relayed = record before {
  last_seen_relay = (1, traffic 100 200) ∷ [];
  pending_relay = (1, traffic 5 5) ∷ [];
  last_seen_relay_user = (8, (1, traffic 100 200) ∷ []) ∷ [];
  pending_relay_user = (8, (1, traffic 5 5) ∷ []) ∷ [];
}

process_relay-counted_example :
    let t' = process_relay relayed reading in
    (counted 1 t'.last_seen_relay ≡ latest (counted 1 relayed.last_seen_relay) (lookup 1 reading))
    × (counted 1 t'.pending_relay
        ≡ add_traffic
            (counted 1 relayed.pending_relay)
            (growth (counted 1 relayed.last_seen_relay) (lookup 1 reading)))
process_relay-counted_example =
    process_relay-counted relayed reading 1 reading-IsMap before-IsWords reading-IsReading

process_relay_user-counted_example :
    let t' = process_relay_user relayed ((8, reading) ∷ []) in
    let old = counted 1 (lookup_or [] 8 relayed.last_seen_relay_user) in
    (counted 1 (lookup_or [] 8 t'.last_seen_relay_user) ≡ latest old (lookup 1 reading))
    × (counted 1 (lookup_or [] 8 t'.pending_relay_user)
        ≡ add_traffic
            (counted 1 (lookup_or [] 8 relayed.pending_relay_user))
            (growth old (lookup 1 reading)))
process_relay_user-counted_example =
    process_relay_user-counted relayed ((8, reading) ∷ []) 8 1 (refl, tt) reading-IsMap
      before-IsWords reading-IsReading
