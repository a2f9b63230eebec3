-- ===== src/Tracker.antt =====
-- internal/tracker/tracker.go: the counters of a node's users, from the kernel's cumulative readings
-- to what the panel is told. The proofs stand in the modules below.
pub mod Relay
pub mod Deltas
pub mod Ledger
pub mod Nodes
mod Tests
use Prim.Native.String.{String}
use mathlib.Core.List.{foldl}
use yzboard_node.Prelude.{
  ℕ, Bool, ◌||◌, List, [], ◌∷◌, map, if◌then◌else◌, ltb, Dict, lookup_or, insert, add64, sub64,
  div10, is_neg, is_pos, length, nat_Eq,
}

-- `[2]int64`: upload and download.
pub record Traffic : Type 0 where
  pub up : ℕ
  pub down : ℕ

abbrev pub no_traffic : Traffic
no_traffic = record { up = 0; down = 0 }

-- `cur[0] += d[0]; cur[1] += d[1]`
unfoldable pub add_traffic : Traffic → Traffic → Traffic
add_traffic a b = record { up = add64 a.up b.up; down = add64 a.down b.down }

-- The growth of one counter, with the guard against a counter reset.
unfoldable pub delta : ℕ → ℕ → ℕ
delta cum prev = let d = sub64 cum prev in if is_neg d then cum else d

unfoldable pub delta_traffic : Traffic → Traffic → Traffic
delta_traffic cum prev = record { up = delta cum.up prev.up; down = delta cum.down prev.down }

-- `deltaUp > 0 || deltaDown > 0`
unfoldable pub moved : Traffic → Bool
moved d = is_pos d.up || is_pos d.down

-- `cur := m[k]; cur[0] += d[0]; cur[1] += d[1]; m[k] = cur`
unfoldable pub accumulate : ℕ → Traffic → Dict ℕ Traffic → Dict ℕ Traffic
accumulate k d m = insert k (add_traffic (lookup_or no_traffic k m) d) m

-- `aliveIPs` maps a user to a set of source addresses, here the list of its members.
pub record Snapshot : Type 0 where
  pub traffic : Dict ℕ Traffic
  pub alive_ips : Dict ℕ (List String)
  pub online : Dict ℕ ℕ
  pub conn_count : ℕ
  pub in_speed : ℕ
  pub out_speed : ℕ

pub record Tracker : Type 0 where
  pub last_seen : Dict ℕ Traffic
  pub pending_traffic : Dict ℕ Traffic
  pub last_seen_relay : Dict ℕ Traffic
  pub pending_relay : Dict ℕ Traffic
  pub last_seen_relay_user : Dict ℕ (Dict ℕ Traffic)
  pub pending_relay_user : Dict ℕ (Dict ℕ Traffic)
  pub live : Snapshot

-- `New`
unfoldable pub new : Tracker
new = record {
  last_seen = [];
  pending_traffic = [];
  last_seen_relay = [];
  pending_relay = [];
  last_seen_relay_user = [];
  pending_relay_user = [];
  live = record {
    traffic = [];
    alive_ips = [];
    online = [];
    conn_count = 0;
    in_speed = 0;
    out_speed = 0;
  };
}

-- The variables of the loop in `Process`.
pub record Cycle : Type 0 where
  pub last : Dict ℕ Traffic
  pub pending : Dict ℕ Traffic
  pub cycle_in : ℕ
  pub cycle_out : ℕ

-- One round of that loop: the reading `cum` of the user `uid`.
unfoldable pub process_user : Cycle → ℕ × Traffic → Cycle
process_user c (uid, cum) =
    let d = delta_traffic cum (lookup_or no_traffic uid c.last) in
    let last' = insert uid cum c.last in
    if moved d
    then record {
      last = last';
      pending = accumulate uid d c.pending;
      cycle_in = add64 c.cycle_in d.down;
      cycle_out = add64 c.cycle_out d.up;
    }
    else record c { last = last' }

abbrev pub count_ips : ℕ × List String → ℕ × ℕ
count_ips (uid, ips) = (uid, length ips)

unfoldable pub process : Tracker → Dict ℕ Traffic → Dict ℕ (List String) → ℕ → Tracker
process t cum_traffic kernel_alive_ips conn_count =
    let c =
      foldl process_user
        (record { last = t.last_seen; pending = t.pending_traffic; cycle_in = 0; cycle_out = 0 })
        cum_traffic in
    record t {
      last_seen = c.last;
      pending_traffic = c.pending;
      live = record {
        traffic = c.pending;
        alive_ips = kernel_alive_ips;
        online = map count_ips kernel_alive_ips;
        conn_count = conn_count;
        in_speed = c.cycle_in;
        out_speed = c.cycle_out;
      };
    }

-- The new state and the flushed data.
unfoldable pub flush_traffic : Tracker → Tracker × Dict ℕ Traffic
flush_traffic t = (record t { pending_traffic = [] }, t.pending_traffic)

abbrev pub restore_entry : Dict ℕ Traffic → ℕ × Traffic → Dict ℕ Traffic
restore_entry m (uid, d) = accumulate uid d m

unfoldable pub restore_traffic : Tracker → Dict ℕ Traffic → Tracker
restore_traffic t flushed = record t {
  pending_traffic = foldl restore_entry t.pending_traffic flushed;
}

unfoldable pub has_traffic : Tracker → Bool
has_traffic t = ltb 0 (length t.pending_traffic)

unfoldable pub flush_alive_ips : Tracker → Dict ℕ (List String)
flush_alive_ips t = t.live.alive_ips

unfoldable pub current_online : Tracker → Dict ℕ ℕ
current_online t = t.live.online

unfoldable pub active_connections : Tracker → ℕ
active_connections t = t.live.conn_count

unfoldable pub inbound_speed : Tracker → ℕ
inbound_speed t = div10 t.live.in_speed

unfoldable pub outbound_speed : Tracker → ℕ
outbound_speed t = div10 t.live.out_speed
