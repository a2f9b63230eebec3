-- ===== src/Tracker/Ledger.antt =====
-- The loops of `Process`, `ProcessRelay` and the restores, key by key.
use Prim.Native.String.{String}
use mathlib.Core.List.{foldl}
use mathlib.Core.Path.{subst}
use yzboard_node.Prelude.{
  ℕ, ◌≡◌, refl, ap, ◌∙◌, Option, none, some, List, [], ◌∷◌, if◌then◌else◌, arith, Dict, lookup,
  lookup_or, lookup_or-insert, IsMap, nat_Eq, sym, lookup_or-none, ◌==◌, All, Bool-cases, inl, inr,
}
use yzboard_node.Tracker.{
  Traffic, no_traffic, add_traffic, delta_traffic, moved, accumulate, restore_entry, Cycle,
  process_user, Tracker, process,
}
use yzboard_node.Tracker.Relay.{Counts, process_node}
use yzboard_node.Tracker.Deltas.{
  IsReading, IsWord, add_traffic-IsWord, add_traffic_zero, delta_traffic_still,
}

-- `m[k]`
abbrev pub counted : ℕ → Dict ℕ Traffic → Traffic
counted u m = lookup_or no_traffic u m

-- The counter `a` with what the map `m` holds for `u`.
abbrev pub add_found : Traffic → Option Traffic → Traffic
add_found a none = a
add_found a (some d) = add_traffic a d

pub counted-accumulate :
    (k : ℕ) (d : Traffic) (u : ℕ) (m : Dict ℕ Traffic)
    → counted u (accumulate k d m) ≡ (if k == u then add_traffic (counted u m) d else counted u m)
unfolding accumulate
counted-accumulate k d u m =
    ground (arith, lookup_or-insert no_traffic k (add_traffic (counted k m) d) u m)

-- Every counter of the map is a word.
abbrev pub IsWords : Dict ℕ Traffic → Type 0
IsWords m = (u : ℕ) → IsWord (counted u m)

pub accumulate-IsWords :
    (k : ℕ) (d : Traffic) (m : Dict ℕ Traffic) → IsWords m → IsWords (accumulate k d m)
accumulate-IsWords k d m h u = rw counted-accumulate (elim (Bool-cases (k == u)) [
  | inl e ↦ rw e (add_traffic-IsWord (counted u m) d)
  | inr e ↦ rw e (h u)
])

pub process_node-last :
    (c : Counts) (k : ℕ) (cum : Traffic) (u : ℕ)
    → counted u (process_node c (k, cum)).last ≡ (if k == u then cum else counted u c.last)
unfolding process_node
process_node-last c k cum u = ground (arith, lookup_or-insert no_traffic k cum u c.last)

pub process_node-pending :
    (c : Counts) (k : ℕ) (cum : Traffic) (u : ℕ)
    → IsWords c.pending
    → IsReading cum
    → counted u (process_node c (k, cum)).pending ≡ (
        if k == u
        then add_traffic (counted u c.pending) (delta_traffic cum (counted u c.last))
        else counted u c.pending)
unfolding process_node
process_node-pending c k cum u w r =
    let d = delta_traffic cum (counted k c.last) in
    ground (
      arith,
      counted-accumulate k d u c.pending,
      delta_traffic_still cum (counted k c.last) r,
      add_traffic_zero (counted u c.pending) (w u),
    )

pub process_node-IsWords :
    (c : Counts) (e : ℕ × Traffic) → IsWords c.pending → IsWords (process_node c e).pending
unfolding process_node
process_node-IsWords c (k, cum) w =
    elim (Bool-cases (moved (delta_traffic cum (counted k c.last)))) [
      | inl e ↦ rw e (accumulate-IsWords k _ c.pending w)
      | inr e ↦ rw e w
    ]

-- The loop over readings that do not name `u` leaves its two counters alone.
process_nodes_absent :
    (c : Counts) (cum : Dict ℕ Traffic) (u : ℕ)
    → IsWords c.pending
    → All (λ e. IsReading e.1) cum
    → lookup u cum ≡ none
    → (counted u (foldl process_node c cum).last ≡ counted u c.last)
      × (counted u (foldl process_node c cum).pending ≡ counted u c.pending)
process_nodes_absent c [] u w r h = (refl, refl)
process_nodes_absent c ((k, cum) ∷ m) u w (r, rs) h = ground (
  arith,
  process_node-last c k cum u,
  process_node-pending c k cum u w r,
  process_nodes_absent (process_node c (k, cum)) m u (process_node-IsWords c (k, cum) w) rs,
)

-- The counter of the reading `found`, if there is one, or else the old one.
abbrev pub latest : Traffic → Option Traffic → Traffic
latest old none = old
latest old (some cum) = cum

-- What a reading adds over the last one seen.
abbrev pub growth : Traffic → Option Traffic → Traffic
growth old none = no_traffic
growth old (some cum) = delta_traffic cum old

-- After the loop each key holds its reading, and the pending counter has grown by the delta against
-- the reading before. Keys with no reading keep both.
pub process_nodes-counted :
    (c : Counts) (cum : Dict ℕ Traffic) (u : ℕ)
    → IsMap cum
    → IsWords c.pending
    → All (λ e. IsReading e.1) cum
    → (counted u (foldl process_node c cum).last ≡ latest (counted u c.last) (lookup u cum))
      × (counted u (foldl process_node c cum).pending
          ≡ add_traffic (counted u c.pending) (growth (counted u c.last) (lookup u cum)))
process_nodes-counted c [] u i w r = (refl, sym (add_traffic_zero _ (w u)))
process_nodes-counted c ((k, cum) ∷ m) u (fresh, i) w (r, rs) =
    let c' = process_node c (k, cum) in
    let w' = process_node-IsWords c (k, cum) w in
    elim (Bool-cases (k == u)) [
      | inl e ↦ ground (
        arith,
        process_node-last c k cum u,
        process_node-pending c k cum u w r,
        process_nodes_absent c' m u w' rs,
      )
      | inr e ↦ ground (
        arith,
        process_node-last c k cum u,
        process_node-pending c k cum u w r,
        process_nodes-counted c' m u i w' rs,
      )
    ]

pub process_nodes-IsWords :
    (c : Counts) (cum : Dict ℕ Traffic)
    → IsWords c.pending
    → IsWords (foldl process_node c cum).pending
process_nodes-IsWords c [] w = w
process_nodes-IsWords c (e ∷ m) w =
    process_nodes-IsWords (process_node c e) m (process_node-IsWords c e w)

-- The loop of `Process` does to the two maps what the loop of `ProcessRelay` does.
abbrev pub counts_of : Cycle → Counts
counts_of c = record { last = c.last; pending = c.pending }

process_user-counts :
    (c : Cycle) (e : ℕ × Traffic) → counts_of (process_user c e) ≡ process_node (counts_of c) e
unfolding process_user process_node
process_user-counts c (k, cum) = ground arith

pub process_users-counts :
    (c : Cycle) (cum : Dict ℕ Traffic)
    → counts_of (foldl process_user c cum) ≡ foldl process_node (counts_of c) cum
process_users-counts c [] = refl
process_users-counts c (e ∷ m) =
    process_users-counts (process_user c e) m
    ∙ ap (λ d. foldl process_node d m) (process_user-counts c e)

-- Restoring a flushed map adds, for every key, what it holds to what is pending, as 64-bit words, if the
-- flushed map is a map and the pending counters are words.
pub restore-counted :
    (m : Dict ℕ Traffic) (flushed : Dict ℕ Traffic) (u : ℕ)
    → IsMap flushed
    → IsWords m
    → counted u (foldl restore_entry m flushed) ≡ add_traffic (counted u m) (counted u flushed)
restore-counted m [] u i w = sym (add_traffic_zero _ (w u))
restore-counted m ((k, d) ∷ f) u (fresh, i) w = ground (
  arith,
  counted-accumulate k d u m,
  restore-counted (accumulate k d m) f u i (accumulate-IsWords k d m w),
  add_traffic_zero (add_traffic (counted u m) d) (add_traffic-IsWord (counted u m) d),
  lookup_or-none no_traffic u f,
)

abbrev pub user_counts : Tracker → Counts
user_counts t = record { last = t.last_seen; pending = t.pending_traffic }

pub process-user_counts :
    (t : Tracker) (cum : Dict ℕ Traffic) (ips : Dict ℕ (List String)) (n : ℕ)
    → user_counts (process t cum ips n) ≡ foldl process_node (user_counts t) cum
unfolding process
process-user_counts t cum ips n = process_users-counts _ cum

-- A sampling of the users, which gives each user one reading at most and none that is negative, where
-- the pending counters are words: the last readings become those of the sampling, each pending counter
-- grows by the delta of its reading, and users with no reading keep both; the pending counters are
-- words afterwards.
pub process-counted :
    (t : Tracker) (cum : Dict ℕ Traffic) (ips : Dict ℕ (List String)) (n u : ℕ)
    → IsMap cum
    → IsWords t.pending_traffic
    → All (λ e. IsReading e.1) cum
    → let t' = process t cum ips n in
      (counted u t'.last_seen ≡ latest (counted u t.last_seen) (lookup u cum))
      × (counted u t'.pending_traffic
          ≡ add_traffic
              (counted u t.pending_traffic)
              (growth (counted u t.last_seen) (lookup u cum)))
      × IsWords t'.pending_traffic
process-counted t cum ips n u i w r =
    let e = process-user_counts t cum ips n in
    let (last, pending) = process_nodes-counted (user_counts t) cum u i w r in
    (
      ap (λ c. counted u c.last) e ∙ last,
      ap (λ c. counted u c.pending) e ∙ pending,
      subst (λ c. IsWords c.pending) (sym e) (process_nodes-IsWords (user_counts t) cum w),
    )
