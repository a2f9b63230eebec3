-- ===== src/Reporter/History.antt =====
-- The traffic that a history of cumulative readings stands for, with the latest reading first: the
-- specification of the tracker and the reports, which names no state of theirs.
use yzboard_node.Prelude.{
  ℕ, ◌≤◌, ◌≡◌, refl, Option, none, some, List, [], ◌∷◌, arith, Dict, lookup, nat_Eq, Option-cases,
  inl, inr, add64,
}
use yzboard_node.Tracker.{Traffic, no_traffic, add_traffic, delta_traffic}
use yzboard_node.Tracker.Deltas.{
  IsReading, IsWord, delta_exact, add_traffic_zero, add_traffic-IsWord,
}
use yzboard_node.Tracker.Ledger.{latest, growth}

-- The last reading of the user `u`.
abbrev pub last_reading : ℕ → List (Dict ℕ Traffic) → Traffic
last_reading u [] = no_traffic
last_reading u (cum ∷ h) = latest (last_reading u h) (lookup u cum)

-- What the user `u` has used: the growth from each reading to the next.
abbrev pub usage : ℕ → List (Dict ℕ Traffic) → Traffic
usage u [] = no_traffic
usage u (cum ∷ h) = add_traffic (usage u h) (growth (last_reading u h) (lookup u cum))

-- The reading `found`, if there is one, is not below the one before.
abbrev pub Grows : Traffic → Option Traffic → Type 0
Grows old none = Unit
Grows old (some t) = IsReading t × (old.up ≤ t.up) × (old.down ≤ t.down)

-- The kernel never began to count anew for the user `u`.
abbrev pub IsGrowing : ℕ → List (Dict ℕ Traffic) → Type 0
IsGrowing u [] = Unit
IsGrowing u (cum ∷ h) = Grows (last_reading u h) (lookup u cum) × IsGrowing u h

add_traffic-delta :
    (t old : Traffic) → Grows old (some t) → add_traffic old (delta_traffic t old) ≡ t
unfolding add_traffic delta_traffic add64
add_traffic-delta t old (r, up, down) = ground (
  arith,
  delta_exact t.up old.up r.up_nonneg,
  delta_exact t.down old.down r.down_nonneg,
  r.up_nonneg,
  r.down_nonneg,
)

usage-IsWord : (u : ℕ) (h : List (Dict ℕ Traffic)) → IsWord (usage u h)
usage-IsWord u [] = omega arith
usage-IsWord u (cum ∷ h) = add_traffic-IsWord (usage u h) _

-- Where the kernel never began to count anew, the usage is the last reading.
pub usage-growing :
    (u : ℕ) (h : List (Dict ℕ Traffic)) → IsGrowing u h → usage u h ≡ last_reading u h
usage-growing u [] g = refl
usage-growing u (cum ∷ h) (g, gs) = elim (Option-cases (lookup u cum)) [
  | inl e ↦ ground (arith, usage-growing u h gs, add_traffic_zero (usage u h) (usage-IsWord u h))
  | inr (t, e) ↦
      ground (arith, usage-growing u h gs, add_traffic-delta t (last_reading u h) (rw e at g))
]
