-- ===== src/Tracker/Deltas.antt =====
-- What a reading adds to a counter: the deltas of `Process`, as numbers.
use yzboard_node.Prelude.{
  ℕ, ◌-◌, ◌<◌, ◌≡◌, false, arith, if◌then◌else◌, ltb, two63, two64, sub64_neg, sub64_exact,
  add64_zero, add64_lt, add64_assoc, add64_comm,
}
use yzboard_node.Tracker.{Traffic, no_traffic, add_traffic, delta, delta_traffic, moved}

-- A counter that is not negative.
pub record IsReading (t : Traffic) : Type 0 where
  pub up_nonneg : t.up < two63
  pub down_nonneg : t.down < two63

-- A bit pattern.
pub record IsWord (t : Traffic) : Type 0 where
  pub up_word : t.up < two64
  pub down_word : t.down < two64

-- Between two readings that are not negative as int64, the wrapped subtraction and its sign test give
-- their difference, or the whole of the new reading where that is the smaller one.
pub delta_exact :
    (cum prev : ℕ)
    → cum < two63
    → prev < two63
    → delta cum prev ≡ (if ltb cum prev then cum else cum - prev)
unfolding delta
delta_exact cum prev h k = ground (arith, sub64_neg cum prev h k, sub64_exact cum prev)

pub delta_lt : (cum prev : ℕ) → cum < two63 → delta cum prev < two63
unfolding delta
delta_lt cum prev h = ground arith

pub add_traffic-IsWord : (a b : Traffic) → IsWord (add_traffic a b)
unfolding add_traffic
add_traffic-IsWord a b = ground (arith, add64_lt a.up b.up, add64_lt a.down b.down)

pub add_traffic_assoc :
    (a b c : Traffic) → add_traffic (add_traffic a b) c ≡ add_traffic a (add_traffic b c)
unfolding add_traffic
add_traffic_assoc a b c = cc (add64_assoc a.up b.up c.up, add64_assoc a.down b.down c.down)

pub add_traffic_comm : (a b : Traffic) → add_traffic a b ≡ add_traffic b a
unfolding add_traffic
add_traffic_comm a b = cc (add64_comm a.up b.up, add64_comm a.down b.down)

pub add_traffic_zero : (a : Traffic) → IsWord a → add_traffic a no_traffic ≡ a
unfolding add_traffic
add_traffic_zero a h = cc (add64_zero a.up h.up_word, add64_zero a.down h.down_word)

-- Where neither counter has moved, there is nothing to add.
pub delta_traffic_still :
    (cum prev : Traffic)
    → IsReading cum
    → moved (delta_traffic cum prev) ≡ false
    → delta_traffic cum prev ≡ no_traffic
unfolding delta_traffic moved
delta_traffic_still cum prev h m =
    ground (arith, delta_lt cum.up prev.up h.up_nonneg, delta_lt cum.down prev.down h.down_nonneg)
