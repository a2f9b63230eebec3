-- ===== src/Reporter/Invariant.antt =====
-- The invariant behind the balance of booked and owed traffic, and that the steps keep it which take
-- no batch.
use Prim.Native.String.{String}
use mathlib.Core.Path.{subst}
use yzboard_node.Prelude.{
  ℕ, ◌≤◌, ◌≡◌, sym, Bool, true, false, ◌||◌, Option, none, some, List, [], ◌∷◌, arith, Dict, lookup,
  IsMap, All, nat_Eq, Bool-cases, Option-cases, inl, inr,
}
use yzboard_node.Tracker.{Traffic, Tracker, no_traffic, add_traffic, process}
use yzboard_node.Tracker.Relay.{process_relay, process_relay_user}
use yzboard_node.Tracker.Deltas.{IsReading, add_traffic_assoc, add_traffic_comm, add_traffic_zero}
use yzboard_node.Tracker.Ledger.{counted, IsWords, growth, user_counts, process-counted}
use yzboard_node.Reporter.{
  Batch, Reading, track_relay_traffic, collect_traffic, push_finish, remember_failed_report,
  forget_completed_report,
}
use yzboard_node.Reporter.History.{last_reading, usage}
use yzboard_node.Reporter.World.{
  World, taken, accept, booked, IsSample, sample, finish, final_finish, outstanding, unbooked, owed,
}

-- The relay's counters are kept apart: their sampling leaves the users' maps alone.
pub track_relay_traffic-user_counts :
    (t : Tracker) (r : Reading) → user_counts (track_relay_traffic t r) ≡ user_counts t
unfolding track_relay_traffic process_relay process_relay_user
track_relay_traffic-user_counts t r = ground arith

abbrev pub IsAtMost : ℕ → Option Batch → Type 0
IsAtMost n none = Unit
IsAtMost n (some b) = b.id ≤ n

abbrev pub IsBelow : ℕ → List Batch → Type 0
IsBelow n [] = Unit
IsBelow n (b ∷ bs) = (b.id ≤ n) × IsBelow n bs

-- The batch on its way is the one that waits for a retry, if one waits.
abbrev pub IsSame : Option Batch → Option Batch → Type 0
IsSame none retry = Unit
IsSame (some b) none = Unit
IsSame (some b) (some r) = r.id ≡ b.id

-- While a batch is on its way the push timer sends no other.
abbrev pub IsBusy : Option Batch → Bool → Bool → Type 0
IsBusy none closing active = Unit
IsBusy (some b) closing active = (closing || active) ≡ true

pub record IsBalanced (u : ℕ) (w : World) : Type 0 where
  pub balance : add_traffic (booked u w.panel) (owed u w) ≡ usage u w.history
  pub seen : counted u w.service.tracker.last_seen ≡ last_reading u w.history
  pub words : IsWords w.service.tracker.pending_traffic
  pub ids : IsBelow w.service.report_seq w.panel
  pub id : IsAtMost w.service.report_seq (outstanding w.in_flight w.service.retry_report)
  pub same : IsSame w.in_flight w.service.retry_report
  pub busy : IsBusy w.in_flight w.service.push_closing w.service.push_active

sample-none : (w : World) (r : Reading) → r.users ≡ none → sample w r ≡ w
unfolding sample collect_traffic
sample-none w r e = ground arith

sample_users :
    (w : World) (r : Reading) (cum : Dict ℕ Traffic) (ips : Dict ℕ (List String)) (n : ℕ)
    → r.users ≡ some (cum, ips, n)
    → sample w r ≡ record w {
      service = record (w.service) {
        tracker = track_relay_traffic (process w.service.tracker cum ips n) r;
      };
      history = cum ∷ w.history;
    }
unfolding sample collect_traffic
sample_users w r cum ips n e = ground arith

module _ (u : ℕ) (w : World) (v : IsBalanced u w) where
  counted_sample :
      (cum : Dict ℕ Traffic) (ips : Dict ℕ (List String)) (n : ℕ) (r : Reading)
      → IsMap cum × All (λ e. IsReading e.1) cum
      → IsBalanced u (record w {
        service = record (w.service) {
          tracker = track_relay_traffic (process w.service.tracker cum ips n) r;
        };
        history = cum ∷ w.history;
      })
  counted_sample cum ips n r (i, rs) =
      let t = process w.service.tracker cum ips n in
      let (last, pending, words) = process-counted w.service.tracker cum ips n u i v.words rs in
      let e = track_relay_traffic-user_counts t r in
      let g = growth (counted u w.service.tracker.last_seen) (lookup u cum) in
      record {
        balance = cc (
          v.balance,
          v.seen,
          pending,
          add_traffic_assoc (booked u w.panel) (owed u w) g,
          add_traffic_assoc (unbooked u (outstanding w.in_flight w.service.retry_report) w.panel)
              (counted u w.service.tracker.pending_traffic) g,
        );
        seen = cc (v.seen, last);
        words = subst (λ c. IsWords c.pending) (sym e) words;
        ids = v.ids;
        id = v.id;
        same = v.same;
        busy = v.busy;
      }

  pub sample-IsBalanced : (r : Reading) → IsSample r.users → IsBalanced u (sample w r)
  unfolding sample collect_traffic
  sample-IsBalanced r h = elim (Option-cases r.users) [
    | inl e ↦ subst (IsBalanced u) (sym (sample-none w r e)) v
    | inr ((cum, ips, n), e) ↦
        subst (IsBalanced u) (sym (sample_users w r cum ips n e))
          (counted_sample cum ips n r (rw e at h))
  ]

  pub deliver-IsBalanced :
      (b : Batch) → w.in_flight ≡ some b → IsBalanced u (record w { panel = accept w.panel b })
  deliver-IsBalanced b e = elim (Bool-cases (taken b.id w.panel)) [
    | inl known ↦ rw known v
    | inr fresh ↦ record {
      balance = ground (
        arith,
        v.balance,
        add_traffic_assoc (booked u w.panel) (counted u b.traffic)
            (counted u w.service.tracker.pending_traffic),
        add_traffic_zero (counted u w.service.tracker.pending_traffic) (v.words u),
        add_traffic_comm no_traffic (counted u w.service.tracker.pending_traffic),
      );
      seen = v.seen;
      words = v.words;
      ids = ground (arith, v.ids, v.id);
      id = v.id;
      same = v.same;
      busy = v.busy;
    }
  ]

  pub finish-IsBalanced :
      (b : Batch) (done : Bool)
      → w.in_flight ≡ some b
      → (done ≡ true → taken b.id w.panel ≡ true)
      → IsBalanced u (finish w b done)
  unfolding finish push_finish forget_completed_report remember_failed_report
  finish-IsBalanced b true e h = record {
    balance = ground (arith, v.balance, v.same);
    seen = v.seen;
    words = v.words;
    ids = v.ids;
    id = ground (arith, v.same, v.id);
    same = tt;
    busy = tt;
  }
  finish-IsBalanced b false e h = record {
    balance = ground (arith, v.balance, v.same);
    seen = v.seen;
    words = v.words;
    ids = v.ids;
    id = ground (arith, v.same, v.id);
    same = tt;
    busy = tt;
  }

  pub final_finish-IsBalanced :
      (b : Batch) (done : Bool)
      → w.in_flight ≡ some b
      → (done ≡ true → taken b.id w.panel ≡ true)
      → IsBalanced u (final_finish w b done)
  unfolding final_finish finish push_finish forget_completed_report remember_failed_report
  final_finish-IsBalanced b true e h =
      let f = finish-IsBalanced b true e h in
      record {
        balance = f.balance;
        seen = f.seen;
        words = f.words;
        ids = f.ids;
        id = f.id;
        same = tt;
        busy = tt;
      }
  final_finish-IsBalanced b false e h =
      let f = finish-IsBalanced b false e h in
      record {
        balance = f.balance;
        seen = f.seen;
        words = f.words;
        ids = f.ids;
        id = f.id;
        same = tt;
        busy = tt;
      }

  pub close-IsBalanced :
      IsBalanced u (record w { service = record (w.service) { push_closing = true } })
  close-IsBalanced = ground arith
