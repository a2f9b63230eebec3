-- ===== src/Reporter/World.antt =====
-- The node's reports and the panel, as a system that takes one step at a time. The push runs beside
-- the main loop, so that readings come in between; an answer may get lost, so that a push which the
-- panel took fails at the node. The panel takes a report id once.
use Prim.Native.String.{String}
use yzboard_node.Prelude.{
  ℕ, ◌+◌, ◌<◌, ◌≡◌, Bool, true, false, Option, none, some, List, [], ◌∷◌, Dict, All, IsMap, nat_Eq,
  nat_eq, two64, if◌then◌else◌,
}
use yzboard_node.Tracker.{Traffic, no_traffic, add_traffic, new}
use yzboard_node.Tracker.Deltas.{IsReading}
use yzboard_node.Tracker.Ledger.{counted}
use yzboard_node.Reporter.{
  Batch, Service, Reading, collect_traffic, push_start, push_finish, take_report_batch,
  remember_failed_report, forget_completed_report,
}

pub record World : Type 0 where
  pub service : Service
  pub in_flight : Option Batch
  -- The batches that the panel has taken, the latest first.
  pub panel : List Batch
  pub history : List (Dict ℕ Traffic)

abbrev pub started : Service
started = record {
  tracker = new;
  retry_report = none;
  report_seq = 0;
  push_closing = false;
  push_active = false;
  skip_remaining = 0;
}

abbrev pub boot : World
boot = record { service = started; in_flight = none; panel = []; history = [] }

-- Whether the panel has taken the id.
abbrev pub taken : ℕ → List Batch → Bool
taken n [] = false
taken n (b ∷ bs) = if nat_eq b.id n then true else taken n bs

-- The panel takes a batch whose id it does not know.
abbrev pub accept : List Batch → Batch → List Batch
accept bs b = if taken b.id bs then bs else b ∷ bs

-- What the panel has booked for the user `u`.
abbrev pub booked : ℕ → List Batch → Traffic
booked u [] = no_traffic
booked u (b ∷ bs) = add_traffic (booked u bs) (counted u b.traffic)

-- The user counters of a sampling enter the history.
abbrev pub record_reading :
    Option (Dict ℕ Traffic × Dict ℕ (List String) × ℕ)
    → List (Dict ℕ Traffic)
    → List (Dict ℕ Traffic)
record_reading none h = h
record_reading (some (traffic, alive_ips, conn_count)) h = traffic ∷ h

-- The kernel gives a Go map, of counters that are not negative.
abbrev pub IsSample : Option (Dict ℕ Traffic × Dict ℕ (List String) × ℕ) → Type 0
IsSample none = Unit
IsSample (some (traffic, alive_ips, conn_count)) = IsMap traffic × All (λ e. IsReading e.1) traffic

-- One round of sampling.
unfoldable pub sample : World → Reading → World
sample w r = record w {
  service = (collect_traffic w.service r).0;
  history = record_reading r.users w.history;
}

-- The batch that a push sends goes on its way.
abbrev pub send : World → Service × Option Batch → World
send w (s, none) = record w { service = s }
send w (s, some b) = record w { service = s; in_flight = some b }

-- A tick of the push timer.
unfoldable pub push : World → World
push w = send w (push_start w.service)

-- `Report` returns to the goroutine of `pushReportAsync`.
unfoldable pub finish : World → Batch → Bool → World
finish w b done = record w { service = push_finish w.service b done; in_flight = none }

-- `pushReportSync` takes a batch, and hears of it.
unfoldable pub final_take : World → World
final_take w =
    let (s, b) = take_report_batch w.service in record w { service = s; in_flight = some b }

unfoldable pub final_finish : World → Batch → Bool → World
final_finish w b done = record w {
  service =
      if done then forget_completed_report w.service b else remember_failed_report w.service b;
  in_flight = none;
}

-- The sequence number does not wrap around within one boot: `report_seq + 1 < two64`.
pub data Step (w : World) : World → Type 0 where
  sampled : (r : Reading) → IsSample r.users → Step w (sample w r)
  pushed : w.service.report_seq + 1 < two64 → Step w (push w)
  delivered : (b : Batch) → w.in_flight ≡ some b → Step w (record w { panel = accept w.panel b })
  finished :
      (b : Batch) (done : Bool)
      → w.in_flight ≡ some b
      → (done ≡ true → taken b.id w.panel ≡ true)
      → Step w (finish w b done)
  closed : Step w (record w { service = record (w.service) { push_closing = true } })
  final_taken :
      w.service.push_closing ≡ true
      → w.in_flight ≡ none
      → w.service.report_seq + 1 < two64
      → Step w (final_take w)
  final_finished :
      (b : Batch) (done : Bool)
      → w.in_flight ≡ some b
      → (done ≡ true → taken b.id w.panel ≡ true)
      → Step w (final_finish w b done)

-- What can follow on a boot.
pub data Reach : World → Type 0 where
  here : Reach boot
  next : {v w : World} → Reach v → Step v w → Reach w

-- The batch that the panel may not have taken yet.
abbrev pub outstanding : Option Batch → Option Batch → Option Batch
outstanding none retry = retry
outstanding (some b) retry = some b

-- What of it is still to be booked for the user `u`.
abbrev pub unbooked : ℕ → Option Batch → List Batch → Traffic
unbooked u none panel = no_traffic
unbooked u (some b) panel = if taken b.id panel then no_traffic else counted u b.traffic

-- What the node still owes the panel for the user `u`.
abbrev pub owed : ℕ → World → Traffic
owed u w =
    add_traffic (unbooked u (outstanding w.in_flight w.service.retry_report) w.panel)
      (counted u w.service.tracker.pending_traffic)
