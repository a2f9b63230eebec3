-- ===== src/Reporter.antt =====
-- The reports of internal/service/service.go: traffic is collected from the kernel, flushed into
-- batches with an id, pushed to the panel, and kept for a retry under the same id if the push fails.
pub mod History
pub mod World
pub mod Invariant
pub mod Conserve
pub mod Shutdown
mod Tests
use Prim.Native.String.{String}
use yzboard_node.Prelude.{
  ℕ, zero, suc, ◌+◌, ◌*◌, ◌%◌, Bool, true, false, not, ◌||◌, Option, none, some, List, [], ◌∷◌, ltb,
  leb, if◌then◌else◌, Dict, two64, length, ◌==◌, nat_Eq,
}
use yzboard_node.Tracker.{Traffic, Tracker, process, flush_traffic, flush_alive_ips, current_online}
use yzboard_node.Tracker.Relay.{
  process_relay, process_relay_user, flush_relay_traffic, flush_relay_user_traffic,
}

-- `reportBatch`. Within one boot the id is the sequence number; CPU, memory and the other metrics of
-- the payload are left out.
pub record Batch : Type 0 where
  pub id : ℕ
  pub traffic : Dict ℕ Traffic
  pub relay_traffic : Dict ℕ Traffic
  pub relay_user_traffic : Dict ℕ (Dict ℕ Traffic)
  pub alive : Dict ℕ (List String)
  pub online : Dict ℕ ℕ

-- The fields of `Service` that take part in reporting.
pub record Service : Type 0 where
  pub tracker : Tracker
  pub retry_report : Option Batch
  pub report_seq : ℕ
  pub push_closing : Bool
  pub push_active : Bool
  pub skip_remaining : ℕ

-- `apiBackoff.shouldSkip`: the new state and the answer.
unfoldable pub should_skip : ℕ → ℕ × Bool
should_skip zero = (0, false)
should_skip (suc n) = (n, true)

-- `apiBackoff.onFailure`
unfoldable pub on_failure : ℕ → ℕ
on_failure skip = if leb skip 0 then 1 else if ltb skip 8 then skip * 2 else skip

-- What the kernel answers to one round of sampling: nothing where it fails, or where it does not
-- offer the relay counters.
pub record Reading : Type 0 where
  pub users : Option (Dict ℕ Traffic × Dict ℕ (List String) × ℕ)
  pub relay : Option (Dict ℕ Traffic)
  pub relay_user : Option (Dict ℕ (Dict ℕ Traffic))

-- `trackRelayTraffic`
unfoldable pub track_relay_traffic : Tracker → Reading → Tracker
track_relay_traffic t r = elim (r.relay) [
  | none ↦ t
  | some relay ↦ elim (r.relay_user) [
    | none ↦ process_relay t relay
    | some users ↦ process_relay_user (process_relay t relay) users
  ]
]

-- `collectTraffic`: the connection count and the number of users, or nothing on an error.
unfoldable pub collect_traffic : Service → Reading → Service × Option (ℕ × ℕ)
collect_traffic s r = elim (r.users) [
  | none ↦ (s, none)
  | some (traffic, alive_ips, conn_count) ↦ (
    record s { tracker = track_relay_traffic (process s.tracker traffic alive_ips conn_count) r },
    some (conn_count, length traffic),
  )
]

-- `cloneRelayUserTraffic`, which drops the users with no nodes.
unfoldable pub clone_relay_user_traffic : Dict ℕ (Dict ℕ Traffic) → Dict ℕ (Dict ℕ Traffic)
clone_relay_user_traffic [] = []
clone_relay_user_traffic ((uid, []) ∷ src) = clone_relay_user_traffic src
clone_relay_user_traffic ((uid, node ∷ nodes) ∷ src) =
    (uid, node ∷ nodes) ∷ clone_relay_user_traffic src

-- `takeReportBatch` where no failed batch waits: the tracker is flushed under the next id.
unfoldable pub fresh_batch : Service → Service × Batch
unfolding clone_relay_user_traffic
fresh_batch s =
    let (t1, traffic) = flush_traffic s.tracker in
    let (t2, relay) = flush_relay_traffic t1 in
    let (t3, relay_user) = flush_relay_user_traffic t2 in
    let seq = (s.report_seq + 1) % two64 in
    (
      record s { tracker = t3; report_seq = seq },
      record {
        id = seq;
        traffic = traffic;
        relay_traffic = relay;
        relay_user_traffic = clone_relay_user_traffic relay_user;
        alive = flush_alive_ips t3;
        online = current_online t3;
      },
    )

unfoldable pub take_report_batch : Service → Service × Batch
take_report_batch s = elim (s.retry_report) [ some batch ↦ (s, batch) | none ↦ fresh_batch s ]

-- `pushReportAsync` up to the start of the goroutine: the batch that it sends, if it sends one. The
-- sink supports reporting.
unfoldable pub push_start : Service → Service × Option Batch
push_start s =
    if s.push_closing || s.push_active
    then (s, none)
    else if (should_skip s.skip_remaining).1
    then (record s { skip_remaining = (should_skip s.skip_remaining).0 }, none)
    else let (s', batch) = take_report_batch s in
      (
        record s' { push_active = true; skip_remaining = (should_skip s.skip_remaining).0 },
        some batch,
      )

-- `rememberFailedReport`
unfoldable pub remember_failed_report : Service → Batch → Service
remember_failed_report s batch = record s { retry_report = some batch }

-- `forgetCompletedReport`, which compares the pointers of two batches: those of one boot differ by
-- their ids.
unfoldable pub forget_completed_report : Service → Batch → Service
forget_completed_report s batch = record s {
  retry_report = elim (s.retry_report) [
    | none ↦ none
    | some r ↦ if r.id == batch.id then none else some r
  ];
}

-- The goroutine of `pushReportAsync`, once `Report` has returned: with no error where `done` is true.
unfoldable pub push_finish : Service → Batch → Bool → Service
push_finish s batch done =
    let s' =
      if done
      then record (forget_completed_report s batch) { skip_remaining = 0 }
      else record (remember_failed_report s batch) {
        skip_remaining = on_failure s.skip_remaining;
      } in
    record s' { push_active = false }

-- The loop at the end of `pushReportSync` over the batches left: the final state, and the batches
-- handed to `Report` with what it answered.
unfoldable pub final_reports : (Batch → Bool) → ℕ → Service → Service × List (Batch × Bool)
final_reports report zero s = (s, [])
final_reports report (suc n) s =
    let taken = take_report_batch s in
    let rest = final_reports report n (forget_completed_report taken.0 taken.1) in
    if report taken.1
    then (rest.0, (taken.1, true) ∷ rest.1)
    else (remember_failed_report taken.0 taken.1, (taken.1, false) ∷ [])

-- One batch, and one more where a failed one waits.
abbrev pub batch_count : Option Batch → ℕ
batch_count none = 1
batch_count (some b) = 2

-- `pushReportSync`, once no push is in flight. The sink supports reporting.
unfoldable pub push_report_sync : (Batch → Bool) → Reading → Service → Service × List (Batch × Bool)
unfolding final_reports
push_report_sync report r s =
    let s' = (collect_traffic (record s { push_closing = true }) r).0 in
    final_reports report (batch_count s'.retry_report) s'
