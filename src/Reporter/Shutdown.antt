-- ===== src/Reporter/Shutdown.antt =====
-- The last reports of a node that shuts down.
use mathlib.Core.Path.{subst}
use yzboard_node.Prelude.{
  ℕ, ◌≡◌, refl, sym, ap, ◌⊎◌, Bool, true, false, Option, none, some, List, [], ◌∷◌, ◌++◌, Dict,
  arith, Option-cases, Bool-cases, inl, inr,
}
use yzboard_node.Tracker.{Traffic, Tracker, flush_traffic}
use yzboard_node.Tracker.Relay.{flush_relay_traffic, flush_relay_user_traffic}
use yzboard_node.Reporter.{
  Batch, Service, Reading, collect_traffic, clone_relay_user_traffic, fresh_batch,
  take_report_batch, forget_completed_report, remember_failed_report, final_reports,
  push_report_sync, batch_count,
}

-- Traffic to report: by user, by node, and the entries by user and node.
abbrev pub Parcel : Type 0
Parcel = Dict ℕ Traffic × Dict ℕ Traffic × List (ℕ × ℕ × Traffic)

-- The nodes of one user, before the entries of the others.
abbrev pub entries_of : ℕ → Dict ℕ Traffic → List (ℕ × ℕ × Traffic) → List (ℕ × ℕ × Traffic)
entries_of uid [] rest = rest
entries_of uid ((n, x) ∷ nodes) rest = (uid, n, x) ∷ entries_of uid nodes rest

abbrev pub entries : Dict ℕ (Dict ℕ Traffic) → List (ℕ × ℕ × Traffic)
entries [] = []
entries ((uid, nodes) ∷ m) = entries_of uid nodes (entries m)

-- What a batch says.
abbrev pub parcel : Batch → Parcel
parcel b = (b.traffic, b.relay_traffic, entries b.relay_user_traffic)

-- What the tracker holds.
abbrev pub pending_parcel : Tracker → Parcel
pending_parcel t = (t.pending_traffic, t.pending_relay, entries t.pending_relay_user)

abbrev pub no_parcel : Parcel
no_parcel = ([], [], [])

abbrev pub waiting_before : Option Batch → List Parcel → List Parcel
waiting_before none rest = rest
waiting_before (some b) rest = parcel b ∷ rest

-- All that the panel has not taken: the batch that waits for a retry, then what the tracker holds.
abbrev pub held : Service → List Parcel
held s = waiting_before s.retry_report (pending_parcel s.tracker ∷ [])

-- The reports that the panel took, before the rest.
abbrev pub taken_before : List (Batch × Bool) → List Parcel → List Parcel
taken_before [] rest = rest
taken_before ((b, true) ∷ sent) rest = parcel b ∷ taken_before sent rest
taken_before ((b, false) ∷ sent) rest = taken_before sent rest

-- The batch that the panel refused.
abbrev pub refused : List (Batch × Bool) → Option Batch
refused [] = none
refused ((b, true) ∷ sent) = refused sent
refused ((b, false) ∷ sent) = some b

entries-clone : (m : Dict ℕ (Dict ℕ Traffic)) → entries (clone_relay_user_traffic m) ≡ entries m
unfolding clone_relay_user_traffic
entries-clone [] = refl
entries-clone ((uid, []) ∷ m) = entries-clone m
entries-clone ((uid, (n, x) ∷ nodes) ∷ m) =
    ap (λ rest. (uid, n, x) ∷ entries_of uid nodes rest) (entries-clone m)

-- What the last reports leave of what was held: they take and hold it together, in its order, with an
-- empty tracker behind it if the tracker was flushed; a batch waits exactly if the panel refused it.
abbrev pub IsHandedOver : Service → Service × List (Batch × Bool) → Type 0
IsHandedOver s (s', sent) =
    (s'.retry_report ≡ refused sent)
    × ((taken_before sent (held s') ≡ held s)
        ⊎ (taken_before sent (held s') ≡ held s ++ no_parcel ∷ []))

-- The one report where no batch waits.
fresh_report-IsHandedOver :
    (report : Batch → Bool) (s : Service)
    → s.retry_report ≡ none
    → IsHandedOver s (final_reports report 1 s)
unfolding final_reports take_report_batch fresh_batch forget_completed_report remember_failed_report
    flush_traffic flush_relay_traffic flush_relay_user_traffic
fresh_report-IsHandedOver report s e =
    let clone = entries-clone s.tracker.pending_relay_user in
    elim (Bool-cases (report (fresh_batch s).1)) [
      | inl taken ↦ (ground (arith, e, taken), inr (ground (arith, e, taken, clone)))
      | inr bad ↦ (ground (arith, e, bad), inr (ground (arith, e, bad, clone)))
    ]

-- What the second report leaves is what both leave, behind the batch that the first one handed over.
waiting_report-IsHandedOver :
    (report : Batch → Bool) (s : Service) (r : Batch)
    → s.retry_report ≡ some r
    → IsHandedOver s (final_reports report 2 s)
unfolding final_reports take_report_batch fresh_batch forget_completed_report remember_failed_report
    flush_traffic flush_relay_traffic flush_relay_user_traffic
waiting_report-IsHandedOver report s r e =
    let clone = entries-clone s.tracker.pending_relay_user in
    elim (Bool-cases (report r)) [
      | inr bad ↦ (ground (arith, e, bad), inl (ground (arith, e, bad)))
      | inl taken ↦ elim (Bool-cases (report (fresh_batch (forget_completed_report s r)).1)) [
        | inl both ↦ (ground (arith, e, taken, both), inr (ground (arith, e, taken, both, clone)))
        | inr bad ↦ (ground (arith, e, taken, bad), inr (ground (arith, e, taken, bad, clone)))
      ]
    ]

final_reports-IsHandedOver :
    (report : Batch → Bool) (s : Service)
    → IsHandedOver s (final_reports report (batch_count s.retry_report) s)
final_reports-IsHandedOver report s = elim (Option-cases s.retry_report) [
  | inl e ↦
      subst (λ o. IsHandedOver s (final_reports report (batch_count o) s)) (sym e)
        (fresh_report-IsHandedOver report s e)
  | inr (r, e) ↦
      subst (λ o. IsHandedOver s (final_reports report (batch_count o) s)) (sym e)
        (waiting_report-IsHandedOver report s r e)
]

-- Nothing is left to report.
pub record IsDrained (s : Service) : Type 0 where
  pub retry : s.retry_report ≡ none
  pub users : s.tracker.pending_traffic ≡ []
  pub relay : s.tracker.pending_relay ≡ []
  pub relay_users : s.tracker.pending_relay_user ≡ []

final_reports_drain :
    (report : Batch → Bool) (s : Service)
    → ((b : Batch) → report b ≡ true)
    → let (end_state, sent) = final_reports report (batch_count s.retry_report) s in
      IsDrained end_state × (taken_before sent [] ≡ held s)
unfolding final_reports take_report_batch fresh_batch forget_completed_report flush_traffic
    flush_relay_traffic flush_relay_user_traffic
final_reports_drain report s h =
    let clone = entries-clone s.tracker.pending_relay_user in
    elim (Option-cases s.retry_report) [
      | inl e ↦ ground (arith, h (fresh_batch s).1, clone)
      | inr (r, e) ↦ ground (arith, h r, h (fresh_batch (forget_completed_report s r)).1, clone)
    ]

-- If the panel takes every report, what it takes from `pushReportSync` is the batch that waited for a
-- retry, if one did, and then all that the tracker holds after one last sampling, of users, nodes, and
-- users by node; nothing is left to report.
pub push_report_sync_drains :
    (report : Batch → Bool) (r : Reading) (s : Service)
    → ((b : Batch) → report b ≡ true)
    → let s' = (collect_traffic (record s { push_closing = true }) r).0 in
      let (end_state, sent) = push_report_sync report r s in
      IsDrained end_state × (taken_before sent [] ≡ held s')
unfolding push_report_sync
push_report_sync_drains report r s h = final_reports_drain report _ h

-- Whatever the panel takes or refuses, `pushReportSync` loses nothing and hands nothing over twice: what
-- the panel took, the batch that then waits, and what the tracker then holds are together, and in this
-- order, the batch that waited and what the tracker held after one last sampling, with an empty tracker
-- behind them if it was flushed. A batch waits in the end exactly if the panel refused one, and it is that
-- one.
pub push_report_sync-IsHandedOver :
    (report : Batch → Bool) (r : Reading) (s : Service)
    → IsHandedOver
        (collect_traffic (record s { push_closing = true }) r).0
        (push_report_sync report r s)
unfolding push_report_sync
push_report_sync-IsHandedOver report r s = final_reports-IsHandedOver report _
