-- ===== src/Reporter/Tests.antt =====
-- Concrete runs of the reports of internal/service/service.go.
use yzboard_node.Prelude.{
  ℕ, ◌≡◌, refl, true, false, none, some, [], ◌∷◌, arith, nat_Eq, add64, sub64,
}
use yzboard_node.Tracker.{
  Traffic, no_traffic, add_traffic, new, process, process_user, accumulate, delta_traffic, delta,
  moved, flush_traffic, flush_alive_ips, current_online,
}
use yzboard_node.Tracker.Relay.{flush_relay_traffic, flush_relay_user_traffic}
use yzboard_node.Reporter.{
  Batch, Service, Reading, collect_traffic, track_relay_traffic, clone_relay_user_traffic,
  fresh_batch, take_report_batch, push_start, push_finish, should_skip, forget_completed_report,
  push_report_sync,
}
use yzboard_node.Reporter.History.{usage, last_reading, IsGrowing}
use yzboard_node.Reporter.World.{
  World, started, boot, booked, owed, accept, sample, push, finish, IsSample, Step, Reach,
}
use yzboard_node.Reporter.Conserve.{booked-owed, booked-settled}
use yzboard_node.Reporter.Shutdown.{
  IsDrained, IsHandedOver, taken_before, held, push_report_sync_drains,
  push_report_sync-IsHandedOver,
}

abbrev traffic : ℕ → ℕ → Traffic
traffic up down = record { up = up; down = down }

-- The kernel has counted for the users 1 and 2.
abbrev reading : Reading
reading = record {
  users = some ((1, traffic 150 50) ∷ (2, traffic 7 0) ∷ [], (1, "10.0.0.1" ∷ []) ∷ [], 3);
  relay = none;
  relay_user = none;
}

reading-IsSample : IsSample reading.users
reading-IsSample = ((refl, (refl, tt)), omega arith)

-- The batch that follows on this reading.
abbrev batch : Batch
batch = record {
  id = 1;
  traffic = (1, traffic 150 50) ∷ (2, traffic 7 0) ∷ [];
  relay_traffic = [];
  relay_user_traffic = [];
  alive = (1, "10.0.0.1" ∷ []) ∷ [];
  online = (1, 1) ∷ [];
}

abbrev sampled : World
sampled = sample boot reading

abbrev sent : World
sent = push sampled

abbrev delivered : World
delivered = record sent { panel = accept sent.panel batch }

-- The answer got lost, so that the batch is kept.
abbrev lost : World
lost = finish delivered batch false

-- The answer came.
abbrev settled : World
settled = finish delivered batch true

sampled_seq : sampled.service.report_seq ≡ 0
unfolding sample collect_traffic
sampled_seq = refl

sent_flight : sent.in_flight ≡ some batch
unfolding sample push collect_traffic track_relay_traffic process process_user accumulate
    add_traffic delta_traffic delta moved new push_start should_skip take_report_batch fresh_batch
    clone_relay_user_traffic flush_traffic flush_relay_traffic flush_relay_user_traffic
    flush_alive_ips current_online add64 sub64
sent_flight = refl

sent-Reach : Reach sent
sent-Reach =
    Reach.next (Reach.next Reach.here (Step.sampled reading reading-IsSample))
      (Step.pushed (ground (arith, sampled_seq)))

delivered-Reach : Reach delivered
delivered-Reach = Reach.next sent-Reach (Step.delivered batch sent_flight)

settled-Reach : Reach settled
unfolding push push_start sample collect_traffic should_skip
settled-Reach = Reach.next delivered-Reach (Step.finished batch true sent_flight (λ h. refl))

lost-Reach : Reach lost
lost-Reach = Reach.next delivered-Reach (Step.finished batch false sent_flight (λ h. cc))

booked-owed_example : add_traffic (booked 1 lost.panel) (owed 1 lost) ≡ usage 1 lost.history
booked-owed_example = booked-owed 1 lost-Reach

settled-owed : owed 1 settled ≡ no_traffic
unfolding finish push_finish forget_completed_report sample push collect_traffic track_relay_traffic
    process process_user accumulate add_traffic delta_traffic delta moved new push_start should_skip
    take_report_batch fresh_batch clone_relay_user_traffic flush_traffic flush_relay_traffic
    flush_relay_user_traffic flush_alive_ips current_online add64 sub64
settled-owed = refl

settled-IsGrowing : IsGrowing 1 settled.history
unfolding finish sample push collect_traffic track_relay_traffic process process_user accumulate
    add_traffic delta_traffic delta moved new push_start should_skip take_report_batch fresh_batch
    clone_relay_user_traffic flush_traffic flush_relay_traffic flush_relay_user_traffic
    flush_alive_ips current_online add64 sub64
settled-IsGrowing = omega arith

booked-settled_example : booked 1 settled.panel ≡ last_reading 1 settled.history
booked-settled_example = booked-settled 1 settled-Reach settled-IsGrowing settled-owed

-- A service that keeps a batch for a retry.
abbrev waiting : Service
waiting = record started { retry_report = some batch }

push_report_sync_drains_example :
    let s' = (collect_traffic (record waiting { push_closing = true }) reading).0 in
    let (end_state, reports) = push_report_sync (λ b. true) reading waiting in
    IsDrained end_state × (taken_before reports [] ≡ held s')
push_report_sync_drains_example = push_report_sync_drains (λ b. true) reading waiting (λ b. refl)

push_report_sync-IsHandedOver_example :
    IsHandedOver
      (collect_traffic (record waiting { push_closing = true }) reading).0
      (push_report_sync (λ b. false) reading waiting)
push_report_sync-IsHandedOver_example = push_report_sync-IsHandedOver (λ b. false) reading waiting
