-- ===== src/Runtime/Events.antt =====
-- internal/service/service.go: the cases of the main loop in `Run`, and what they call.
use Prim.Native.String.{String}
use yzboard_node.Prelude.{
  ℕ, ◌+◌, ◌-◌, Bool, true, false, not, ◌&&◌, ◌||◌, Option, none, some, List, [], if◌then◌else◌, ltb,
  ◌==◌, string_Eq, Outcome, ok, err,
}
use yzboard_node.Users.{UserSpec, Slice, elements}
use yzboard_node.Model.{NodeSpec}
use yzboard_node.Limiter
use yzboard_node.Limiter.Speed.{new_speed_tracker}
use yzboard_node.Mailbox.{
  NodeMailbox, EventType, Event, MailboxState, sync_config, sync_users, sync_user_delta,
  sync_devices, other, seed_baseline, mark_ready, drain_if_ready,
}
use yzboard_node.Runtime.{
  Parts, Config, Service, RuntimeStatus, starting, PullResult, idle, polling, sending, config_hash,
  user_hash,
}
use yzboard_node.Runtime.Backoff.{should_skip, on_success, on_failure}
use yzboard_node.Runtime.Apply.{
  is_set, no_users, apply_changes, apply_config_update, apply_user_update, apply_user_delta,
  prepare_user_state, fail_runtime, notify_status,
}

-- What `newService` makes, from the first states of the parts.
unfoldable pub new_service :
    {w : Parts} → Config → w.kernel.State → w.certs.State → Option w.firewall.State → Service w
new_service {w} cfg kernel cert firewall = record {
  cfg = cfg;
  kernel = kernel;
  cert = cert;
  firewall = firewall;
  limiter = Limiter.new;
  speed_tracker = new_speed_tracker w.rate;
  last_config = none;
  last_users = [];
  last_config_hash = "";
  last_user_hash = "";
  failed_runtime_hash = none;
  runtime_error = false;
  applied_config = none;
  applied_users = [];
  time_usage = false;
  status = starting;
  poll_resets = 0;
  ws_client = false;
  ws_running = false;
  ws_disconnect_at = none;
  ws_resync_pending = false;
  pull = idle;
  pull_backoff = 0;
  pull_results = none;
  mailbox = none;
}

-- What `Poll` gives.
pub record Snapshot : Type 0 where
  pub config : Option NodeSpec
  pub users : Slice UserSpec

-- What `Initial` gives, without the intervals of the tickers.
pub record Bootstrap : Type 0 where
  pub has_push : Bool
  pub mailbox : Option (NodeMailbox NodeSpec)
  pub config : Option NodeSpec
  pub users : Slice UserSpec

-- The event of a part of the drained state.
abbrev pub event_of : EventType → MailboxState NodeSpec → Event NodeSpec
event_of type state = record {
  type = type;
  config = state.config;
  users = state.users;
  delta_action = "";
  delta_users = [];
  device_users = state.device_users;
}

module _ (w : Parts) where
  -- The configuration of a result.
  abbrev pub changed_config : String → Bool → Option NodeSpec → Option NodeSpec
  changed_config current cert_changed none = none
  changed_config current cert_changed (some c) =
      if config_hash w (some c) == current && not cert_changed then none else some c

  abbrev pub users_hash_of : Slice UserSpec → String
  users_hash_of none = ""
  users_hash_of (some users) = user_hash w users

  unfoldable pub pull_result : String → Bool → Snapshot → PullResult
  pull_result current cert_changed snapshot = record {
    config = changed_config current cert_changed snapshot.config;
    users = snapshot.users;
    config_hash = config_hash w snapshot.config;
    user_hash = users_hash_of snapshot.users;
    cert_changed = cert_changed;
  }

module _ {w : Parts} where
  -- `resetPollingState`
  unfoldable pub reset_polling_state : Service w → Service w
  reset_polling_state s = record s { poll_resets = s.poll_resets + 1 }

  abbrev pub or_reset : Service w × Bool → Service w
  or_reset (s, true) = s
  or_reset (s, false) = reset_polling_state s

  -- The cases of `handleWSEvent`.
  abbrev pub on_sync_config : Option NodeSpec → Service w → Service w
  on_sync_config none s = s
  on_sync_config (some c) s =
      let hash = config_hash w (some c) in
      if hash == s.last_config_hash then s else or_reset (apply_config_update c hash s)

  abbrev pub on_sync_users : Slice UserSpec → Service w → Service w
  on_sync_users none s = s
  on_sync_users (some users) s =
      let hash = user_hash w users in
      if hash == s.last_user_hash then s else or_reset (apply_user_update users hash s)

  abbrev pub on_user_delta : String → List UserSpec → Service w → Service w
  on_user_delta action delta s =
      if no_users delta then s else or_reset (apply_user_delta action delta s)

  abbrev pub on_sync_devices : Option (List (ℕ × List String)) → Service w → Service w
  on_sync_devices none s = s
  on_sync_devices (some users) s = record s {
    kernel = w.kernel.update_global_devices s.kernel users;
  }

  -- `handleWSEvent`
  unfoldable pub handle_ws_event : Event NodeSpec → Service w → Service w
  handle_ws_event event s = elim (event.type) [
    | sync_config ↦ on_sync_config event.config s
    | sync_users ↦ on_sync_users event.users s
    | sync_user_delta ↦ on_user_delta event.delta_action event.delta_users s
    | sync_devices ↦ on_sync_devices event.device_users s
    | other ↦ s
  ]

  -- `pullViaAPIAsync` up to the start of its goroutine.
  unfoldable pub pull_via_api_async : Service w → Service w
  pull_via_api_async s = elim (s.pull) [
    | idle ↦
        let skip = should_skip s.pull_backoff in
        if not w.supports_polling
        then s
        else if skip.1
        then record s { pull_backoff = skip.0 }
        else record s { pull = polling s.last_config_hash; pull_backoff = skip.0 }
    | _ ↦ s
  ]

  -- The goroutine has the panel's answer: a failure, or a snapshot.
  abbrev pub on_answer : String → Outcome (Unit {0}) Snapshot → Service w → Service w
  on_answer current (err e) s = record s { pull = idle; pull_backoff = on_failure s.pull_backoff }
  on_answer current (ok snapshot) s =
      let renewed = w.certs.cert_renewed s.cert in
      record s {
        pull = sending (pull_result w current renewed.1 snapshot);
        pull_backoff = on_success s.pull_backoff;
        cert = renewed.0;
      }

  unfoldable pub pull_answer : Outcome (Unit {0}) Snapshot → Service w → Service w
  pull_answer answer s = elim (s.pull) [ polling current ↦ on_answer current answer s | _ ↦ s ]

  -- The goroutine sends its result, where the channel has room.
  unfoldable pub pull_send : Service w → Service w
  pull_send s = elim (s.pull) [
    | sending result ↦
        if is_set s.pull_results then s else record s { pull = idle; pull_results = some result }
    | _ ↦ s
  ]

  abbrev pub users_changed : Slice UserSpec → String → Service w → Bool
  users_changed none hash s = false
  users_changed (some users) hash s = not (hash == s.last_user_hash)

  abbrev pub update_if : Bool → List UserSpec → String → Service w → Service w
  update_if false users hash s = s
  update_if true users hash s = or_reset (apply_user_update users hash s)

  abbrev pub prepare_if : Bool → List UserSpec → Service w → Service w
  prepare_if false users s = s
  prepare_if true users s = prepare_user_state users s

  abbrev pub apply_config_or_changes : Option NodeSpec → String → Service w → Service w × Bool
  apply_config_or_changes none hash s = apply_changes s
  apply_config_or_changes (some c) hash s = apply_config_update c hash s

  -- The end of `applyPullResult`.
  abbrev pub keep_user_hash : Bool → String → Service w × Bool → Service w
  keep_user_hash changed hash (s, false) = reset_polling_state s
  keep_user_hash changed hash (s, true) = if changed then record s { last_user_hash = hash } else s

  -- `applyPullResult`
  unfoldable pub apply_pull_result : PullResult → Service w → Service w
  apply_pull_result r s =
      let s0 = record s { ws_resync_pending = false } in
      let changed = users_changed r.users r.user_hash s0 in
      if not (is_set r.config || r.cert_changed)
      then update_if changed (elements r.users) r.user_hash s0
      else keep_user_hash changed r.user_hash (
          apply_config_or_changes r.config r.config_hash (prepare_if changed (elements r.users) s0))

  -- `case result := <-s.pullResults`
  unfoldable pub pull_receive : Service w → Service w
  pull_receive s = elim (s.pull_results) [
    | none ↦ s
    | some r ↦ apply_pull_result r (record s { pull_results = none })
  ]

  -- `requestWSResync`
  unfoldable pub request_ws_resync : Service w → Service w
  request_ws_resync s =
      if s.ws_resync_pending then s else pull_via_api_async (record s { ws_resync_pending = true })

  unfoldable pub handle_state : MailboxState NodeSpec → Service w → Service w
  handle_state state s =
      let s1 = if state.has_config then handle_ws_event (event_of sync_config state) s else s in
      let s2 = if state.has_users then handle_ws_event (event_of sync_users state) s1 else s1 in
      let s3 = if state.has_devices then handle_ws_event (event_of sync_devices state) s2 else s2 in
      if state.needs_reconcile then request_ws_resync s3 else s3

  -- `drainMachineMailbox`
  unfoldable pub drain_machine_mailbox : Service w → Service w
  drain_machine_mailbox s = elim (s.mailbox) [
    | none ↦ s
    | some m ↦
        let drained = drain_if_ready m in
        handle_state drained.1 (record s { mailbox = some drained.0 })
  ]

  -- `markMailboxReadyAndDrain`
  unfoldable pub mark_mailbox_ready : Service w → Service w
  mark_mailbox_ready s = elim (s.mailbox) [
    | none ↦ s
    | some m ↦ drain_machine_mailbox (record s {
      mailbox = some (mark_ready (seed_baseline (some s.last_users) s.last_config m));
    })
  ]

  -- `handleWSStatus`
  unfoldable pub handle_ws_status : Bool → Bool → ℕ → Service w → Service w
  handle_ws_status needs_resync connected now s =
      let s1 = if needs_resync then request_ws_resync s else s in
      if connected
      then pull_via_api_async (record s1 { ws_disconnect_at = none })
      else pull_via_api_async (record s1 {
        ws_disconnect_at = some (elim (s1.ws_disconnect_at) [ none ↦ now | some since ↦ since ]);
        kernel = w.kernel.clear_global_devices s1.kernel;
      })

  -- `needsCheck` of `wsDiscovery`, in seconds.
  abbrev pub needs_check : Service w → ℕ → Bool
  needs_check s now =
      if not s.ws_client
      then true
      else elim (s.ws_disconnect_at) [ none ↦ false | some since ↦ ltb 600 (now - since) ]

  -- What `Discover` comes to: an error, or whether there is a push client.
  abbrev pub on_discover : Outcome (Unit {0}) Bool → Service w → Service w
  on_discover (err e) s = s
  on_discover (ok found) s =
      let s1 = pull_via_api_async s in
      if found
      then (if s1.ws_client
          then s1
          else record s1 { ws_client = true; ws_disconnect_at = none; ws_running = true })
      else if s1.ws_client
      then record s1 { ws_client = false; ws_disconnect_at = none; ws_running = false }
      else s1

  -- `wsDiscovery`
  unfoldable pub ws_discovery : Outcome (Unit {0}) Bool → ℕ → Service w → Service w
  ws_discovery answer now s =
      if not w.supports_discovery then s else if needs_check s now then on_discover answer s else s

  -- The first half of `trackAndEnforce`; the second is that of the traffic.
  unfoldable pub enforce : Service w → Service w
  enforce s =
      if is_set s.applied_config && not (w.kernel.is_running s.kernel)
      then fail_runtime s.last_config s.last_users s
      else s

  -- `initialSetup` once the configuration is there.
  abbrev pub set_up : NodeSpec → Slice UserSpec → Service w → Service w
  set_up c users s =
      let s1 = record s { last_config = some c; last_config_hash = config_hash w (some c) } in
      mark_mailbox_ready (apply_changes (prepare_user_state (elements users) s1)).0

  -- `initialSetup` on a bootstrap, and whether it ends without an error.
  unfoldable pub initial_setup : Bootstrap → Service w → Service w × Bool
  initial_setup b s =
      let s1 = record s { ws_client = b.has_push || s.ws_client; mailbox = b.mailbox } in
      elim (b.config) [ none ↦ (s1, b.has_push) | some c ↦ (set_up c b.users s1, true) ]

  -- `startWSClient`
  abbrev pub start_ws_client : Service w → Service w
  start_ws_client s = record s { ws_running = s.ws_client || s.ws_running }

  -- `Run` from the end of `initialSetup` to the loop.
  unfoldable pub start_loop : Service w → Service w
  start_loop s =
      let s1 = start_ws_client s in
      if s1.runtime_error then s1 else notify_status RuntimeStatus.running s1
