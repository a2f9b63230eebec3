-- ===== src/Runtime/Apply.antt =====
-- internal/service/service.go, runtime_failure.go and firewall.go: the operations that start, reload and
-- stop the kernel, and those that change the users. Each gives the new state and its Boolean result. The
-- node's log, which nothing reads, is left out.
use Prim.Native.String.{String}
use yzboard_node.Prelude.{
  Bool, true, false, not, ◌&&◌, Option, none, some, List, [], ◌∷◌, if◌then◌else◌, ◌==◌, string_Eq,
  Outcome, ok, err,
}
use yzboard_node.Users.{UserSpec, elements, has_uuid_change, merge_users, subtract_users}
use yzboard_node.Model.{CertConfig, NodeSpec, is_relay_landing}
use yzboard_node.Model.Relay.{uses_ss2022}
use yzboard_node.Limiter.{update_users}
use yzboard_node.Limiter.Speed.{update_buckets}
use yzboard_node.Runtime.{
  Parts, Controller, Config, Service, RuntimeStatus, AttemptHash, same_attempt, user_hash, tls_cert,
  runtime_attempt_hash,
}
use yzboard_node.Runtime.Checks.{validate_node_runtime}

abbrev pub is_set {ℓ} : {A : Type ℓ} → Option A → Bool
is_set none = false
is_set (some a) = true

-- Go's `a` if the operation has succeeded so far, and the state where it has not.
abbrev pub and_then {ℓ} : {S : Type ℓ} → S × Bool → (S → S × Bool) → S × Bool
and_then (s, true) next = next s
and_then (s, false) next = (s, false)

abbrev pub release_firewall : (c : Controller) → Option c.State → Option c.State
release_firewall c none = none
release_firewall c (some f) = some (c.release f).0

abbrev pub is_failed_attempt : AttemptHash → Option AttemptHash → Bool
is_failed_attempt attempt none = false
is_failed_attempt attempt (some failed) = same_attempt failed attempt

abbrev pub with_log_level : String → Config → Config
with_log_level level cfg =
    if not (level == "") && not (level == cfg.log_level)
    then record cfg { log_level = level }
    else cfg

-- The fields that panels sent before `cert_config`.
abbrev pub with_legacy : NodeSpec → CertConfig → CertConfig
with_legacy nc c = record c {
  auto_tls = nc.auto_tls;
  domain = if nc.domain == "" then c.domain else nc.domain;
}

abbrev pub succeeds {ε ℓ} : {E : Type ε} {A : Type ℓ} → Outcome E A → Bool
succeeds (err e) = false
succeeds (ok a) = true

abbrev pub no_users : List UserSpec → Bool
no_users [] = true
no_users (u ∷ us) = false

-- The node has nobody to serve.
abbrev pub is_idle : NodeSpec → List UserSpec → Bool
is_idle nc users = no_users users && not (is_relay_landing nc)

module _ {w : Parts} where
  -- `notifyStatus`
  abbrev pub notify_status : RuntimeStatus → Service w → Service w
  notify_status status s = record s { status = status }

  -- `SetUsage` of the clock.
  abbrev pub set_usage : Bool → Service w → Service w
  set_usage used s = record s { time_usage = used }

  -- `stopKernel`
  unfoldable pub stop_kernel : Service w → Service w
  stop_kernel s = record s {
    kernel = w.kernel.stop s.kernel;
    firewall = release_firewall w.firewall s.firewall;
  }

  -- `failRuntime`
  unfoldable pub fail_runtime : Option NodeSpec → List UserSpec → Service w → Service w
  unfolding stop_kernel
  fail_runtime nc users s =
      let noted = record s {
        failed_runtime_hash = some (runtime_attempt_hash w nc users (tls_cert w s));
        runtime_error = true;
      } in
      let stopped = set_usage false (stop_kernel noted) in
      notify_status RuntimeStatus.failed
        (record stopped { applied_config = none; applied_users = [] })

  -- `runtimeApplied`
  unfoldable pub runtime_applied : Option NodeSpec → List UserSpec → Service w → Service w
  runtime_applied nc users s = notify_status RuntimeStatus.running (record s {
    failed_runtime_hash = none;
    runtime_error = false;
    applied_config = nc;
    applied_users = users;
  })

  -- `runtimeAttemptBlocked`
  unfoldable pub runtime_attempt_blocked : NodeSpec → List UserSpec → Service w → Bool
  runtime_attempt_blocked nc users s =
      is_failed_attempt (runtime_attempt_hash w (some nc) users (tls_cert w s))
        s.failed_runtime_hash

  -- `Reconfigure` of the certificates.
  abbrev pub reconfigure : CertConfig → Service w → Service w × Bool
  reconfigure c s = let done = w.certs.reconfigure s.cert c in (record s { cert = done.0 }, done.1)

  -- `applyNodeCert`
  unfoldable pub apply_node_cert : CertConfig → Service w → Service w × Bool
  apply_node_cert new_cfg s =
      let copy = record new_cfg { cert_dir = s.cfg.cert.cert_dir } in
      and_then (reconfigure copy s)
        (λ s'. (record s' { cfg = record s'.cfg { cert = copy } }, true))

  abbrev pub apply_cert_config : Option CertConfig → NodeSpec → Service w → Service w × Bool
  apply_cert_config none nc s =
      (record s { cfg = record s.cfg { cert = with_legacy nc s.cfg.cert } }, true)
  apply_cert_config (some c) nc s = apply_node_cert c s

  -- `applyRemoteOverrides`
  unfoldable pub apply_remote_overrides : NodeSpec → Service w → Service w × Bool
  apply_remote_overrides nc s =
      apply_cert_config nc.cert_config nc
        (record s { cfg = with_log_level nc.kernel_log_level s.cfg })

  -- A step of the preparation: its failure stops the runtime.
  abbrev pub or_fail : NodeSpec → List UserSpec → Service w × Bool → Service w × Bool
  or_fail nc users (s, true) = (s, true)
  or_fail nc users (s, false) = (fail_runtime (some nc) users s, false)

  abbrev pub apply_local_cert : NodeSpec → Service w → Service w × Bool
  apply_local_cert nc s = if is_set nc.cert_config then (s, true) else reconfigure s.cfg.cert s

  unfoldable pub check_runtime : NodeSpec → Service w → Service w × Bool
  check_runtime nc s =
      (s, succeeds (validate_node_runtime w s.cfg (w.kernel.protocols s.kernel) nc (tls_cert w s)))

  -- `prepareRuntime`
  unfoldable pub prepare_runtime : NodeSpec → List UserSpec → Service w → Service w × Bool
  prepare_runtime nc users s =
      if runtime_attempt_blocked nc users s
      then (s, false)
      else and_then (or_fail nc users (apply_local_cert nc s)) (λ s1.
        and_then (or_fail nc users (check_runtime nc s1)) (λ s2.
          and_then (or_fail nc users (apply_remote_overrides nc s2))
            (λ s3. (set_usage (uses_ss2022 w.to_lower nc) s3, true))))

  abbrev pub firewall_apply : NodeSpec → Option w.firewall.State → Service w → Service w × Bool
  firewall_apply nc none s = (s, true)
  firewall_apply nc (some f) s =
      let done = w.firewall.apply f nc s.cfg.kernel.type in
      (record s { firewall = some done.0 }, done.1)

  -- `applyFirewall`
  unfoldable pub apply_firewall : NodeSpec → List UserSpec → Service w → Service w × Bool
  apply_firewall nc users s = or_fail nc users (firewall_apply nc s.firewall s)

  -- The operations of the kernel.
  abbrev pub kernel_start : NodeSpec → List UserSpec → Service w → Service w × Bool
  kernel_start nc users s =
      let done = w.kernel.start s.kernel nc users (tls_cert w s) in
      (record s { kernel = done.0 }, done.1)

  abbrev pub kernel_reload : NodeSpec → List UserSpec → Service w → Service w × Bool
  kernel_reload nc users s =
      let done = w.kernel.reload s.kernel nc users (tls_cert w s) in
      (record s { kernel = done.0 }, done.1)

  abbrev pub kernel_update : List UserSpec → Service w → Service w × Bool
  kernel_update users s =
      let done = w.kernel.update_users s.kernel users in (record s { kernel = done.0 }, done.1)

  abbrev pub kernel_add : List UserSpec → Service w → Service w × Bool
  kernel_add users s =
      let done = w.kernel.add_users s.kernel users in (record s { kernel = done.0 }, done.1)

  abbrev pub kernel_remove : List UserSpec → Service w → Service w × Bool
  kernel_remove users s =
      let done = w.kernel.remove_users s.kernel users in (record s { kernel = done.0 }, done.1)

  abbrev pub finish : NodeSpec → List UserSpec → Service w → Service w × Bool
  finish nc users s = (runtime_applied (some nc) users s, true)

  -- `startKernel`
  unfoldable pub start_kernel : NodeSpec → List UserSpec → Service w → Service w × Bool
  start_kernel nc users s = and_then (prepare_runtime nc users s) (λ s1.
      and_then (or_fail nc users (kernel_start nc users s1))
        (λ s2. and_then (apply_firewall nc users s2) (finish nc users)))

  abbrev pub reload_kernel : NodeSpec → List UserSpec → Service w → Service w × Bool
  reload_kernel nc users s =
      and_then (or_fail nc users (kernel_reload nc users s))
        (λ s2. and_then (apply_firewall nc users s2) (finish nc users))

  unfoldable pub change_to : NodeSpec → List UserSpec → Service w → Service w × Bool
  change_to nc users s =
      if not (w.kernel.is_running s.kernel) && not (is_idle nc users)
      then start_kernel nc users s
      else and_then (prepare_runtime nc users s) (λ s1.
        if is_idle nc users
        then (runtime_applied none [] (stop_kernel s1), true)
        else reload_kernel nc users s1)

  abbrev pub change_if : Option NodeSpec → List UserSpec → Service w → Service w × Bool
  change_if none users s = (s, true)
  change_if (some nc) users s = change_to nc users s

  -- `applyChanges`, which is called with a changed configuration only.
  unfoldable pub apply_changes : Service w → Service w × Bool
  apply_changes s = change_if s.last_config s.last_users s

  -- `ensureRunning`
  unfoldable pub ensure_running : Service w → Service w × Bool
  ensure_running s =
      if w.kernel.is_running s.kernel
      then (s, true)
      else if not (is_set s.last_config)
      then (s, false)
      else and_then (apply_changes s) (λ s'. (s', w.kernel.is_running s'.kernel))

  -- `prepareUserState`
  unfoldable pub prepare_user_state : List UserSpec → Service w → Service w
  prepare_user_state users s =
      let l = (update_users s.limiter users).0 in
      record s {
        limiter = l;
        speed_tracker = update_buckets w.rate l s.speed_tracker;
        last_users = users;
        last_user_hash = user_hash w users;
      }

  -- `applyConfigUpdate`
  unfoldable pub apply_config_update : NodeSpec → String → Service w → Service w × Bool
  apply_config_update config hash s =
      apply_changes (record s { last_config = some config; last_config_hash = hash })

  abbrev pub keep_hash : String → Service w → Service w
  keep_hash hash s = if hash == "" then s else record s { last_user_hash = hash }

  -- A failed operation of the kernel on the users stops the runtime.
  abbrev pub or_stop : List UserSpec → Service w × Bool → Service w × Bool
  or_stop users (s, true) = (s, true)
  or_stop users (s, false) = (fail_runtime s.last_config users s, false)

  abbrev pub note_users : Service w → Service w × Bool
  note_users s = (record s { applied_users = s.last_users }, true)

  -- `applyUserUpdate` from the check that the kernel runs on.
  abbrev pub after_ensure :
      Bool → Service w × Bool → (Service w → Service w × Bool) → Service w × Bool
  after_ensure was_running (s, false) next = (s, not s.runtime_error)
  after_ensure was_running (s, true) next = if was_running then next s else (s, true)

  abbrev pub keep_hash_if : Bool → String → Service w × Bool → Service w × Bool
  keep_hash_if ensured hash r = (if ensured && r.1 then keep_hash hash r.0 else r.0, r.1)

  -- `applyUserUpdate` once the users are prepared.
  unfoldable pub update_from : Bool → List UserSpec → String → Service w → Service w × Bool
  update_from was_running users new_hash s =
      let ensured = ensure_running s in
      keep_hash_if ensured.1 new_hash (
        after_ensure was_running ensured
          (λ s1. and_then (or_stop users (kernel_update users s1)) note_users))

  -- `applyUserUpdate`
  unfoldable pub apply_user_update : List UserSpec → String → Service w → Service w × Bool
  apply_user_update users new_hash s =
      update_from (w.kernel.is_running s.kernel) users new_hash (prepare_user_state users s)

  -- A refused hot update is tried again as a full one.
  abbrev pub or_replace : List UserSpec → Service w × Bool → Service w × Bool
  or_replace users (s, true) = (s, true)
  or_replace users (s, false) = or_stop users (kernel_update users s)

  abbrev pub merged_users : Service w → List UserSpec → List UserSpec
  merged_users s delta = elements (merge_users (some s.last_users) (some delta))

  abbrev pub remaining_users : Service w → List UserSpec → List UserSpec
  remaining_users s delta = elements (subtract_users (some s.last_users) (some delta))

  -- The cases of `applyUserDelta`, on a delta that is not empty.
  unfoldable pub add_from : Bool → List UserSpec → List UserSpec → Service w → Service w × Bool
  add_from was_running delta merged s =
      after_ensure was_running (ensure_running s)
        (λ s1. and_then (or_replace merged (kernel_add delta s1)) note_users)

  unfoldable pub delta_add : List UserSpec → Service w → Service w × Bool
  delta_add delta s =
      let merged = merged_users s delta in
      if has_uuid_change s.last_users delta
      then apply_user_update merged (user_hash w merged) s
      else add_from (w.kernel.is_running s.kernel) delta merged (prepare_user_state merged s)

  unfoldable pub remove_from : Bool → List UserSpec → List UserSpec → Service w → Service w × Bool
  remove_from is_running delta filtered s =
      if not is_running
      then apply_changes s
      else and_then (or_replace filtered (kernel_remove delta s)) note_users

  unfoldable pub delta_remove : List UserSpec → Service w → Service w × Bool
  delta_remove delta s =
      let filtered = remaining_users s delta in
      let s1 = prepare_user_state filtered s in
      remove_from (w.kernel.is_running s1.kernel) delta filtered s1

  -- `applyUserDelta`
  unfoldable pub apply_user_delta : String → List UserSpec → Service w → Service w × Bool
  apply_user_delta action delta s =
      if action == "add"
      then (if no_users delta then (s, true) else delta_add delta s)
      else if action == "remove"
      then (if no_users delta then (s, true) else delta_remove delta s)
      else (s, false)
