-- ===== src/Runtime/Frame.antt =====
-- What the operations on the kernel leave alone: the latest configuration and users, and all that belongs
-- to the control plane.
use Prim.Native.String.{String}
use yzboard_node.Prelude.{
  ℕ, ◌≡◌, Bool, true, false, not, ◌&&◌, Option, none, some, List, [], if◌then◌else◌, Bool-cases,
  inl, inr, ◌==◌, string_Eq,
}
use yzboard_node.Users.{UserSpec}
use yzboard_node.Model.{CertConfig, NodeSpec}
use yzboard_node.Model.Relay.{uses_ss2022}
use yzboard_node.Runtime.{Parts, Service}
use yzboard_node.Runtime.Apply.{
  is_set, is_idle, and_then, or_fail, fail_runtime, stop_kernel, runtime_applied,
  runtime_attempt_blocked, reconfigure, apply_local_cert, check_runtime, apply_remote_overrides,
  apply_cert_config, apply_node_cert, prepare_runtime, firewall_apply, apply_firewall, kernel_start,
  kernel_reload, finish, start_kernel, reload_kernel, change_to, change_if, apply_changes,
}
use yzboard_node.Runtime.Apply.{
  set_usage, ensure_running, kernel_update, kernel_add, kernel_remove, or_stop, or_replace,
  note_users, after_ensure, keep_hash, keep_hash_if, update_from, add_from, remove_from,
  with_log_level, with_legacy,
}
use yzboard_node.Limiter.{Limiter}
use yzboard_node.Mailbox.{NodeMailbox}
use yzboard_node.Runtime.{Config, Pull, PullResult}

-- The latest configuration, users and limits.
pub record Wishes : Type 0 where
  pub config : Option NodeSpec
  pub config_hash : String
  pub users : List UserSpec
  pub limiter : Limiter

-- The state of polling, and the mailbox.
pub record Around : Type 0 where
  pub pull : Pull
  pub pull_backoff : ℕ
  pub pull_results : Option PullResult
  pub mailbox : Option (NodeMailbox NodeSpec)

module _ {w : Parts} where
  abbrev pub wishes : Service w → Wishes
  wishes s = record {
    config = s.last_config;
    config_hash = s.last_config_hash;
    users = s.last_users;
    limiter = s.limiter;
  }

  abbrev pub around : Service w → Around
  around s = record {
    pull = s.pull;
    pull_backoff = s.pull_backoff;
    pull_results = s.pull_results;
    mailbox = s.mailbox;
  }

  unfoldable pub IsKept : Wishes → Around → Service w → Type 0
  IsKept x y s = (wishes s ≡ x) × (around s ≡ y)

  unfoldable pub Keeps : Wishes → Around → Service w × Bool → Type 0
  unfolding IsKept
  Keeps x y r = IsKept x y r.0

  pub IsKept-pair : (x : Wishes) (y : Around) (r : Service w × Bool) → Keeps x y r → IsKept x y r.0
  unfolding IsKept Keeps
  IsKept-pair x y r h = h

  -- The operations of the parts, and the changes of single fields.
  reconfigure-kept :
      (x : Wishes) (y : Around) (z : CertConfig) (s : Service w)
      → IsKept x y s
      → Keeps x y (reconfigure z s)
  unfolding IsKept Keeps
  reconfigure-kept x y z s h = h

  set_cfg-kept :
      (x : Wishes) (y : Around) (z : Config) (s : Service w)
      → IsKept x y s
      → Keeps x y ((record s { cfg = z }, true))
  unfolding IsKept Keeps
  set_cfg-kept x y z s h = h

  kernel_start-kept :
      (x : Wishes) (y : Around) (n : NodeSpec) (us : List UserSpec) (s : Service w)
      → IsKept x y s
      → Keeps x y (kernel_start n us s)
  unfolding IsKept Keeps
  kernel_start-kept x y n us s h = h

  kernel_reload-kept :
      (x : Wishes) (y : Around) (n : NodeSpec) (us : List UserSpec) (s : Service w)
      → IsKept x y s
      → Keeps x y (kernel_reload n us s)
  unfolding IsKept Keeps
  kernel_reload-kept x y n us s h = h

  kernel_update-kept :
      (x : Wishes) (y : Around) (us : List UserSpec) (s : Service w)
      → IsKept x y s
      → Keeps x y (kernel_update us s)
  unfolding IsKept Keeps
  kernel_update-kept x y us s h = h

  kernel_add-kept :
      (x : Wishes) (y : Around) (us : List UserSpec) (s : Service w)
      → IsKept x y s
      → Keeps x y (kernel_add us s)
  unfolding IsKept Keeps
  kernel_add-kept x y us s h = h

  kernel_remove-kept :
      (x : Wishes) (y : Around) (us : List UserSpec) (s : Service w)
      → IsKept x y s
      → Keeps x y (kernel_remove us s)
  unfolding IsKept Keeps
  kernel_remove-kept x y us s h = h

  note_users-kept :
      (x : Wishes) (y : Around) (s : Service w) → IsKept x y s → Keeps x y (note_users s)
  unfolding IsKept Keeps
  note_users-kept x y s h = h

  set_usage-kept :
      (x : Wishes) (y : Around) (z : Bool) (s : Service w)
      → IsKept x y s
      → Keeps x y ((set_usage z s, true))
  unfolding IsKept Keeps
  set_usage-kept x y z s h = h

  check_runtime-kept :
      (x : Wishes) (y : Around) (n : NodeSpec) (s : Service w)
      → IsKept x y s
      → Keeps x y (check_runtime n s)
  unfolding IsKept Keeps check_runtime
  check_runtime-kept x y n s h = h

  keep_as_is-kept :
      (x : Wishes) (y : Around) (b : Bool) (s : Service w) → IsKept x y s → Keeps x y ((s, b))
  unfolding IsKept Keeps
  keep_as_is-kept x y b s h = h

  log_level-IsKept :
      (x : Wishes) (y : Around) (z : Config) (s : Service w)
      → IsKept x y s
      → IsKept x y (record s { cfg = z })
  unfolding IsKept
  log_level-IsKept x y z s h = h

  and_then-kept :
      (x : Wishes) (y : Around) (r : Service w × Bool) (next : Service w → Service w × Bool)
      → Keeps x y r
      → ((s : Service w) → IsKept x y s → Keeps x y (next s))
      → Keeps x y (and_then r next)
  unfolding Keeps
  and_then-kept x y (s, true) next h g = g s h
  and_then-kept x y (s, false) next h g = h

  choose-kept :
      (x : Wishes) (y : Around) (b : Bool) (r1 r2 : Service w × Bool)
      → Keeps x y r1
      → Keeps x y r2
      → Keeps x y (if b then r1 else r2)
  choose-kept x y true r1 r2 h g = h
  choose-kept x y false r1 r2 h g = g

  pub fail_runtime-IsKept :
      (x : Wishes) (y : Around) (o : Option NodeSpec) (us : List UserSpec) (s : Service w)
      → IsKept x y s
      → IsKept x y (fail_runtime o us s)
  unfolding IsKept fail_runtime
  fail_runtime-IsKept x y o us s h = h

  or_fail-kept :
      (x : Wishes) (y : Around) (n : NodeSpec) (us : List UserSpec) (r : Service w × Bool)
      → Keeps x y r
      → Keeps x y (or_fail n us r)
  unfolding Keeps
  or_fail-kept x y n us (s, true) h = h
  or_fail-kept x y n us (s, false) h = fail_runtime-IsKept x y (some n) us s h

  apply_cert_config-kept :
      (x : Wishes) (y : Around) (o : Option CertConfig) (n : NodeSpec) (s : Service w)
      → IsKept x y s
      → Keeps x y (apply_cert_config o n s)
  unfolding apply_node_cert
  apply_cert_config-kept x y none n s h =
      set_cfg-kept x y (record s.cfg { cert = with_legacy n s.cfg.cert }) s h
  apply_cert_config-kept x y (some z) n s h =
      let copy = record z { cert_dir = s.cfg.cert.cert_dir } in
      and_then-kept x y (reconfigure copy s)
        (λ s'. (record s' { cfg = record s'.cfg { cert = copy } }, true))
        (reconfigure-kept x y copy s h)
        (λ s' h'. set_cfg-kept x y (record s'.cfg { cert = copy }) s' h')

  apply_remote_overrides-kept :
      (x : Wishes) (y : Around) (n : NodeSpec) (s : Service w)
      → IsKept x y s
      → Keeps x y (apply_remote_overrides n s)
  unfolding apply_remote_overrides
  apply_remote_overrides-kept x y n s h =
      let levelled = with_log_level n.kernel_log_level s.cfg in
      apply_cert_config-kept x y n.cert_config n (record s { cfg = levelled })
        (log_level-IsKept x y levelled s h)

  prepare_runtime-kept :
      (x : Wishes) (y : Around) (n : NodeSpec) (us : List UserSpec) (s : Service w)
      → IsKept x y s
      → Keeps x y (prepare_runtime n us s)
  unfolding prepare_runtime
  prepare_runtime-kept x y n us s h =
      choose-kept x y (runtime_attempt_blocked n us s) (s, false) _ (keep_as_is-kept x y false s h)
        (and_then-kept x y _ _
          (or_fail-kept x y n us (apply_local_cert n s) (
            choose-kept x y (is_set n.cert_config) (s, true) (reconfigure s.cfg.cert s)
              (keep_as_is-kept x y true s h) (reconfigure-kept x y s.cfg.cert s h)))
          (λ s1 h1.
            and_then-kept x y _ _
              (or_fail-kept x y n us (check_runtime n s1) (check_runtime-kept x y n s1 h1))
              (λ s2 h2.
                and_then-kept x y _ _
                  (or_fail-kept x y n us (apply_remote_overrides n s2)
                    (apply_remote_overrides-kept x y n s2 h2))
                  (λ s3 h3. set_usage-kept x y (uses_ss2022 w.to_lower n) s3 h3))))

  firewall_apply-kept :
      (x : Wishes) (y : Around) (n : NodeSpec) (o : Option w.firewall.State) (s : Service w)
      → IsKept x y s
      → Keeps x y (firewall_apply n o s)
  unfolding IsKept Keeps
  firewall_apply-kept x y n none s h = h
  firewall_apply-kept x y n (some f) s h = h

  finish-kept :
      (x : Wishes) (y : Around) (o : Option NodeSpec) (us : List UserSpec) (s : Service w)
      → IsKept x y s
      → Keeps x y (runtime_applied o us s, true)
  unfolding IsKept Keeps runtime_applied
  finish-kept x y o us s h = h

  -- What follows the kernel's operation.
  open-kept :
      (x : Wishes) (y : Around) (n : NodeSpec) (us : List UserSpec) (s : Service w)
      → IsKept x y s
      → Keeps x y (and_then (apply_firewall n us s) (finish n us))
  unfolding apply_firewall
  open-kept x y n us s h =
      and_then-kept x y (or_fail n us (firewall_apply n s.firewall s)) (finish n us)
        (or_fail-kept x y n us (firewall_apply n s.firewall s)
          (firewall_apply-kept x y n s.firewall s h))
        (λ s' h'. finish-kept x y (some n) us s' h')

  start_kernel-kept :
      (x : Wishes) (y : Around) (n : NodeSpec) (us : List UserSpec) (s : Service w)
      → IsKept x y s
      → Keeps x y (start_kernel n us s)
  unfolding start_kernel
  start_kernel-kept x y n us s h =
      and_then-kept x y (prepare_runtime n us s) _ (prepare_runtime-kept x y n us s h) (λ s1 h1.
        and_then-kept x y (or_fail n us (kernel_start n us s1)) _
          (or_fail-kept x y n us (kernel_start n us s1) (kernel_start-kept x y n us s1 h1))
          (λ s2 h2. open-kept x y n us s2 h2))

  reload_kernel-kept :
      (x : Wishes) (y : Around) (n : NodeSpec) (us : List UserSpec) (s : Service w)
      → IsKept x y s
      → Keeps x y (reload_kernel n us s)
  reload_kernel-kept x y n us s h =
      and_then-kept x y (or_fail n us (kernel_reload n us s)) _
        (or_fail-kept x y n us (kernel_reload n us s) (kernel_reload-kept x y n us s h))
        (λ s2 h2. open-kept x y n us s2 h2)

  stop_kernel-IsKept :
      (x : Wishes) (y : Around) (s : Service w) → IsKept x y s → IsKept x y (stop_kernel s)
  unfolding IsKept stop_kernel
  stop_kernel-IsKept x y s h = h

  change_to-kept :
      (x : Wishes) (y : Around) (n : NodeSpec) (us : List UserSpec) (s : Service w)
      → IsKept x y s
      → Keeps x y (change_to n us s)
  unfolding change_to
  change_to-kept x y n us s h =
      choose-kept x y (not (w.kernel.is_running s.kernel) && not (is_idle n us))
        (start_kernel n us s) _ (start_kernel-kept x y n us s h)
        (and_then-kept x y (prepare_runtime n us s) _ (prepare_runtime-kept x y n us s h) (λ s1 h1.
          choose-kept x y (is_idle n us) (runtime_applied none [] (stop_kernel s1), true)
            (reload_kernel n us s1)
            (finish-kept x y none [] (stop_kernel s1) (stop_kernel-IsKept x y s1 h1))
            (reload_kernel-kept x y n us s1 h1)))

  change_if-kept :
      (x : Wishes) (y : Around) (o : Option NodeSpec) (us : List UserSpec) (s : Service w)
      → IsKept x y s
      → Keeps x y (change_if o us s)
  change_if-kept x y none us s h = keep_as_is-kept x y true s h
  change_if-kept x y (some n) us s h = change_to-kept x y n us s h

  pub apply_changes-kept :
      (x : Wishes) (y : Around) (s : Service w) → IsKept x y s → Keeps x y (apply_changes s)
  unfolding apply_changes
  apply_changes-kept x y s h = change_if-kept x y s.last_config s.last_users s h

  ensure_running-kept :
      (x : Wishes) (y : Around) (s : Service w) → IsKept x y s → Keeps x y (ensure_running s)
  unfolding ensure_running
  ensure_running-kept x y s h =
      choose-kept x y (w.kernel.is_running s.kernel) (s, true) _ (keep_as_is-kept x y true s h)
        (choose-kept x y (not (is_set s.last_config)) (s, false) _ (keep_as_is-kept x y false s h)
          (and_then-kept x y (apply_changes s) _ (apply_changes-kept x y s h)
            (λ s' h'. keep_as_is-kept x y (w.kernel.is_running s'.kernel) s' h')))

  or_stop-kept :
      (x : Wishes) (y : Around) (us : List UserSpec) (r : Service w × Bool)
      → Keeps x y r
      → Keeps x y (or_stop us r)
  unfolding Keeps
  or_stop-kept x y us (s, true) h = h
  or_stop-kept x y us (s, false) h = fail_runtime-IsKept x y s.last_config us s h

  or_replace-kept :
      (x : Wishes) (y : Around) (us : List UserSpec) (r : Service w × Bool)
      → Keeps x y r
      → Keeps x y (or_replace us r)
  unfolding Keeps
  or_replace-kept x y us (s, true) h = h
  or_replace-kept x y us (s, false) h =
      or_stop-kept x y us (kernel_update us s) (kernel_update-kept x y us s h)

  after_ensure-kept :
      (x : Wishes) (y : Around) (was : Bool) (r : Service w × Bool)
      (next : Service w → Service w × Bool)
      → Keeps x y r
      → ((s : Service w) → IsKept x y s → Keeps x y (next s))
      → Keeps x y (after_ensure was r next)
  unfolding Keeps
  after_ensure-kept x y was (s, false) next h g = h
  after_ensure-kept x y true (s, true) next h g = g s h
  after_ensure-kept x y false (s, true) next h g = h

  keep_hash-IsKept :
      (x : Wishes) (y : Around) (hash : String) (s : Service w)
      → IsKept x y s
      → IsKept x y (keep_hash hash s)
  unfolding IsKept
  keep_hash-IsKept x y hash s h = elim (Bool-cases (hash == "")) [ inl e ↦ rw e h | inr e ↦ rw e h ]

  keep_hash_if-kept :
      (x : Wishes) (y : Around) (b : Bool) (hash : String) (r : Service w × Bool)
      → Keeps x y r
      → Keeps x y (keep_hash_if b hash r)
  unfolding Keeps
  keep_hash_if-kept x y false hash r h = h
  keep_hash_if-kept x y true hash (s, true) h = keep_hash-IsKept x y hash s h
  keep_hash_if-kept x y true hash (s, false) h = h

  pub update_from-kept :
      (x : Wishes) (y : Around) (was : Bool) (us : List UserSpec) (hash : String) (s : Service w)
      → IsKept x y s
      → Keeps x y (update_from was us hash s)
  unfolding update_from
  update_from-kept x y was us hash s h = keep_hash_if-kept x y (ensure_running s).1 hash _ (
      after_ensure-kept x y was (ensure_running s)
        (λ s1. and_then (or_stop us (kernel_update us s1)) note_users) (ensure_running-kept x y s h)
        (λ s1 h1.
          and_then-kept x y _ note_users
            (or_stop-kept x y us (kernel_update us s1) (kernel_update-kept x y us s1 h1))
            (note_users-kept x y)))

  pub add_from-kept :
      (x : Wishes) (y : Around) (was : Bool) (delta us : List UserSpec) (s : Service w)
      → IsKept x y s
      → Keeps x y (add_from was delta us s)
  unfolding add_from
  add_from-kept x y was delta us s h =
      after_ensure-kept x y was (ensure_running s)
        (λ s1. and_then (or_replace us (kernel_add delta s1)) note_users)
        (ensure_running-kept x y s h)
        (λ s1 h1.
          and_then-kept x y _ note_users
            (or_replace-kept x y us (kernel_add delta s1) (kernel_add-kept x y delta s1 h1))
            (note_users-kept x y))

  pub remove_from-kept :
      (x : Wishes) (y : Around) (up : Bool) (delta us : List UserSpec) (s : Service w)
      → IsKept x y s
      → Keeps x y (remove_from up delta us s)
  unfolding remove_from
  remove_from-kept x y false delta us s h = apply_changes-kept x y s h
  remove_from-kept x y true delta us s h =
      and_then-kept x y _ note_users
        (or_replace-kept x y us (kernel_remove delta s) (kernel_remove-kept x y delta s h))
        (note_users-kept x y)
