-- ===== src/Runtime/Tests.antt =====
-- A service on a small kernel, with a controller of the firewall, for internal/service/service.go.
use yzboard_node.Prelude.{
  ℕ, ◌≤◌, ◌≡◌, ◌≢◌, refl, true, false, none, some, List, [], ◌∷◌, err, trim_space, lower_is,
}
use yzboard_node.Model.{NodeSpec, CertConfig, end, is_relay_landing}
use yzboard_node.Model.Custom
use yzboard_node.Model.Custom.{missing}
use yzboard_node.Model.Validate
use yzboard_node.Model.Relay
use yzboard_node.Model.Routes
use yzboard_node.Runtime.Checks.{
  validate_node_runtime, validate_tls, validate_cert_config, needs_cert, has_usable_tls_config,
}
use yzboard_node.Users.{UserSpec}
use yzboard_node.Users.Credentials.{credential}
use yzboard_node.Mailbox.{Event, sync_users}
use yzboard_node.Limiter.Speed.{RateLimiter}
use yzboard_node.Kernels.{user_diff, missing_users}
use yzboard_node.Kernels.Tests.{library, user}
use yzboard_node.Portset
use yzboard_node.Firewall
use yzboard_node.Firewall.Combine
use yzboard_node.Firewall.Manager
use yzboard_node.Firewall.Tests.{counting, texts, manager}
use yzboard_node.Firewall.Manager.Controlled.{controller, manager-IsController}
use yzboard_node.Kernels.Laws.{kernel, singbox-IsKernel}
use yzboard_node.Kernels.Singbox
use yzboard_node.Runtime.{
  Parts, Controller, CertManager, has_cert, Config, Service, user_hash, sort_users, insert_user,
  same_attempt,
}
use yzboard_node.Runtime.Laws.{IsController, Ends}
use yzboard_node.Runtime.Steady.{IsSettled, IsDown}
use yzboard_node.Runtime.Swap.{steady-IsPending}
use yzboard_node.Runtime.Changes.{apply_changes-IsSettled}
use yzboard_node.Runtime.Apply.{
  apply_changes, apply_user_update, update_from, ensure_running, prepare_user_state, change_to,
  start_kernel, prepare_runtime, runtime_attempt_blocked, check_runtime, apply_remote_overrides,
  apply_firewall, runtime_applied,
}
use yzboard_node.Runtime.Events.{
  Bootstrap, new_service, initial_setup, start_loop, mark_mailbox_ready, handle_ws_event,
  pull_via_api_async, pull_answer,
}
use yzboard_node.Runtime.World.{Reach, started, next, event, pull_tick, answer}
use yzboard_node.Runtime.Latest.{users_event-served}
use yzboard_node.Runtime.Sound.{IsSound, reach-IsSound, reach-pull_backoff}

abbrev settings : RateLimiter
settings = record {
  Bucket = ℕ × ℕ;
  new_limiter = λ l b. (l, b);
  set_limit = λ l x. (l, x.1);
  set_burst = λ b x. (x.0, b);
  limit = λ x. x.0;
  burst = λ x. x.1;
  limit-new_limiter = λ l b. refl;
  burst-new_limiter = λ l b. refl;
  limit-set_limit = λ l x. refl;
  limit-set_burst = λ b x. refl;
  burst-set_burst = λ b x. refl;
}

-- The manager of the firewall for the name that the service goes by.
abbrev firewall : Controller
firewall = controller counting texts "node"

firewall-IsController : IsController firewall
firewall-IsController = manager-IsController counting texts "node"

abbrev certs : CertManager
certs = record {
  State = Unit {0};
  reconfigure = λ s c. (tt, true);
  tls_cert = λ s. record { cert_pem = "certificate"; key_pem = "key" };
  cert_renewed = λ s. (tt, false);
}

abbrev parts : Parts
parts = record {
  kernel = kernel library;
  certs = certs;
  firewall = firewall;
  rate = settings;
  hashes = record { of_config = λ n. n.protocol; of_users = λ users. "users"; of_pem = λ s. s };
  files = record { read_file = λ path. missing; decode_json = λ s. none; decode_yaml = λ s. none };
  to_lower = λ s. s;
  supports_polling = true;
  supports_discovery = false;
  known_provider = λ name. false;
}

abbrev local_cert : CertConfig
local_cert = record {
  auto_tls = false;
  domain = "";
  cert_file = "";
  key_file = "";
  cert_dir = "";
  cert_mode = "";
  dns_provider = "";
  cert_content = "";
  key_content = "";
}

abbrev node : NodeSpec
node = record {
  protocol = "trojan";
  listen_ip = "";
  server_port = 443;
  port_hopping = "";
  network = "tcp";
  network_settings = end;
  kernel_type = "singbox";
  kernel_log_level = "";
  custom_outbounds = [];
  custom_route_rules = [];
  cert_config = none;
  auto_tls = false;
  domain = "";
  cipher = "";
  tls = 1;
  flow = "";
  decryption = "";
  tls_settings = none;
  version = 0;
  obfs = "";
  obfs_password = "";
  transport = "";
  relay = none;
}

abbrev bootstrap : Bootstrap
bootstrap = record {
  has_push = true;
  mailbox = none;
  config = some node;
  users = some (user 1 "a" ∷ []);
}

abbrev cfg : Config
cfg = record {
  kernel = record { type = "singbox"; custom_config = ""; custom_outbound = [] };
  log_level = "";
  cert = local_cert;
}

abbrev first : Service parts
first =
    start_loop (initial_setup bootstrap (new_service cfg (Singbox.new library) tt (some manager))).0

abbrev users_event : Event NodeSpec
users_event = record {
  type = sync_users;
  config = none;
  users = some (user 1 "a" ∷ user 2 "b" ∷ []);
  delta_action = "";
  delta_users = [];
  device_users = none;
}

-- Two users come, and a poll fails.
abbrev updated : Service parts
updated = handle_ws_event users_event first

abbrev failed : Service parts
failed = pull_answer (err tt) (pull_via_api_async updated)

stopped_first : Singbox.is_running library (Singbox.new library) ≡ false
unfolding Singbox.is_running Singbox.new
stopped_first = refl

first-Reach : Reach first
first-Reach =
    started cfg (Singbox.new library) tt (some manager) bootstrap stopped_first (refl, tt) tt

failed-Reach : Reach failed
failed-Reach =
    next (next (next first-Reach (event users_event ((refl, (refl, tt)), tt))) pull_tick)
      (answer (err tt) tt)

reach-IsSound_example : IsSound (singbox-IsKernel library) firewall-IsController failed
reach-IsSound_example =
    reach-IsSound (singbox-IsKernel library) firewall-IsController failed failed-Reach

reach-pull_backoff_example : failed.pull_backoff ≤ 1
reach-pull_backoff_example = reach-pull_backoff (singbox-IsKernel library) failed failed-Reach

apply_changes-IsSettled_example :
    Ends
      (IsSettled
        (singbox-IsKernel library)
        firewall-IsController
        failed.last_config
        failed.last_users)
      (IsDown (singbox-IsKernel library) firewall-IsController)
      (apply_changes failed)
apply_changes-IsSettled_example =
    apply_changes-IsSettled (singbox-IsKernel library) firewall-IsController failed (
      steady-IsPending (singbox-IsKernel library) firewall-IsController failed
        (reach-IsSound (singbox-IsKernel library) firewall-IsController failed failed-Reach).0)

-- The kernel of the first state runs.
first_runs : Singbox.is_running library first.kernel ≡ true
unfolding Singbox.is_running Singbox.new Singbox.protocols Singbox.start initial_setup start_loop
    mark_mailbox_ready new_service apply_changes prepare_user_state change_to start_kernel
    prepare_runtime runtime_attempt_blocked check_runtime apply_remote_overrides apply_firewall
    runtime_applied validate_node_runtime validate_tls validate_cert_config needs_cert
    has_usable_tls_config has_cert Validate.validate_node_spec Validate.validate_hopping
    Validate.validate_transport_kernel Validate.normalize_kernel_type Validate.build_available_tags
    Relay.validate_relay Relay.uses_ss2022 Relay.is_relay_ss2022_cipher
    Custom.collect_additional_tags Custom.collect_raw_tags Custom.collect_config_tags
    Custom.validate_tag_collisions Custom.seen_keys Custom.structured_collisions
    Custom.validate_outbounds Routes.validate_route_rules is_relay_landing trim_space Manager.apply
    Firewall.plan_for_node Firewall.listener_addresses Firewall.listener_protocols lower_is
    Combine.combine_plans Combine.any_clash Combine.clashes Portset.overlaps Manager.reconcile
first_runs = refl

users_hashed : (vs : List UserSpec) → user_hash parts vs ≢ ""
unfolding user_hash
users_hashed vs e = cc (e)

updated_runs : Singbox.is_running library updated.kernel ≡ true
unfolding handle_ws_event apply_user_update update_from ensure_running Singbox.update_users
    user_hash sort_users insert_user user_diff missing_users same_attempt Singbox.is_running
    Singbox.new Singbox.protocols Singbox.start initial_setup start_loop mark_mailbox_ready
    new_service apply_changes prepare_user_state change_to start_kernel prepare_runtime
    runtime_attempt_blocked check_runtime apply_remote_overrides apply_firewall runtime_applied
    validate_node_runtime validate_tls validate_cert_config needs_cert has_usable_tls_config
    has_cert Validate.validate_node_spec Validate.validate_hopping
    Validate.validate_transport_kernel Validate.normalize_kernel_type Validate.build_available_tags
    Relay.validate_relay Relay.uses_ss2022 Relay.is_relay_ss2022_cipher
    Custom.collect_additional_tags Custom.collect_raw_tags Custom.collect_config_tags
    Custom.validate_tag_collisions Custom.seen_keys Custom.structured_collisions
    Custom.validate_outbounds Routes.validate_route_rules is_relay_landing trim_space Manager.apply
    Firewall.plan_for_node Firewall.listener_addresses Firewall.listener_protocols lower_is
    Combine.combine_plans Combine.any_clash Combine.clashes Portset.overlaps Manager.reconcile
updated_runs = refl

users_event-served_example :
    (held : List UserSpec) × ((id : ℕ)
      → (singbox-IsKernel library).credentials updated.kernel id ≡ credential held id)
    × (user_hash parts held ≡ user_hash parts (user 1 "a" ∷ user 2 "b" ∷ []))
users_event-served_example =
    users_event-served (singbox-IsKernel library) firewall-IsController first users_event
      (user 1 "a" ∷ user 2 "b" ∷ []) users_hashed first-Reach ((refl, (refl, tt)), tt) refl refl
      updated_runs
