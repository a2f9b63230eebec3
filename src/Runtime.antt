-- ===== src/Runtime.antt =====
-- internal/service/service.go, runtime_failure.go and firewall.go: the service of a node, which starts,
-- reloads and stops the kernel as the panel's configurations and users come. The kernel, the manager of
-- certificates and the firewall are interfaces; each operation of theirs gives a new state, and `true`
-- where it ends without an error.
pub mod Checks
pub mod Apply
pub mod Backoff
pub mod Events
pub mod Laws
pub mod Steady
pub mod Prepare
pub mod Changes
pub mod Swap
pub mod Updates
pub mod Deltas
pub mod Frame
pub mod Agree
pub mod Handled
pub mod Pulled
pub mod World
pub mod Sound
pub mod Latest
pub mod Tests
use Prim.Native.String.{String}
use yzboard_node.Prelude.{
  ℕ, ◌≡◌, Bool, true, false, not, ◌&&◌, Option, none, some, List, [], ◌∷◌, if◌then◌else◌, leb, ◌==◌,
  string_Eq, Dict,
}
use yzboard_node.Users.{UserSpec, Slice}
use yzboard_node.Model.{NodeSpec, CertConfig}
use yzboard_node.Model.Custom.{Files}
use yzboard_node.Model.Validate.{KernelConfig}
use yzboard_node.Limiter.{Limiter}
use yzboard_node.Limiter.Speed.{RateLimiter, SpeedTracker}
use yzboard_node.Mailbox.{NodeMailbox}

-- `kernel.TLSCert`
pub record TlsCert : Type 0 where
  pub cert_pem : String
  pub key_pem : String

unfoldable pub has_cert : TlsCert → Bool
has_cert t = not (t.cert_pem == "") && not (t.key_pem == "")

-- `kernel.Kernel`, the operations that the service calls.
pub record Kernel : Type 1 where
  pub State : Type 0
  pub protocols : State → List String
  pub start : State → NodeSpec → List UserSpec → TlsCert → State × Bool
  pub stop : State → State
  pub is_running : State → Bool
  pub reload : State → NodeSpec → List UserSpec → TlsCert → State × Bool
  pub add_users : State → List UserSpec → State × Bool
  pub remove_users : State → List UserSpec → State × Bool
  pub update_users : State → List UserSpec → State × Bool
  pub update_global_devices : State → Dict ℕ (List String) → State
  pub clear_global_devices : State → State

-- `cert.Manager`
pub record CertManager : Type 1 where
  pub State : Type 0
  pub reconfigure : State → CertConfig → State × Bool
  pub tls_cert : State → TlsCert
  -- `CertRenewed`, which takes the mark that it reads.
  pub cert_renewed : State → State × Bool

-- `firewall.Controller`, for the one consumer that the service is.
pub record Controller : Type 1 where
  pub State : Type 0
  pub apply : State → NodeSpec → String → State × Bool
  pub release : State → State × Bool

-- SHA-256 of what `json.Marshal` makes of a configuration, of the bytes of sorted users, and of a PEM.
pub record Hashes : Type 0 where
  pub of_config : NodeSpec → String
  pub of_users : List UserSpec → String
  pub of_pem : String → String

pub record Parts : Type 1 where
  pub kernel : Kernel
  pub certs : CertManager
  pub firewall : Controller
  pub rate : RateLimiter
  pub hashes : Hashes
  pub files : Files
  pub to_lower : String → String
  -- `SupportsPolling` and `SupportsDiscovery` of the control plane.
  pub supports_polling : Bool
  pub supports_discovery : Bool
  -- `dnsproviders.Get` finds the name.
  pub known_provider : String → Bool

-- `config.Config`, as far as the service reads it; `log_level` is `Kernel.LogLevel`.
pub record Config : Type 0 where
  pub kernel : KernelConfig
  pub log_level : String
  pub cert : CertConfig

pub data RuntimeStatus : Type 0 where
  starting running failed stopped : RuntimeStatus

-- `pullResult`
pub record PullResult : Type 0 where
  pub config : Option NodeSpec
  pub users : Slice UserSpec
  pub config_hash : String
  pub user_hash : String
  pub cert_changed : Bool

-- The goroutine of `pullViaAPIAsync`: none, so that `pullActive` is unset; one that waits for the panel,
-- with the hash of the configuration it began with; or one that waits for room in the channel.
pub data Pull : Type 0 where
  idle : Pull
  polling : String → Pull
  sending : PullResult → Pull

-- The four parts of `runtimeAttemptHash`.
pub record AttemptHash : Type 0 where
  pub config : String
  pub users : String
  pub cert : String
  pub key : String

unfoldable pub same_attempt : AttemptHash → AttemptHash → Bool
same_attempt a b = a.config == b.config && a.users == b.users && a.cert == b.cert && a.key == b.key

-- `computeUserHash` sorts the users by their ids.
unfoldable pub insert_user : UserSpec → List UserSpec → List UserSpec
insert_user u [] = u ∷ []
insert_user u (v ∷ vs) =
    let rest = insert_user u vs in if leb u.id v.id then u ∷ v ∷ vs else v ∷ rest

unfoldable pub sort_users : List UserSpec → List UserSpec
unfolding insert_user
sort_users [] = []
sort_users (u ∷ us) = insert_user u (sort_users us)

module _ (w : Parts) where
  -- The empty text of `failedRuntimeHash`, which no attempt has, is `none`; `runtime_error` is whether
  -- `runtimeError` is set, and `status` the last one that the observer was told. `time_usage` is whether
  -- the clock counts the service as a consumer, `poll_resets` how often it made the control plane forget
  -- what it had polled. `ws_client` is whether there is a push client, `ws_running` whether its goroutine
  -- runs. The channel `pullResults` holds one result; a backoff is its count of skips.
  pub record Service : Type 0 where
    pub cfg : Config
    pub kernel : w.kernel.State
    pub cert : w.certs.State
    pub firewall : Option w.firewall.State
    pub limiter : Limiter
    pub speed_tracker : SpeedTracker w.rate
    pub last_config : Option NodeSpec
    pub last_users : List UserSpec
    pub last_config_hash : String
    pub last_user_hash : String
    pub failed_runtime_hash : Option AttemptHash
    pub runtime_error : Bool
    pub applied_config : Option NodeSpec
    pub applied_users : List UserSpec
    pub time_usage : Bool
    pub status : RuntimeStatus
    pub poll_resets : ℕ
    pub ws_client : Bool
    pub ws_running : Bool
    pub ws_disconnect_at : Option ℕ
    pub ws_resync_pending : Bool
    pub pull : Pull
    pub pull_backoff : ℕ
    pub pull_results : Option PullResult
    pub mailbox : Option (NodeMailbox NodeSpec)

  -- `computeConfigHash`
  abbrev pub config_hash : Option NodeSpec → String
  config_hash none = ""
  config_hash (some n) = w.hashes.of_config n

  -- `computeUserHash`
  unfoldable pub user_hash : List UserSpec → String
  user_hash users = w.hashes.of_users (sort_users users)

  -- `tlsCert`
  abbrev pub tls_cert : Service → TlsCert
  tls_cert s = w.certs.tls_cert s.cert

  unfoldable pub runtime_attempt_hash : Option NodeSpec → List UserSpec → TlsCert → AttemptHash
  unfolding user_hash
  runtime_attempt_hash nc users tls = record {
    config = config_hash nc;
    users = user_hash users;
    cert = w.hashes.of_pem tls.cert_pem;
    key = w.hashes.of_pem tls.key_pem;
  }
