-- ===== src/Kernels/Singbox.antt =====
-- internal/kernel/singbox/singbox.go: the kernel that holds an instance of sing-box. The instances are a
-- parameter, and so is what internal/kernel/singbox/config.go makes for one of a configuration. The counters
-- of connections, the log and the functions for limits are left out.
use Prim.Native.String.{String}
use yzboard_node.Prelude.{
  ℕ, Bool, true, false, not, Option, none, some, List, [], ◌∷◌, ◌++◌, if◌then◌else◌, Dict, contains,
  insert, nat_Eq, nat_eq, length,
}
use mathlib.Core.List.{foldl}
use yzboard_node.Users.{UserSpec, put_id, keep_users}
use yzboard_node.Model.{NodeSpec}
use yzboard_node.Runtime.{TlsCert}
use yzboard_node.Kernels.{user_diff}

-- What the change of a running instance comes to: `closed` is an instance that could neither be changed nor
-- restored, which is then stopped.
pub data Swap (B : Type 0) : Type 0 where
  swapped refused : B → Swap B
  closed : Swap B

-- `prepares` is whether a configuration passes the checks of a relay and `buildConfig`, and `build` does the
-- same and goes on to `box.New`; `start` is the start of a new instance. `only_rules` is whether two
-- configurations differ in their routes alone, or nothing where that fails; `update_rules` is their change in
-- place, `update_inbounds` that of the users (`reloadInboundsLocked`), and `accepts` its `validateRelayUsers`.
pub record Library : Type 1 where
  pub Box : Type 0
  pub accepts : NodeSpec → List UserSpec → Bool
  pub prepares : NodeSpec → List UserSpec → TlsCert → Bool
  pub build : NodeSpec → List UserSpec → TlsCert → Option Box
  pub start : Box → Box × Bool
  pub only_rules :
      NodeSpec → List UserSpec → TlsCert → NodeSpec → List UserSpec → TlsCert → Option Bool
  pub update_rules : Box → NodeSpec → List UserSpec → TlsCert → Box × Bool
  pub update_inbounds : Box → NodeSpec → List UserSpec → List UserSpec → TlsCert → Swap Box

-- The fields that belong to an instance.
pub record Running : Type 0 where
  pub node_config : NodeSpec
  pub users : List UserSpec
  pub tls : TlsCert

module _ (l : Library) where
  -- `box` is `none` where the kernel does not run. `current` is the last instance's, and `none` before one.
  pub record SingBox : Type 0 where
    pub box : Option l.Box
    pub current : Option Running
    pub global_devices : Dict ℕ (List String)

  -- `New`
  unfoldable pub new : SingBox
  new = record { box = none; current = none; global_devices = [] }

  -- `Protocols`
  unfoldable pub protocols : SingBox → List String
  protocols s =
      "vmess" ∷ "vless" ∷ "trojan" ∷ "shadowsocks" ∷ "hysteria" ∷ "hysteria2" ∷ "tuic" ∷ "naive"
      ∷ "socks" ∷ "http" ∷ "anytls" ∷ "mieru" ∷ []

  -- `IsRunning`
  unfoldable pub is_running : SingBox → Bool
  is_running s = elim (s.box) [ none ↦ false | some b ↦ true ]

  -- `Stop`
  unfoldable pub stop : SingBox → SingBox
  stop s = record s { box = none }

  abbrev pub install : NodeSpec → List UserSpec → TlsCert → SingBox → l.Box × Bool → SingBox × Bool
  install n users tls s (instance_box, true) = (
    record s {
      box = some instance_box;
      current = some (record { node_config = n; users = users; tls = tls });
    },
    true,
  )
  install n users tls s (instance_box, false) = (s, false)

  abbrev pub start_built :
      NodeSpec → List UserSpec → TlsCert → SingBox → Option l.Box → SingBox × Bool
  start_built n users tls s none = (s, false)
  start_built n users tls s (some instance_box) =
      install n users tls (stop s) (l.start instance_box)

  -- `Start`, and `startLocked`
  unfoldable pub start : SingBox → NodeSpec → List UserSpec → TlsCert → SingBox × Bool
  unfolding stop
  start s n users tls = start_built n users tls s (l.build n users tls)

  abbrev pub change_rules :
      NodeSpec → List UserSpec → TlsCert → SingBox → l.Box × Bool → SingBox × Bool
  change_rules n users tls s (b, true) = (
    record s {
      box = some b;
      current = some (record { node_config = n; users = users; tls = tls });
    },
    true,
  )
  change_rules n users tls s (b, false) = (record s { box = some b }, false)

  abbrev pub reload_how :
      Option Bool → NodeSpec → List UserSpec → TlsCert → l.Box → SingBox → SingBox × Bool
  reload_how none n users tls b s = (s, false)
  reload_how (some false) n users tls b s = start s n users tls
  reload_how (some true) n users tls b s = change_rules n users tls s (l.update_rules b n users tls)

  abbrev pub while_running :
      SingBox → Option l.Box → Option Running → (l.Box → Running → SingBox × Bool) → SingBox × Bool
  while_running s none o next = (s, false)
  while_running s (some b) none next = (s, false)
  while_running s (some b) (some r) next = next b r

  -- `Reload`
  unfoldable pub reload : SingBox → NodeSpec → List UserSpec → TlsCert → SingBox × Bool
  unfolding start
  reload s n users tls = while_running s s.box s.current (λ b old.
      if not (l.prepares n users tls)
      then (s, false)
      else reload_how (l.only_rules old.node_config old.users old.tls n users tls) n users tls b s)

  abbrev pub after_swap : Running → List UserSpec → SingBox → Swap l.Box → SingBox × Bool
  after_swap r users s (swapped b) =
      (record s { box = some b; current = some (record r { users = users }) }, true)
  after_swap r users s (refused b) = (record s { box = some b }, false)
  after_swap r users s closed = (record s { box = none }, false)

  -- The users of a running kernel change.
  abbrev pub swap_users : Running → List UserSpec → l.Box → SingBox → SingBox × Bool
  swap_users r users b s =
      after_swap r users s (l.update_inbounds b r.node_config r.users users r.tls)

  -- The loop of `AddUsers`: the users with ids that are new.
  abbrev pub new_users : Dict ℕ (Unit {0}) → List UserSpec → List UserSpec
  new_users existing [] = []
  new_users existing (u ∷ us) =
      let skipped = new_users existing us in
      let added = u ∷ new_users (insert u.id tt existing) us in
      if contains u.id existing then skipped else added

  abbrev pub is_empty : List UserSpec → Bool
  is_empty [] = true
  is_empty (u ∷ us) = false

  -- `AddUsers`
  unfoldable pub add_users : SingBox → List UserSpec → SingBox × Bool
  add_users s users = while_running s s.box s.current (λ b r.
      let to_add = new_users (foldl put_id [] r.users) users in
      if is_empty to_add then (s, true) else swap_users r (r.users ++ to_add) b s)

  -- `RemoveUsers`
  unfoldable pub remove_users : SingBox → List UserSpec → SingBox × Bool
  remove_users s users = while_running s s.box s.current (λ b r.
      let kept = keep_users (foldl put_id [] users) r.users in
      if nat_eq (length kept) (length r.users) then (s, true) else swap_users r kept b s)

  -- `UpdateUsers`
  unfoldable pub update_users : SingBox → List UserSpec → SingBox × Bool
  update_users s users = while_running s s.box s.current (λ b r.
      let (to_add, to_remove) = user_diff r.users users in
      if not (l.accepts r.node_config users)
      then (s, false)
      else if is_empty to_add
      then (if is_empty to_remove
          then (record s { current = some (record r { users = users }) }, true)
          else swap_users r users b s)
      else swap_users r users b s)

  -- What the tracker of connections, which the first instance brings, was told of the other nodes' devices.
  abbrev pub told : Option Running → Dict ℕ (List String) → SingBox → SingBox
  told none devices s = s
  told (some r) devices s = record s { global_devices = devices }

  -- `UpdateGlobalDevices` and `ClearGlobalDevices`
  unfoldable pub update_global_devices : SingBox → Dict ℕ (List String) → SingBox
  update_global_devices s devices = told s.current devices s

  unfoldable pub clear_global_devices : SingBox → SingBox
  clear_global_devices s = told s.current [] s
