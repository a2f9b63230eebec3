-- ===== src/Runtime/World.antt =====
-- The main loop of `Run` as a step relation: events, polling, crashes of the kernel and the service's own
-- checks come in any order.
use Prim.Native.String.{String}
use yzboard_node.Prelude.{
  ℕ, ◌≤◌, ◌≡◌, Bool, false, Option, none, some, List, [], ◌∷◌, Bool-cases, inl, inr, ◌==◌,
  string_Eq,
}
use yzboard_node.Users.{UserSpec}
use yzboard_node.Users.Maps.{IsUnique}
use yzboard_node.Model.{NodeSpec}
use yzboard_node.Runtime.{Parts, Service}
use yzboard_node.Prelude.{Outcome, ok, err}
use yzboard_node.Users.{Slice, elements}
use yzboard_node.Mailbox
use yzboard_node.Mailbox.{
  Event, EventType, MailboxState, NodeMailbox, sync_config, sync_users, sync_user_delta,
  sync_devices, other, drain_if_ready, mark_ready, seed_baseline,
}
use yzboard_node.Runtime.{Pull, PullResult, idle, polling, sending}
use yzboard_node.Runtime.Events.{Snapshot, handle_ws_event}
use yzboard_node.Runtime.Frame.{Around}
use mathlib.Core.List.{foldl}
use yzboard_node.Users.{put_id}
use yzboard_node.Users.Maps.{keep_users-IsUnique}
use yzboard_node.Mailbox.Delta.{apply_user_delta-add}
use yzboard_node.Runtime.{Config}
use yzboard_node.Runtime.Events.{
  Bootstrap, new_service, initial_setup, start_loop, pull_via_api_async, pull_answer, pull_send,
  pull_receive, drain_machine_mailbox, handle_ws_status, ws_discovery, enforce,
}
use yzboard_node.Runtime.Handled.{IsFairEvent}
use yzboard_node.Runtime.Pulled.{IsFairResult}

module _ (w : Parts) where
  abbrev pub IsFairPull : Pull → Type 0
  IsFairPull idle = Unit
  IsFairPull (polling hash) = Unit
  IsFairPull (sending r) = IsFairResult w r

  abbrev pub IsFairQueue : Option PullResult → Type 0
  IsFairQueue none = Unit
  IsFairQueue (some r) = IsFairResult w r

-- A poll begins with no call to be skipped, and leaves one at most.
abbrev pub IsFewSkips : Pull → ℕ → Type 0
IsFewSkips idle n = n ≤ 1
IsFewSkips (polling hash) n = n ≡ 0
IsFewSkips (sending r) n = n ≡ 0

-- The mailbox names no user twice.
abbrev pub IsFairMailbox : Option (NodeMailbox NodeSpec) → Type 0
IsFairMailbox none = Unit
IsFairMailbox (some m) = IsUnique (elements m.users)

module _ (w : Parts) where
  -- What waits for the service is fair.
  pub record IsFair (y : Around) : Type 0 where
    pub fair_pull : IsFairPull w y.pull
    pub few_skips : IsFewSkips y.pull y.pull_backoff
    pub fair_queue : IsFairQueue w y.pull_results
    pub fair_mailbox : IsFairMailbox y.mailbox

delta-IsUnique :
    (users : Slice UserSpec) (action : String) (delta : List UserSpec)
    → IsUnique (elements users)
    → IsUnique (elements (Mailbox.apply_user_delta users action delta).0)
unfolding Mailbox.apply_user_delta
delta-IsUnique users action delta u = elim (Bool-cases (action == "add")) [
  | inl e ↦ rw e (apply_user_delta-add users delta u).1
  | inr e ↦ elim (Bool-cases (action == "remove")) [
    | inl e' ↦ rw (e, e') (keep_users-IsUnique (foldl put_id [] delta) (elements users) u)
    | inr e' ↦ rw (e, e') u
  ]
]

on_delta-IsUnique :
    (action : String) (delta : List UserSpec) (m : NodeMailbox NodeSpec)
    → IsUnique (elements m.users)
    → IsUnique (elements (Mailbox.on_delta action delta m).users)
unfolding Mailbox.on_delta
on_delta-IsUnique action [] m u = u
on_delta-IsUnique action (d ∷ ds) m u = elim (Bool-cases m.has_full_user_state) [
  | inl e ↦ elim (Bool-cases (Mailbox.apply_user_delta m.users action (d ∷ ds)).1) [
    | inl e' ↦ rw (e, e') (delta-IsUnique m.users action (d ∷ ds) u)
    | inr e' ↦ rw (e, e') u
  ]
  | inr e ↦ rw e u
]

-- An event that names no user twice leaves a mailbox that names none twice.
pub apply-IsUnique :
    (m : NodeMailbox NodeSpec) (e : Event NodeSpec)
    → IsFairEvent e
    → IsUnique (elements m.users)
    → IsUnique (elements (Mailbox.apply m e).users)
unfolding Mailbox.apply
apply-IsUnique m e f u = by_type e.type e.config e.users e.device_users f.0
  where
    by_type :
        (t : EventType) (o : Option NodeSpec) (us : Slice UserSpec)
        (d : Option (List (ℕ × List String)))
        → IsUnique (elements us)
        → IsUnique (
            elements
              (elim t as (λ x. NodeMailbox NodeSpec) [
                | sync_config ↦ Mailbox.on_config o m
                | sync_users ↦ Mailbox.on_users us m
                | sync_devices ↦ Mailbox.on_devices d m
                | sync_user_delta ↦ Mailbox.on_delta e.delta_action e.delta_users m
                | other ↦ m
              ]).users)
    by_type sync_config none us d x = u
    by_type sync_config (some n) us d x = u
    by_type sync_users o none d x = u
    by_type sync_users o (some us) d x = x
    by_type sync_devices o us none x = u
    by_type sync_devices o us (some d) x = u
    by_type sync_user_delta o us d x = on_delta-IsUnique e.delta_action e.delta_users m u
    by_type other o us d x = u

-- What the panel answers names no user twice.
abbrev pub IsFairAnswer : Outcome (Unit {0}) Snapshot → Type 0
IsFairAnswer (err e) = Unit
IsFairAnswer (ok x) = IsUnique (elements x.users)

module _ {w : Parts} where
  -- One turn: a case of the loop, the end of a poll, an event that reaches the mailbox, or a crash of the
  -- kernel.
  pub data Step (s : Service w) : Service w → Type 0 where
    event : (e : Event NodeSpec) → IsFairEvent e → Step s (handle_ws_event e s)
    arrival :
        (m : NodeMailbox NodeSpec) (e : Event NodeSpec)
        → s.mailbox ≡ some m
        → IsFairEvent e
        → Step s (record s { mailbox = some (Mailbox.apply m e) })
    drain : Step s (drain_machine_mailbox s)
    status :
        (needs_resync connected : Bool) (now : ℕ)
        → Step s (handle_ws_status needs_resync connected now s)
    discovery : (answer : Outcome (Unit {0}) Bool) (now : ℕ) → Step s (ws_discovery answer now s)
    pull_tick : Step s (pull_via_api_async s)
    answer : (x : Outcome (Unit {0}) Snapshot) → IsFairAnswer x → Step s (pull_answer x s)
    send : Step s (pull_send s)
    receive : Step s (pull_receive s)
    track : Step s (enforce s)
    crash : (z : w.kernel.State) → w.kernel.is_running z ≡ false → Step s (record s { kernel = z })

  -- What can follow on a start with a bootstrap that names no user twice.
  pub data Reach : Service w → Type 0 where
    started :
        (cfg : Config) (z : w.kernel.State) (x : w.certs.State) (f : Option w.firewall.State)
        (b : Bootstrap)
        → w.kernel.is_running z ≡ false
        → IsUnique (elements b.users)
        → IsFairMailbox b.mailbox
        → Reach (start_loop (initial_setup b (new_service cfg z x f)).0)
    next : {s t : Service w} → Reach s → Step s t → Reach t
