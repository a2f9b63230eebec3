-- ===== src/Runtime/Sound.antt =====
-- In every state that the main loop reaches the service is sound.
use Prim.Native.String.{String}
use yzboard_node.Prelude.{
  ℕ, zero, suc, ◌≤◌, ◌≡◌, refl, ◌∙◌, Bool, true, false, not, ◌&&◌, ◌||◌, Option, none, some, List,
  if◌then◌else◌, arith, Bool-cases, inl, inr, string_Eq,
}
use yzboard_node.Users.{UserSpec}
use yzboard_node.Users.Maps.{IsUnique}
use yzboard_node.Model.{NodeSpec}
use yzboard_node.Runtime.{Parts, Controller, Service, config_hash}
use yzboard_node.Runtime.Apply.{is_set, notify_status, fail_runtime, apply_changes}
use yzboard_node.Runtime.Laws.{IsKernel, IsController}
use yzboard_node.Runtime.Steady.{IsSteady, IsDown-IsSteady, fail_runtime-IsDown}
use yzboard_node.Runtime.Apply.{prepare_user_state}
use yzboard_node.Runtime.Swap.{steady-IsPending, prepare_user_state-IsPending}
use yzboard_node.Prelude.{Outcome, ok, err}
use yzboard_node.Users.{Slice, elements}
use yzboard_node.Mailbox
use yzboard_node.Mailbox.{
  Event, EventType, MailboxState, NodeMailbox, sync_config, sync_users, sync_user_delta,
  sync_devices, other, drain_if_ready, mark_ready, seed_baseline,
}
use yzboard_node.Runtime.{Pull, PullResult, idle, polling, sending}
use yzboard_node.Runtime.Events.{Snapshot, handle_ws_event, apply_pull_result}
use yzboard_node.Runtime.Frame.{wishes, around}
use yzboard_node.Runtime.Agree.{IsAgreed, prepared-IsFramed, apply_changes-IsFramed}
use yzboard_node.Runtime.Handled.{IsGood, new_config-IsPending, apply_changes-IsSteady}
use yzboard_node.Runtime.{Config, RuntimeStatus}
use yzboard_node.Runtime.Events.{
  Bootstrap, new_service, initial_setup, start_loop, start_ws_client, set_up, pull_via_api_async,
  pull_answer, on_answer, pull_send, pull_receive, request_ws_resync, event_of, handle_state,
  drain_machine_mailbox, mark_mailbox_ready, handle_ws_status, ws_discovery, on_discover,
  needs_check, enforce,
}
use yzboard_node.Runtime.Handled.{IsFairEvent, handle_ws_event-IsGood, same_kernel-IsSteady}
use yzboard_node.Runtime.Pulled.{pull_result-IsFairResult, apply_pull_result-IsGood}
use yzboard_node.Runtime.Backoff.{should_skip, on_failure, on_success}
use yzboard_node.Limiter
use yzboard_node.Runtime.World.{
  IsFewSkips, IsFairPull, IsFairQueue, IsFairMailbox, IsFair, IsFairAnswer, apply-IsUnique, Step,
  event, arrival, drain, status, discovery, pull_tick, answer, send, receive, track, crash, Reach,
  started, next,
}

few_idle : (p : Pull) (n : ℕ) → p ≡ idle → n ≤ 1 → IsFewSkips p n
few_idle idle n e few = few
few_idle (polling x) n e few = cc
few_idle (sending r) n e few = cc

-- A poll that fails where no call was to be skipped makes the next one skip.
on_failure-once : (n : ℕ) → n ≡ 0 → on_failure n ≤ 1
unfolding on_failure
on_failure-once n e = ground (arith, e)

-- What a drain leaves in the mailbox, and what it hands over.
drained-IsUnique :
    (m : NodeMailbox NodeSpec)
    → IsUnique (elements m.users)
    → IsUnique (elements (drain_if_ready m).0.users)
      × IsUnique (elements (drain_if_ready m).1.users)
unfolding drain_if_ready
drained-IsUnique m u = elim (Bool-cases m.ready) [
  | inl e ↦ elim (Bool-cases m.dirty_users) [ inl d ↦ rw (e, d) (u, u) | inr d ↦ rw (e, d) (u, tt) ]
  | inr e ↦ rw e (u, tt)
]

seed_config-users :
    (o : Option NodeSpec) (m : NodeMailbox NodeSpec) → (Mailbox.seed_config o m).users ≡ m.users
seed_config-users none m = refl
seed_config-users (some n) m = by_config m.config
  where
    by_config :
        (x : Option NodeSpec)
        → (elim x as (λ y. NodeMailbox NodeSpec) [
          | none ↦ record m { config = some n }
          | some old ↦ m
        ]).users
          ≡ m.users
    by_config none = refl
    by_config (some old) = refl

seed_users-IsUnique :
    (us : List UserSpec) (m : NodeMailbox NodeSpec)
    → IsUnique us
    → IsUnique (elements m.users)
    → IsUnique (elements (Mailbox.seed_users (some us) m).users)
seed_users-IsUnique us m x u = elim (Bool-cases m.has_full_user_state) [
  | inl e ↦ rw e u
  | inr e ↦ rw e x
]

seeded-IsUnique :
    (us : List UserSpec) (o : Option NodeSpec) (m : NodeMailbox NodeSpec)
    → IsUnique us
    → IsUnique (elements m.users)
    → IsUnique (elements (mark_ready (seed_baseline (some us) o m)).users)
unfolding mark_ready seed_baseline
seeded-IsUnique us o m x u =
    rw (seed_config-users o (Mailbox.seed_users (some us) m)) (seed_users-IsUnique us m x u)

module _ {w : Parts} (k : IsKernel w.kernel) (c : IsController w.firewall) where
  -- Steady, the limiter in agreement, and all that waits fair.
  abbrev pub IsSound : Service w → Type 0
  IsSound s = IsSteady k c s × IsAgreed (wishes s) × IsFair w (around s)

  good-IsSound : (s t : Service w) → IsFair w (around s) → IsGood k c (around s) t → IsSound t
  good-IsSound s t f (st, (a, e)) = (st, a, rw e f)

  sound-IsGood : (s : Service w) → IsSound s → IsGood k c (around s) s
  sound-IsGood s (st, a, f) = (st, (a, refl))

  event-IsSound :
      (e : Event NodeSpec) (s : Service w)
      → IsFairEvent e
      → IsSound s
      → IsSound (handle_ws_event e s)
  event-IsSound e s fe h =
      good-IsSound s (handle_ws_event e s) h.2
        (handle_ws_event-IsGood k c e s fe (sound-IsGood s h))

  choose-IsSound :
      (b : Bool) (s1 s2 : Service w) → IsSound s1 → IsSound s2 → IsSound (if b then s1 else s2)
  choose-IsSound true s1 s2 h g = h
  choose-IsSound false s1 s2 h g = g

  -- A poll that is begun or skipped, where none runs.
  begun-IsSound :
      (n : ℕ) (s : Service w)
      → s.pull ≡ idle
      → n ≤ 1
      → IsSound s
      → IsSound (
          if (should_skip n).1
          then record s { pull_backoff = (should_skip n).0 }
          else record s { pull = polling s.last_config_hash; pull_backoff = (should_skip n).0 })
  unfolding should_skip
  begun-IsSound zero s e few h = (
    h.0,
    h.1,
    record {
      fair_pull = tt;
      few_skips = refl;
      fair_queue = h.2.fair_queue;
      fair_mailbox = h.2.fair_mailbox;
    },
  )
  begun-IsSound (suc m) s e few h = (
    h.0,
    h.1,
    record {
      fair_pull = h.2.fair_pull;
      few_skips = few_idle s.pull m e (ground (arith, few));
      fair_queue = h.2.fair_queue;
      fair_mailbox = h.2.fair_mailbox;
    },
  )

  pull_via_api_async-IsSound : (s : Service w) → IsSound s → IsSound (pull_via_api_async s)
  unfolding pull_via_api_async
  pull_via_api_async-IsSound s h = by_pull s.pull refl h.2.few_skips
    where
      by_pull :
          (p : Pull)
          → s.pull ≡ p
          → IsFewSkips p s.pull_backoff
          → IsSound (elim p [
            | idle ↦
                let skip = should_skip s.pull_backoff in
                if not w.supports_polling
                then s
                else if skip.1
                then record s { pull_backoff = skip.0 }
                else record s { pull = polling s.last_config_hash; pull_backoff = skip.0 }
            | _ ↦ s
          ])
      by_pull idle e few =
          choose-IsSound (not w.supports_polling) s _ h (begun-IsSound s.pull_backoff s e few h)
      by_pull (polling x) e few = h
      by_pull (sending r) e few = h

  request_ws_resync-IsSound : (s : Service w) → IsSound s → IsSound (request_ws_resync s)
  unfolding request_ws_resync
  request_ws_resync-IsSound s h =
      choose-IsSound s.ws_resync_pending s
        (pull_via_api_async (record s { ws_resync_pending = true })) h
        (pull_via_api_async-IsSound (record s { ws_resync_pending = true }) h)

  handle_state-IsSound :
      (x : MailboxState NodeSpec) (s : Service w)
      → IsUnique (elements x.users)
      → IsSound s
      → IsSound (handle_state x s)
  unfolding handle_state
  handle_state-IsSound x s u h =
      let on : EventType → Service w → Service w = λ t s'. handle_ws_event (event_of t x) s' in
      let g : (t : EventType) (s' : Service w) → IsSound s' → IsSound (on t s') =
        λ t s' h'. event-IsSound (event_of t x) s' (u, tt) h' in
      let s1 = if x.has_config then on sync_config s else s in
      let h1 : IsSound s1 =
        choose-IsSound x.has_config (on sync_config s) s (g sync_config s h) h in
      let s2 = if x.has_users then on sync_users s1 else s1 in
      let h2 : IsSound s2 =
        choose-IsSound x.has_users (on sync_users s1) s1 (g sync_users s1 h1) h1 in
      let s3 = if x.has_devices then on sync_devices s2 else s2 in
      let h3 : IsSound s3 =
        choose-IsSound x.has_devices (on sync_devices s2) s2 (g sync_devices s2 h2) h2 in
      choose-IsSound x.needs_reconcile (request_ws_resync s3) s3 (request_ws_resync-IsSound s3 h3)
        h3

  drained-IsSound :
      (m : NodeMailbox NodeSpec) (s : Service w)
      → IsUnique (elements m.users)
      → IsSound s
      → IsSound
          (handle_state (drain_if_ready m).1 (record s { mailbox = some (drain_if_ready m).0 }))
  drained-IsSound m s u h =
      let d = drained-IsUnique m u in
      handle_state-IsSound (drain_if_ready m).1 (record s { mailbox = some (drain_if_ready m).0 })
        d.1
        (
          h.0,
          h.1,
          record {
            fair_pull = h.2.fair_pull;
            few_skips = h.2.few_skips;
            fair_queue = h.2.fair_queue;
            fair_mailbox = d.0;
          },
        )

  drain-IsSound : (s : Service w) → IsSound s → IsSound (drain_machine_mailbox s)
  unfolding drain_machine_mailbox
  drain-IsSound s h = by_mailbox s.mailbox h.2.fair_mailbox
    where
      by_mailbox :
          (o : Option (NodeMailbox NodeSpec))
          → IsFairMailbox o
          → IsSound (elim o [
            | none ↦ s
            | some m ↦
                let drained = drain_if_ready m in
                handle_state drained.1 (record s { mailbox = some drained.0 })
          ])
      by_mailbox none u = h
      by_mailbox (some m) u = drained-IsSound m s u h

  mark_mailbox_ready-IsSound : (s : Service w) → IsSound s → IsSound (mark_mailbox_ready s)
  unfolding mark_mailbox_ready
  mark_mailbox_ready-IsSound s h = by_mailbox s.mailbox h.2.fair_mailbox
    where
      by_mailbox :
          (o : Option (NodeMailbox NodeSpec))
          → IsFairMailbox o
          → IsSound (elim o [
            | none ↦ s
            | some m ↦ drain_machine_mailbox (record s {
              mailbox = some (mark_ready (seed_baseline (some s.last_users) s.last_config m));
            })
          ])
      by_mailbox none u = h
      by_mailbox (some m) u =
          drain-IsSound
            (record s {
              mailbox = some (mark_ready (seed_baseline (some s.last_users) s.last_config m));
            })
            (
              h.0,
              h.1,
              record {
                fair_pull = h.2.fair_pull;
                few_skips = h.2.few_skips;
                fair_queue = h.2.fair_queue;
                fair_mailbox = seeded-IsUnique s.last_users s.last_config m h.0.0.unique u;
              },
            )

  handle_ws_status-IsSound :
      (r b : Bool) (now : ℕ) (s : Service w) → IsSound s → IsSound (handle_ws_status r b now s)
  unfolding handle_ws_status
  handle_ws_status-IsSound r b now s h =
      let s1 = if r then request_ws_resync s else s in
      let h1 : IsSound s1 =
        choose-IsSound r (request_ws_resync s) s (request_ws_resync-IsSound s h) h in
      choose-IsSound b _ _ (pull_via_api_async-IsSound (record s1 { ws_disconnect_at = none }) h1) (
        pull_via_api_async-IsSound _ (
          same_kernel-IsSteady k c (w.kernel.clear_global_devices s1.kernel) s1
              (k.devices_cleared s1.kernel) h1.0,
          h1.1,
          h1.2,
        ))

  on_discover-IsSound :
      (a : Outcome (Unit {0}) Bool) (s : Service w) → IsSound s → IsSound (on_discover a s)
  on_discover-IsSound (err e) s h = h
  on_discover-IsSound (ok found) s h =
      let s1 = pull_via_api_async s in
      let h1 = pull_via_api_async-IsSound s h in
      choose-IsSound found _ _
        (choose-IsSound s1.ws_client s1
          (record s1 { ws_client = true; ws_disconnect_at = none; ws_running = true }) h1 h1)
        (choose-IsSound s1.ws_client
          (record s1 { ws_client = false; ws_disconnect_at = none; ws_running = false }) s1 h1 h1)

  ws_discovery-IsSound :
      (a : Outcome (Unit {0}) Bool) (now : ℕ) (s : Service w)
      → IsSound s
      → IsSound (ws_discovery a now s)
  unfolding ws_discovery
  ws_discovery-IsSound a now s h =
      choose-IsSound (not w.supports_discovery) s _ h
        (choose-IsSound (needs_check s now) (on_discover a s) s (on_discover-IsSound a s h) h)

  on_answer-IsSound :
      (current : String) (x : Outcome (Unit {0}) Snapshot) (s : Service w)
      → IsFairAnswer x
      → s.pull_backoff ≡ 0
      → IsSound s
      → IsSound (on_answer current x s)
  unfolding on_success
  on_answer-IsSound current (err e) s f few h = (
    h.0,
    h.1,
    record {
      fair_pull = tt;
      few_skips = on_failure-once s.pull_backoff few;
      fair_queue = h.2.fair_queue;
      fair_mailbox = h.2.fair_mailbox;
    },
  )
  on_answer-IsSound current (ok x) s f few h = (
    h.0,
    h.1,
    record {
      fair_pull = pull_result-IsFairResult w current (w.certs.cert_renewed s.cert).1 x f;
      few_skips = refl;
      fair_queue = h.2.fair_queue;
      fair_mailbox = h.2.fair_mailbox;
    },
  )

  pull_answer-IsSound :
      (x : Outcome (Unit {0}) Snapshot) (s : Service w)
      → IsFairAnswer x
      → IsSound s
      → IsSound (pull_answer x s)
  unfolding pull_answer
  pull_answer-IsSound x s f h = by_pull s.pull h.2.few_skips
    where
      by_pull :
          (p : Pull)
          → IsFewSkips p s.pull_backoff
          → IsSound (elim p [ polling current ↦ on_answer current x s | _ ↦ s ])
      by_pull idle few = h
      by_pull (polling current) few = on_answer-IsSound current x s f few h
      by_pull (sending r) few = h

  pull_send-IsSound : (s : Service w) → IsSound s → IsSound (pull_send s)
  unfolding pull_send
  pull_send-IsSound s h = by_pull s.pull h.2.fair_pull h.2.few_skips
    where
      by_pull :
          (p : Pull)
          → IsFairPull w p
          → IsFewSkips p s.pull_backoff
          → IsSound (elim p [
            | sending result ↦
                if is_set s.pull_results
                then s
                else record s { pull = idle; pull_results = some result }
            | _ ↦ s
          ])
      by_pull idle f few = h
      by_pull (polling current) f few = h
      by_pull (sending r) f few =
          choose-IsSound (is_set s.pull_results) s (record s { pull = idle; pull_results = some r })
            h
            (
              h.0,
              h.1,
              record {
                fair_pull = tt;
                few_skips = ground (arith, few);
                fair_queue = f;
                fair_mailbox = h.2.fair_mailbox;
              },
            )

  pull_receive-IsSound : (s : Service w) → IsSound s → IsSound (pull_receive s)
  unfolding pull_receive
  pull_receive-IsSound s h = by_queue s.pull_results h.2.fair_queue
    where
      by_queue :
          (o : Option PullResult)
          → IsFairQueue w o
          → IsSound (elim o [
            | none ↦ s
            | some r ↦ apply_pull_result r (record s { pull_results = none })
          ])
      by_queue none f = h
      by_queue (some r) f =
          let s1 = record s { pull_results = none } in
          good-IsSound s1 (apply_pull_result r s1)
            (record {
              fair_pull = h.2.fair_pull;
              few_skips = h.2.few_skips;
              fair_queue = tt;
              fair_mailbox = h.2.fair_mailbox;
            })
            (apply_pull_result-IsGood k c r s1 f (h.0, (h.1, refl)))

  enforce-IsSound : (s : Service w) → IsSound s → IsSound (enforce s)
  unfolding enforce fail_runtime
  enforce-IsSound s h =
      choose-IsSound (is_set s.applied_config && not (w.kernel.is_running s.kernel))
        (fail_runtime s.last_config s.last_users s) s
        (
          IsDown-IsSteady k c (fail_runtime s.last_config s.last_users s)
              (fail_runtime-IsDown k c s.last_config s.last_users s h.0.0),
          h.1,
          h.2,
        )
        h

  step-IsSound : (s t : Service w) → IsSound s → Step s t → IsSound t
  step-IsSound s t h (event e f) = event-IsSound e s f h
  step-IsSound s t h (arrival m e at f) = (
    h.0,
    h.1,
    record {
      fair_pull = h.2.fair_pull;
      few_skips = h.2.few_skips;
      fair_queue = h.2.fair_queue;
      fair_mailbox = apply-IsUnique m e f (rw at at h.2.fair_mailbox);
    },
  )
  step-IsSound s t h drain = drain-IsSound s h
  step-IsSound s t h (status r b now) = handle_ws_status-IsSound r b now s h
  step-IsSound s t h (discovery a now) = ws_discovery-IsSound a now s h
  step-IsSound s t h pull_tick = pull_via_api_async-IsSound s h
  step-IsSound s t h (answer x f) = pull_answer-IsSound x s f h
  step-IsSound s t h send = pull_send-IsSound s h
  step-IsSound s t h receive = pull_receive-IsSound s h
  step-IsSound s t h track = enforce-IsSound s h
  step-IsSound s t h (crash z down) = ((h.0.0, λ up. ground (arith, up, down)), h.1, h.2)

  new_service-IsSound :
      (cfg : Config) (z : w.kernel.State) (x : w.certs.State) (f : Option w.firewall.State)
      → w.kernel.is_running z ≡ false
      → IsSound (new_service cfg z x f)
  unfolding new_service Limiter.new
  new_service-IsSound cfg z x f down = (
    (
      record { unique = tt; users_hashed = inr (refl, refl); config_hashed = refl; noted = refl },
      λ up. ground (arith, up, down),
    ),
    λ id. refl,
    record { fair_pull = tt; few_skips = ground arith; fair_queue = tt; fair_mailbox = tt },
  )

  set_up-IsSound :
      (n : NodeSpec) (us : Slice UserSpec) (s : Service w)
      → IsUnique (elements us)
      → IsSound s
      → IsSound (set_up n us s)
  set_up-IsSound n us s u h =
      let s1 = record s { last_config = some n; last_config_hash = config_hash w (some n) } in
      let s2 = prepare_user_state (elements us) s1 in
      let p =
        prepare_user_state-IsPending k c (elements us) s1 u
          (new_config-IsPending k c n s (steady-IsPending k c s h.0)) in
      let (a, y) = prepared-IsFramed (elements us) s1 in
      let (a', y') = apply_changes-IsFramed s2 a in
      mark_mailbox_ready-IsSound (apply_changes s2).0
        (apply_changes-IsSteady k c s2 p, a', rw (y' ∙ y) h.2)

  initial_setup-IsSound :
      (b : Bootstrap) (s : Service w)
      → IsUnique (elements b.users)
      → IsFairMailbox b.mailbox
      → IsSound s
      → IsSound (initial_setup b s).0
  unfolding initial_setup
  initial_setup-IsSound b s u fm h = by_config b.config
    where
      s1 : Service w
      s1 = record s { ws_client = b.has_push || s.ws_client; mailbox = b.mailbox }

      h1 : IsSound s1
      h1 = (
        h.0,
        h.1,
        record {
          fair_pull = h.2.fair_pull;
          few_skips = h.2.few_skips;
          fair_queue = h.2.fair_queue;
          fair_mailbox = fm;
        },
      )

      by_config :
          (o : Option NodeSpec)
          → IsSound
              (elim o as (λ x. Service w × Bool) [
                | none ↦ (s1, b.has_push)
                | some n ↦ (set_up n b.users s1, true)
              ]).0
      by_config none = h1
      by_config (some n) = set_up-IsSound n b.users s1 u h1

  start_loop-IsSound : (s : Service w) → IsSound s → IsSound (start_loop s)
  unfolding start_loop
  start_loop-IsSound s h =
      let s1 = start_ws_client s in
      choose-IsSound s.runtime_error s1 (notify_status RuntimeStatus.running s1) h h

  -- In every state that the loop reaches, if the panel names no user twice in one message and no id twice
  -- in one delta, and the kernel and the controller of the firewall keep the laws of their interfaces: a
  -- running kernel holds the configuration of lastConfig and, by their UUIDs, exactly the users of lastUsers;
  -- the controller, where there is one, keeps its promise for that configuration and the type of the kernel;
  -- no error is noted, and the clock is in use if the configuration needs it. The limiter holds the users of
  -- lastUsers. An error is noted exactly with the failed attempt, and only while the kernel stands still.
  pub reach-IsSound : (s : Service w) → Reach s → IsSound s
  reach-IsSound s (started cfg z x f b down u fm) =
      start_loop-IsSound (initial_setup b (new_service cfg z x f)).0
        (initial_setup-IsSound b (new_service cfg z x f) u fm (new_service-IsSound cfg z x f down))
  reach-IsSound s (next {s = v} r st) = step-IsSound v s (reach-IsSound v r) st

-- A controller that promises nothing.
abbrev any_controller : (f : Controller) → IsController f
any_controller f = record { IsApplied = λ s n t. Unit; applied = λ s n t e. tt }

-- In every state that the loop reaches, if the panel names no user twice in one message and no id twice in
-- one delta, and the kernel keeps the laws of its interface, at most one poll is going to be skipped, however
-- many polls have failed.
pub reach-pull_backoff :
    {w : Parts} (k : IsKernel w.kernel) (s : Service w) → Reach s → s.pull_backoff ≤ 1
reach-pull_backoff {w} k s r =
    at_most_one s.pull s.pull_backoff (reach-IsSound k (any_controller w.firewall) s r).2.few_skips
  where
    at_most_one : (p : Pull) (n : ℕ) → IsFewSkips p n → n ≤ 1
    at_most_one idle n few = few
    at_most_one (polling hash) n few = ground (arith, few)
    at_most_one (sending r) n few = ground (arith, few)
