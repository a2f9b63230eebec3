-- ===== src/Runtime/Handled.antt =====
-- Each case of the main loop keeps the service sound: steady, its limiter in agreement, and what waits for
-- it fair.
use Prim.Native.String.{String}
use yzboard_node.Prelude.{
  ℕ, ◌≡◌, refl, sym, ◌∙◌, Bool, true, false, Option, none, some, List, if◌then◌else◌, ◌==◌,
  string_Eq,
}
use yzboard_node.Users.{UserSpec}
use yzboard_node.Users.Maps.{IsUnique}
use yzboard_node.Model.{NodeSpec}
use yzboard_node.Runtime.{Parts, Service, config_hash, user_hash}
use yzboard_node.Runtime.Apply.{apply_changes}
use yzboard_node.Runtime.Laws.{IsKernel, IsController}
use yzboard_node.Runtime.Steady.{IsSteady, IsPending, IsDown, IsDown-IsSteady, IsSettled}
use yzboard_node.Runtime.Apply.{apply_user_delta, no_users, apply_user_update}
use yzboard_node.Runtime.Changes.{apply_changes-IsSettled}
use yzboard_node.Runtime.Swap.{steady-IsPending}
use yzboard_node.Users.{Slice, elements}
use yzboard_node.Mailbox.{
  Event, EventType, sync_config, sync_users, sync_user_delta, sync_devices, other,
}
use yzboard_node.Runtime.Events.{
  handle_ws_event, on_sync_config, on_sync_users, on_user_delta, on_sync_devices, or_reset,
  reset_polling_state,
}
use yzboard_node.Runtime.Apply.{apply_config_update}
use yzboard_node.Runtime.Updates.{weaken, of_both, settled-IsSteady, apply_user_update-IsSteady}
use yzboard_node.Runtime.Deltas.{apply_user_delta-IsSteady}
use yzboard_node.Runtime.Frame.{Around, around}
use yzboard_node.Runtime.Agree.{
  IsFramed, apply_user_update-IsFramed, apply_user_delta-IsFramed, apply_config_update-IsFramed,
}

-- An event of the panel names no user twice.
abbrev pub IsFairEvent : Event NodeSpec → Type 0
IsFairEvent e = IsUnique (elements e.users) × IsUnique e.delta_users

module _ {w : Parts} (k : IsKernel w.kernel) (c : IsController w.firewall) where
  -- Steady and in agreement, with the rest as it was.
  abbrev pub IsGood : Around → Service w → Type 0
  IsGood y s = IsSteady k c s × IsFramed y s

  pub or_reset-IsGood : (y : Around) (r : Service w × Bool) → IsGood y r.0 → IsGood y (or_reset r)
  unfolding reset_polling_state
  or_reset-IsGood y (s, true) h = h
  or_reset-IsGood y (s, false) h = h

  pub apply_changes-IsSteady : (s : Service w) → IsPending k c s → IsSteady k c (apply_changes s).0
  apply_changes-IsSteady s p = of_both (IsSteady k c) (apply_changes s) (
      weaken (IsSettled k c s.last_config s.last_users) (IsDown k c) (IsSteady k c) (IsSteady k c)
        (apply_changes s) (apply_changes-IsSettled k c s p)
        (λ s' h'. settled-IsSteady k c s.last_config s.last_users s' h') (IsDown-IsSteady k c))

  pub new_config-IsPending :
      (n : NodeSpec) (s : Service w)
      → IsPending k c s
      → IsPending k c (record s { last_config = some n; last_config_hash = config_hash w (some n) })
  new_config-IsPending n s p = (
    record {
      unique = p.0.unique;
      users_hashed = p.0.users_hashed;
      config_hashed = refl;
      noted = p.0.noted;
    },
    λ up. let (m, lc, good) = p.1 up in (n, refl, good),
  )

  pub apply_config_update-IsSteady :
      (n : NodeSpec) (s : Service w)
      → IsPending k c s
      → IsSteady k c (apply_config_update n (config_hash w (some n)) s).0
  unfolding apply_config_update
  apply_config_update-IsSteady n s p = apply_changes-IsSteady _ (new_config-IsPending n s p)

  pub choose-IsGood :
      (y : Around) (b : Bool) (s1 s2 : Service w)
      → IsGood y s1
      → IsGood y s2
      → IsGood y (if b then s1 else s2)
  choose-IsGood y true s1 s2 h g = h
  choose-IsGood y false s1 s2 h g = g

  on_sync_config-IsGood :
      (o : Option NodeSpec) (s : Service w)
      → IsGood (around s) s
      → IsGood (around s) (on_sync_config o s)
  on_sync_config-IsGood none s h = h
  on_sync_config-IsGood (some n) s h =
      let hash = config_hash w (some n) in
      choose-IsGood (around s) (hash == s.last_config_hash) s
        (or_reset (apply_config_update n hash s)) h
        (or_reset-IsGood (around s) (apply_config_update n hash s) (
          apply_config_update-IsSteady n s (steady-IsPending k c s h.0),
          apply_config_update-IsFramed n hash s h.1.0,
        ))

  on_sync_users-IsGood :
      (o : Slice UserSpec) (s : Service w)
      → IsUnique (elements o)
      → IsGood (around s) s
      → IsGood (around s) (on_sync_users o s)
  on_sync_users-IsGood none s u h = h
  on_sync_users-IsGood (some us) s u h =
      let hash = user_hash w us in
      choose-IsGood (around s) (hash == s.last_user_hash) s (or_reset (apply_user_update us hash s))
        h
        (or_reset-IsGood (around s) (apply_user_update us hash s)
          (apply_user_update-IsSteady k c us s u h.0, apply_user_update-IsFramed us hash s))

  on_user_delta-IsGood :
      (action : String) (delta : List UserSpec) (s : Service w)
      → IsUnique delta
      → IsGood (around s) s
      → IsGood (around s) (on_user_delta action delta s)
  on_user_delta-IsGood action delta s u h =
      choose-IsGood (around s) (no_users delta) s (or_reset (apply_user_delta action delta s)) h (
        or_reset-IsGood (around s) (apply_user_delta action delta s) (
          apply_user_delta-IsSteady k c action delta s u h.0,
          apply_user_delta-IsFramed action delta s h.1.0,
        ))

  -- A kernel that goes on as before.
  pub same_kernel-IsSteady :
      (z : w.kernel.State) (s : Service w)
      → (w.kernel.is_running z ≡ w.kernel.is_running s.kernel)
        × (k.config z ≡ k.config s.kernel)
        × ((id : ℕ) → k.credentials z id ≡ k.credentials s.kernel id)
      → IsSteady k c s
      → IsSteady k c (record s { kernel = z })
  same_kernel-IsSteady z s (run, kept, cr) (t, sv) = (
    t,
    λ up.
        let (n, (x, us)) = sv (sym run ∙ up) in
        (
          n,
          (
            record {
              wanted = x.wanted;
              served = kept ∙ x.served;
              applied = x.applied;
              no_error = x.no_error;
              clock_used = x.clock_used;
              opened = x.opened;
            },
            λ id. cr id ∙ us id,
          ),
        ),
  )

  on_sync_devices-IsGood :
      (o : Option (List (ℕ × List String))) (s : Service w)
      → IsGood (around s) s
      → IsGood (around s) (on_sync_devices o s)
  on_sync_devices-IsGood none s h = h
  on_sync_devices-IsGood (some d) s h = (
    same_kernel-IsSteady (w.kernel.update_global_devices s.kernel d) s (k.devices_kept s.kernel d)
        h.0,
    h.1,
  )

  -- `handleWSEvent`
  pub handle_ws_event-IsGood :
      (e : Event NodeSpec) (s : Service w)
      → IsFairEvent e
      → IsGood (around s) s
      → IsGood (around s) (handle_ws_event e s)
  unfolding handle_ws_event
  handle_ws_event-IsGood e s f h = by_type e.type
    where
      by_type :
          (t : EventType)
          → IsGood (around s) (elim t [
            | sync_config ↦ on_sync_config e.config s
            | sync_users ↦ on_sync_users e.users s
            | sync_user_delta ↦ on_user_delta e.delta_action e.delta_users s
            | sync_devices ↦ on_sync_devices e.device_users s
            | other ↦ s
          ])
      by_type sync_config = on_sync_config-IsGood e.config s h
      by_type sync_users = on_sync_users-IsGood e.users s f.0 h
      by_type sync_user_delta = on_user_delta-IsGood e.delta_action e.delta_users s f.1 h
      by_type sync_devices = on_sync_devices-IsGood e.device_users s h
      by_type other = h
