-- ===== src/Runtime/Swap.antt =====
-- Changes of the users, with the kernel running or not.
use yzboard_node.Prelude.{ℕ, ◌≡◌, refl, sym, ap, ◌∙◌, Bool, true, false, List, inl}
use yzboard_node.Users.{UserSpec}
use yzboard_node.Users.Maps.{IsUnique}
use yzboard_node.Runtime.{Parts, Service}
use yzboard_node.Runtime.Apply.{and_then}
use yzboard_node.Runtime.Laws.{IsKernel, IsController, Ends}
use yzboard_node.Users.Credentials.{credential}
use yzboard_node.Runtime.Steady.{
  AreServed, IsRunning, IsSteady, IsPending, IsDown, fail_runtime-IsDown, IsSwapping, IsServed,
  bind, either,
}
use yzboard_node.Runtime.Apply.{prepare_user_state, kernel_update, or_stop, or_replace, note_users}

module _ {w : Parts} (k : IsKernel w.kernel) (c : IsController w.firewall) where
  pub steady-IsPending : (s : Service w) → IsSteady k c s → IsPending k c s
  steady-IsPending s h = (h.0, λ up. let (n, sv) = h.1 up in (n, sv.0.wanted, sv.0.no_error))

  pub prepare_user_state-IsPending :
      (users : List UserSpec) (s : Service w)
      → IsUnique users
      → IsPending k c s
      → IsPending k c (prepare_user_state users s)
  unfolding prepare_user_state
  prepare_user_state-IsPending users s u p = (
    record {
      unique = u;
      users_hashed = inl refl;
      config_hashed = p.0.config_hashed;
      noted = p.0.noted;
    },
    p.1,
  )

  pub prepare_user_state-IsSwapping :
      (users : List UserSpec) (s : Service w)
      → IsUnique users
      → IsSteady k c s
      → IsRunning k c s
      → IsSwapping k c users (prepare_user_state users s)
  unfolding prepare_user_state
  prepare_user_state-IsSwapping users s u h up =
      let (n, sv) = h.1 up in
      (
        record {
          unique = u;
          users_hashed = inl refl;
          config_hashed = h.0.config_hashed;
          noted = h.0.noted;
        },
        (n, sv.0),
        refl,
      )

  -- An operation of the kernel on its users, which goes on to serve the configuration.
  pub hot_swap :
      (users : List UserSpec) (s : Service w) (r : w.kernel.State × Bool)
      → IsSwapping k c users s
      → k.config r.0 ≡ k.config s.kernel
      → (r.1 ≡ true
          → (w.kernel.is_running r.0 ≡ true)
            × ((id : ℕ) → k.credentials r.0 id ≡ credential users id))
      → Ends (IsServed k c users) (IsSwapping k c users) (record s { kernel = r.0 }, r.1)
  hot_swap users s r (t, (n, x), lu) kept done =
      let sn : AreServed w c n s.last_config (k.config r.0) s.applied_config s.runtime_error
          s.time_usage s.cfg.kernel.type s.firewall =
        record {
          wanted = x.wanted;
          served = kept ∙ x.served;
          applied = x.applied;
          no_error = x.no_error;
          clock_used = x.clock_used;
          opened = x.opened;
        } in
      either (IsServed k c users) (IsSwapping k c users) (record s { kernel = r.0 }, r.1)
        (λ e. (
          (t, λ up. (n, (sn, λ id. (done e).1 id ∙ ap (λ us. credential us id) (sym lu)))),
          (done e).0,
          lu,
        ))
        (λ e. (t, (n, sn), lu))

  pub kernel_update-lem :
      (users : List UserSpec) (s : Service w)
      → IsSwapping k c users s
      → Ends (IsServed k c users) (IsSwapping k c users) (kernel_update users s)
  kernel_update-lem users s h =
      hot_swap users s (w.kernel.update_users s.kernel users) h (k.updated_config s.kernel users)
        (k.updated s.kernel users)

  pub or_stop-lem :
      (users : List UserSpec) (r : Service w × Bool)
      → Ends (IsServed k c users) (IsSwapping k c users) r
      → Ends (IsServed k c users) (IsDown k c) (or_stop users r)
  or_stop-lem users (s, true) h = h
  or_stop-lem users (s, false) h = fail_runtime-IsDown k c s.last_config users s h.0

  pub or_replace-lem :
      (users : List UserSpec) (r : Service w × Bool)
      → Ends (IsServed k c users) (IsSwapping k c users) r
      → Ends (IsServed k c users) (IsDown k c) (or_replace users r)
  or_replace-lem users (s, true) h = h
  or_replace-lem users (s, false) h =
      or_stop-lem users (kernel_update users s) (kernel_update-lem users s h)

  pub note_users-lem :
      (users : List UserSpec) (r : Service w × Bool)
      → Ends (IsServed k c users) (IsDown k c) r
      → Ends (IsServed k c users) (IsDown k c) (and_then r note_users)
  note_users-lem users r h =
      bind (IsServed k c users) (IsDown k c) (IsServed k c users) note_users r h (λ s h'. h')
