-- ===== src/Runtime/Changes.antt =====
-- What `applyChanges` leaves, whichever way it goes.
use yzboard_node.Prelude.{
  ◌≡◌, refl, sym, ap, ◌∙◌, Bool, true, false, not, ◌&&◌, Option, none, some, List, [],
  if◌then◌else◌, arith, Bool-cases, inl, inr,
}
use yzboard_node.Users.{UserSpec}
use yzboard_node.Model.{NodeSpec}
use yzboard_node.Runtime.{Parts, Service}
use yzboard_node.Runtime.Apply.{
  is_idle, and_then, or_fail, stop_kernel, runtime_applied, prepare_runtime, firewall_apply,
  apply_firewall, kernel_start, kernel_reload, finish, start_kernel, reload_kernel, change_to,
  change_if, apply_changes,
}
use yzboard_node.Runtime.Laws.{IsKernel, IsController, Ends}
use yzboard_node.Users.Credentials.{credential}
use yzboard_node.Runtime.Steady.{
  IsTidy, IsOpened, IsPending, IsDown, or_fail-lem, IsWanted, IsReady, IsServing, IsOpen, IsUp,
  IsSettled, bind, either,
}
use yzboard_node.Runtime.Prepare.{prepare_runtime-lem}

module _ {w : Parts} (k : IsKernel w.kernel) (c : IsController w.firewall) where
  kernel_start-lem :
      (n : NodeSpec) (us : List UserSpec) (s : Service w)
      → IsReady k c n us s
      → Ends (IsServing k c n us) (IsTidy w) (kernel_start n us s)
  kernel_start-lem n us s h =
      either (IsServing k c n us) (IsTidy w) (kernel_start n us s)
        (λ e. let x = k.started s.kernel n us (w.certs.tls_cert s.cert) e in (h, x.0, x.1, x.2))
        (λ e. h.0.0)

  kernel_reload-lem :
      (n : NodeSpec) (us : List UserSpec) (s : Service w)
      → IsReady k c n us s
      → Ends (IsServing k c n us) (IsTidy w) (kernel_reload n us s)
  kernel_reload-lem n us s h =
      either (IsServing k c n us) (IsTidy w) (kernel_reload n us s)
        (λ e. let x = k.reloaded s.kernel n us (w.certs.tls_cert s.cert) e in (h, x.0, x.1, x.2))
        (λ e. h.0.0)

  firewall_apply-lem :
      (n : NodeSpec) (us : List UserSpec) (o : Option w.firewall.State) (s : Service w)
      → s.firewall ≡ o
      → IsServing k c n us s
      → Ends (IsOpen k c n us) (IsTidy w) (firewall_apply n o s)
  firewall_apply-lem n us none s e h = (h, rw e tt)
  firewall_apply-lem n us (some f) s e h =
      either (IsOpen k c n us) (IsTidy w) (firewall_apply n (some f) s)
        (λ e'. (h, c.applied f n s.cfg.kernel.type e')) (λ e'. h.0.0.0)

  apply_firewall-lem :
      (n : NodeSpec) (us : List UserSpec) (s : Service w)
      → IsServing k c n us s
      → Ends (IsOpen k c n us) (IsDown k c) (apply_firewall n us s)
  unfolding apply_firewall
  apply_firewall-lem n us s h =
      or_fail-lem k c (IsOpen k c n us) n us _ (firewall_apply-lem n us s.firewall s refl h)

  finish-lem :
      (n : NodeSpec) (us : List UserSpec) (s : Service w)
      → is_idle n us ≡ false
      → IsServing k c n us s
      → IsOpened c n s.cfg.kernel.type s.firewall
      → Ends (IsUp k c n us) (IsDown k c) (finish n us s)
  unfolding runtime_applied
  finish-lem n us s e (((t, lc, lu), time), up, sc, cr) op = (
    (
      record {
        unique = t.unique;
        users_hashed = t.users_hashed;
        config_hashed = t.config_hashed;
        noted = refl;
      },
      λ run. (
        n,
        (
          record {
            wanted = lc;
            served = sc;
            applied = refl;
            no_error = refl;
            clock_used = time;
            opened = op;
          },
          λ id. cr id ∙ ap (λ x. credential x id) (sym lu),
        ),
      ),
    ),
    refl,
    lc,
    lu,
    up ∙ ap not (sym e),
  )

  -- What follows the kernel's operation.
  open_and_finish :
      (n : NodeSpec) (us : List UserSpec) (s : Service w)
      → is_idle n us ≡ false
      → IsServing k c n us s
      → Ends (IsUp k c n us) (IsDown k c) (and_then (apply_firewall n us s) (finish n us))
  open_and_finish n us s e h =
      bind (IsOpen k c n us) (IsDown k c) (IsUp k c n us) (finish n us) (apply_firewall n us s)
        (apply_firewall-lem n us s h) (λ s' o. finish-lem n us s' e o.0 o.1)

  start_kernel-lem :
      (n : NodeSpec) (us : List UserSpec) (s : Service w)
      → is_idle n us ≡ false
      → IsPending k c s
      → IsWanted k c n us s
      → Ends (IsUp k c n us) (IsDown k c) (start_kernel n us s)
  unfolding start_kernel
  start_kernel-lem n us s e p h =
      bind (IsReady k c n us) (IsDown k c) (IsUp k c n us) _ (prepare_runtime n us s)
        (prepare_runtime-lem k c n us s p h)
        (λ s1 h1.
          bind (IsServing k c n us) (IsDown k c) (IsUp k c n us) _
            (or_fail n us (kernel_start n us s1))
            (or_fail-lem k c (IsServing k c n us) n us (kernel_start n us s1)
              (kernel_start-lem n us s1 h1))
            (λ s2 h2. open_and_finish n us s2 e h2))

  reload_kernel-lem :
      (n : NodeSpec) (us : List UserSpec) (s : Service w)
      → is_idle n us ≡ false
      → IsReady k c n us s
      → Ends (IsUp k c n us) (IsDown k c) (reload_kernel n us s)
  reload_kernel-lem n us s e h =
      bind (IsServing k c n us) (IsDown k c) (IsUp k c n us) _ (or_fail n us (kernel_reload n us s))
        (or_fail-lem k c (IsServing k c n us) n us (kernel_reload n us s)
          (kernel_reload-lem n us s h))
        (λ s2 h2. open_and_finish n us s2 e h2)

  idle-lem :
      (n : NodeSpec) (us : List UserSpec) (s : Service w)
      → is_idle n us ≡ true
      → IsReady k c n us s
      → IsUp k c n us (runtime_applied none [] (stop_kernel s))
  unfolding runtime_applied stop_kernel
  idle-lem n us s e ((t, lc, lu), time) = (
    (
      record {
        unique = t.unique;
        users_hashed = t.users_hashed;
        config_hashed = t.config_hashed;
        noted = refl;
      },
      λ up. ground (arith, up, k.stopped s.kernel),
    ),
    refl,
    lc,
    lu,
    k.stopped s.kernel ∙ ap not (sym e),
  )

  change_prepared-lem :
      (idle : Bool) (n : NodeSpec) (us : List UserSpec) (s : Service w)
      → is_idle n us ≡ idle
      → IsReady k c n us s
      → Ends
          (IsUp k c n us)
          (IsDown k c)
          (if idle then (runtime_applied none [] (stop_kernel s), true) else reload_kernel n us s)
  change_prepared-lem true n us s e h = idle-lem n us s e h
  change_prepared-lem false n us s e h = reload_kernel-lem n us s e h

  change_branch-lem :
      (start : Bool) (n : NodeSpec) (us : List UserSpec) (s : Service w)
      → (start ≡ true → is_idle n us ≡ false)
      → IsPending k c s
      → IsWanted k c n us s
      → Ends (IsUp k c n us) (IsDown k c) (
          if start
          then start_kernel n us s
          else and_then (prepare_runtime n us s) (λ s1.
            if is_idle n us
            then (runtime_applied none [] (stop_kernel s1), true)
            else reload_kernel n us s1))
  change_branch-lem true n us s e p h = start_kernel-lem n us s (e refl) p h
  change_branch-lem false n us s e p h =
      bind (IsReady k c n us) (IsDown k c) (IsUp k c n us) _ (prepare_runtime n us s)
        (prepare_runtime-lem k c n us s p h)
        (λ s1 h1. change_prepared-lem (is_idle n us) n us s1 refl h1)

  change_to-lem :
      (n : NodeSpec) (us : List UserSpec) (s : Service w)
      → IsPending k c s
      → IsWanted k c n us s
      → Ends (IsUp k c n us) (IsDown k c) (change_to n us s)
  unfolding change_to
  change_to-lem n us s p h =
      change_branch-lem (not (w.kernel.is_running s.kernel) && not (is_idle n us)) n us s
        (λ e. ground (arith, e)) p h

  change_if-lem :
      (o : Option NodeSpec) (s : Service w)
      → s.last_config ≡ o
      → IsPending k c s
      → Ends (IsSettled k c o s.last_users) (IsDown k c) (change_if o s.last_users s)
  change_if-lem none s e p = elim (Bool-cases (w.kernel.is_running s.kernel)) [
    | inl up ↦ let (n, lc, good) = p.1 up in ground (arith, e, lc)
    | inr down ↦ ((p.0, λ up. ground (arith, up, down)), down)
  ]
  change_if-lem (some n) s e p = change_to-lem n s.last_users s p (p.0, e, refl)

  -- Where `lastUsers` name no id twice, the hashes are theirs and those of `lastConfig`, and a running kernel
  -- means a configuration and no error, if the kernel and the controller of the firewall keep the laws of
  -- their interfaces: `applyChanges` that succeeds leaves a kernel that holds `lastConfig` and `lastUsers`
  -- with the controller's promise kept for them, or a stopped one if there is no configuration or nobody to
  -- serve; one that fails leaves the kernel stopped and an error noted.
  pub apply_changes-IsSettled :
      (s : Service w)
      → IsPending k c s
      → Ends (IsSettled k c s.last_config s.last_users) (IsDown k c) (apply_changes s)
  unfolding apply_changes
  apply_changes-IsSettled s p = change_if-lem s.last_config s refl p
