-- ===== src/Runtime/Deltas.antt =====
-- `applyUserDelta` keeps the service steady.
use Prim.Native.String.{String}
use yzboard_node.Prelude.{
  ℕ, ◌≡◌, refl, sym, ap, ◌∙◌, Bool, true, false, none, some, List, if◌then◌else◌, Bool-cases, inl,
  inr, ◌==◌, string_Eq,
}
use yzboard_node.Users.{UserSpec}
use yzboard_node.Users.Maps.{IsUnique}
use yzboard_node.Runtime.{Parts, Service}
use yzboard_node.Runtime.Apply.{and_then, apply_changes}
use yzboard_node.Users.Maps.{has_id, or_else}
use yzboard_node.Runtime.Laws.{IsKernel, IsController, Ends}
use yzboard_node.Users.Credentials.{credential}
use yzboard_node.Runtime.Steady.{
  IsRunning, IsStopped, IsSteady, IsPending, IsDown, IsDown-IsSteady, IsSettled, IsSwapping,
  IsServed,
}
use yzboard_node.Runtime.Apply.{
  ensure_running, prepare_user_state, kernel_add, kernel_remove, or_replace, note_users,
  after_ensure, add_from, remove_from, delta_add, delta_remove, apply_user_delta, merged_users,
  remaining_users, no_users,
}
use yzboard_node.Runtime.Changes.{apply_changes-IsSettled}
use yzboard_node.Runtime.Swap.{
  steady-IsPending, prepare_user_state-IsPending, prepare_user_state-IsSwapping, hot_swap,
  or_replace-lem, note_users-lem,
}
use yzboard_node.Users.{has_uuid_change, elements, merge_users, subtract_users}
use yzboard_node.Users.Merge.{merge_users-find, subtract_users-find}
use yzboard_node.Users.Credentials.{merge_users-credential, subtract_users-credential}
use yzboard_node.Runtime.Updates.{
  weaken, of_both, IsHalted, settled-IsSteady, ensure_users, ensure_running-runs, prepared-users,
  prepared-kernel, apply_user_update-IsSteady,
}

merged-IsUnique :
    (base delta : List UserSpec) → IsUnique (elements (merge_users (some base) (some delta)))
merged-IsUnique base delta = (merge_users-find (some base) delta).0

remaining-IsUnique :
    (base delta : List UserSpec)
    → IsUnique base
    → IsUnique (elements (subtract_users (some base) (some delta)))
remaining-IsUnique base delta u =
    let (left, e, found, kept) = subtract_users-find base delta in rw e (kept u)

module _ {w : Parts} (k : IsKernel w.kernel) (c : IsController w.firewall) where
  -- A hot operation that a full update backs.
  replace-IsSteady :
      (users : List UserSpec) (r : Service w × Bool)
      → Ends (IsServed k c users) (IsSwapping k c users) r
      → Ends (IsServed k c users) (IsSteady k c) (and_then (or_replace users r) note_users)
  replace-IsSteady users r h =
      weaken (IsServed k c users) (IsDown k c) (IsServed k c users) (IsSteady k c)
        (and_then (or_replace users r) note_users)
        (note_users-lem k c users (or_replace users r) (or_replace-lem k c users r h)) (λ s' h'. h')
        (IsDown-IsSteady k c)

  Ends-IsSteady :
      (users : List UserSpec) (r : Service w × Bool)
      → Ends (IsServed k c users) (IsSteady k c) r
      → IsSteady k c r.0
  Ends-IsSteady users (s, true) h = h.0
  Ends-IsSteady users (s, false) h = h

  pending-IsSteady :
      (users : List UserSpec) (s : Service w) (next : Service w → Service w × Bool)
      → s.last_users ≡ users
      → IsPending k c s
      → IsStopped k c s
      → IsSteady k c (after_ensure false (ensure_running s) next).0
  pending-IsSteady users s next lu p down =
      halted_or_served (ensure_running s) (ensure_users k c users s lu p down)
    where
      halted_or_served :
          (r : Service w × Bool)
          → Ends (IsServed k c users) (IsHalted k c) r
          → IsSteady k c (after_ensure false r next).0
      halted_or_served (s, true) h = h.0
      halted_or_served (s, false) h = h.0

  add_from-IsSteady :
      (was : Bool) (delta users : List UserSpec) (s : Service w)
      → s.last_users ≡ users
      → (was ≡ true → IsSwapping k c users s × IsRunning k c s)
      → ((id : ℕ)
          → was ≡ true
          → or_else (k.credentials s.kernel id) (credential delta id) ≡ credential users id)
      → (was ≡ false → IsPending k c s × IsStopped k c s)
      → IsSteady k c (add_from was delta users s).0
  unfolding add_from
  add_from-IsSteady true delta users s lu g cr h = rw (ensure_running-runs k c s (g refl).1) (
      Ends-IsSteady users (and_then (or_replace users (kernel_add delta s)) note_users) (
        replace-IsSteady users (kernel_add delta s) (
          hot_swap k c users s (w.kernel.add_users s.kernel delta) (g refl).0
            (k.added_config s.kernel delta)
            (λ e. let (up, done) = k.added s.kernel delta e in (up, λ id. done id ∙ cr id refl)))))
  add_from-IsSteady false delta users s lu g cr h =
      pending-IsSteady users s (λ s1. and_then (or_replace users (kernel_add delta s1)) note_users)
        lu (h refl).0 (h refl).1

  delta_add-IsSteady :
      (delta : List UserSpec) (s : Service w)
      → IsUnique delta
      → IsSteady k c s
      → IsSteady k c (delta_add delta s).0
  unfolding delta_add
  delta_add-IsSteady delta s ud h =
      let u = merged-IsUnique s.last_users delta in
      elim (Bool-cases (has_uuid_change s.last_users delta)) [
        | inl e ↦ rw e (apply_user_update-IsSteady k c (merged_users s delta) s u h)
        | inr e ↦ rw e (
            add_from-IsSteady (w.kernel.is_running s.kernel) delta (merged_users s delta)
              (prepare_user_state (merged_users s delta) s)
              (prepared-users (merged_users s delta) s)
              (λ up. (
                prepare_user_state-IsSwapping k c (merged_users s delta) s u h up,
                ap w.kernel.is_running (prepared-kernel (merged_users s delta) s) ∙ up,
              ))
              (λ id up.
                let (n, sv) = h.1 up in
                rw (prepared-kernel (merged_users s delta) s, sv.1 id)
                  (merge_users-credential s.last_users delta id h.0.unique ud e))
              (λ down. (
                prepare_user_state-IsPending k c (merged_users s delta) s u
                    (steady-IsPending k c s h),
                ap w.kernel.is_running (prepared-kernel (merged_users s delta) s) ∙ down,
              )))
      ]

  remove_from-IsSteady :
      (is_running : Bool) (delta users : List UserSpec) (s : Service w)
      → (is_running ≡ true → IsSwapping k c users s)
      → (is_running ≡ true
          → (id : ℕ)
          → (if has_id id delta then none else k.credentials s.kernel id) ≡ credential users id)
      → (is_running ≡ false → IsPending k c s)
      → IsSteady k c (remove_from is_running delta users s).0
  unfolding remove_from
  remove_from-IsSteady true delta users s g cr h =
      Ends-IsSteady users (and_then (or_replace users (kernel_remove delta s)) note_users) (
        replace-IsSteady users (kernel_remove delta s) (
          hot_swap k c users s (w.kernel.remove_users s.kernel delta) (g refl)
            (k.removed_config s.kernel delta)
            (λ e. let (up, done) = k.removed s.kernel delta e in (up, λ id. done id ∙ cr refl id))))
  remove_from-IsSteady false delta users s g cr h = of_both (IsSteady k c) (apply_changes s) (
      weaken (IsSettled k c s.last_config s.last_users) (IsDown k c) (IsSteady k c) (IsSteady k c)
        (apply_changes s) (apply_changes-IsSettled k c s (h refl))
        (λ s' h'. settled-IsSteady k c s.last_config s.last_users s' h') (IsDown-IsSteady k c))

  delta_remove-IsSteady :
      (delta : List UserSpec) (s : Service w)
      → IsSteady k c s
      → IsSteady k c (delta_remove delta s).0
  unfolding delta_remove
  delta_remove-IsSteady delta s h =
      let users = remaining_users s delta in
      let u = remaining-IsUnique s.last_users delta h.0.unique in
      remove_from-IsSteady (w.kernel.is_running (prepare_user_state users s).kernel) delta users
        (prepare_user_state users s)
        (λ up.
          prepare_user_state-IsSwapping k c users s u h
            (sym (ap w.kernel.is_running (prepared-kernel users s)) ∙ up))
        (λ up id.
          let (n, sv) = h.1 (sym (ap w.kernel.is_running (prepared-kernel users s)) ∙ up) in
          rw (prepared-kernel users s, sv.1 id) (subtract_users-credential s.last_users delta id))
        (λ down. prepare_user_state-IsPending k c users s u (steady-IsPending k c s h))

  -- `applyUserDelta` keeps a service steady, if the delta names no id twice.
  pub apply_user_delta-IsSteady :
      (action : String) (delta : List UserSpec) (s : Service w)
      → IsUnique delta
      → IsSteady k c s
      → IsSteady k c (apply_user_delta action delta s).0
  unfolding apply_user_delta
  apply_user_delta-IsSteady action delta s ud h =
      choose (action == "add") (if no_users delta then (s, true) else delta_add delta s)
        (if action == "remove"
          then (if no_users delta then (s, true) else delta_remove delta s)
          else (s, false))
        (choose (no_users delta) (s, true) (delta_add delta s) h (delta_add-IsSteady delta s ud h))
        (choose (action == "remove") (if no_users delta then (s, true) else delta_remove delta s)
          (s, false)
          (choose (no_users delta) (s, true) (delta_remove delta s) h
            (delta_remove-IsSteady delta s h))
          h)
    where
      choose :
          (b : Bool) (r1 r2 : Service w × Bool)
          → IsSteady k c r1.0
          → IsSteady k c r2.0
          → IsSteady k c (if b then r1 else r2).0
      choose true r1 r2 x y = x
      choose false r1 r2 x y = y
