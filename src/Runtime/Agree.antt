-- ===== src/Runtime/Agree.antt =====
-- The limiter agrees with the latest users, and the operations on users and configurations keep the rest.
use Prim.Native.String.{String}
use yzboard_node.Prelude.{
  ℕ, ◌≡◌, refl, sym, ap, ◌∙◌, Bool, true, false, some, List, if◌then◌else◌, ◌==◌, string_Eq,
}
use yzboard_node.Users.{UserSpec}
use yzboard_node.Model.{NodeSpec}
use yzboard_node.Runtime.{Parts, Service, user_hash}
use yzboard_node.Runtime.Apply.{apply_changes}
use yzboard_node.Runtime.Apply.{
  prepare_user_state, update_from, add_from, remove_from, delta_add, delta_remove, apply_user_delta,
  merged_users, remaining_users, no_users, apply_user_update,
}
use yzboard_node.Prelude.{lookup, nat_Eq}
use yzboard_node.Users.{has_uuid_change}
use yzboard_node.Users.Maps.{find_last}
use yzboard_node.Limiter.Devices.{update_users-users}
use yzboard_node.Runtime.Apply.{apply_config_update}
use yzboard_node.Runtime.Frame.{
  Wishes, Around, wishes, around, IsKept, Keeps, apply_changes-kept, update_from-kept,
  add_from-kept, remove_from-kept,
}

-- The limiter holds, under each id, the last of the latest users with it.
abbrev pub IsAgreed : Wishes → Type 0
IsAgreed x = (id : ℕ) → lookup id x.limiter.users ≡ find_last id x.users

module _ {w : Parts} where
  -- The wishes agree, and the rest is as it was.
  abbrev pub IsFramed : Around → Service w → Type 0
  IsFramed y s = IsAgreed (wishes s) × (around s ≡ y)

  pub prepared-IsFramed :
      (us : List UserSpec) (s : Service w) → IsFramed (around s) (prepare_user_state us s)
  unfolding prepare_user_state
  prepared-IsFramed us s = (λ id. (update_users-users s.limiter us id).0, refl)

  kept-IsFramed :
      (s : Service w) (y : Around) (r : Service w × Bool)
      → IsFramed y s
      → Keeps (wishes s) (around s) r
      → IsFramed y r.0
  unfolding IsKept Keeps
  kept-IsFramed s y r (a, e) (p, q) = (
    λ id.
        ap (λ (x : Wishes). lookup id x.limiter.users) p
        ∙ a id
        ∙ sym (ap (λ (x : Wishes). find_last id x.users) p),
    q ∙ e,
  )

  self-IsKept : (s : Service w) → IsKept (wishes s) (around s) s
  unfolding IsKept
  self-IsKept s = (refl, refl)

  pub apply_changes-IsFramed :
      (s : Service w) → IsAgreed (wishes s) → IsFramed (around s) (apply_changes s).0
  apply_changes-IsFramed s a =
      kept-IsFramed s (around s) (apply_changes s) (a, refl)
        (apply_changes-kept (wishes s) (around s) s (self-IsKept s))

  pub apply_user_update-IsFramed :
      (us : List UserSpec) (hash : String) (s : Service w)
      → IsFramed (around s) (apply_user_update us hash s).0
  unfolding apply_user_update
  apply_user_update-IsFramed us hash s =
      let s1 = prepare_user_state us s in
      let was = w.kernel.is_running s.kernel in
      kept-IsFramed s1 (around s) (update_from was us hash s1) (prepared-IsFramed us s)
        (update_from-kept (wishes s1) (around s1) was us hash s1 (self-IsKept s1))

  choose-IsFramed :
      (y : Around) (b : Bool) (r1 r2 : Service w × Bool)
      → IsFramed y r1.0
      → IsFramed y r2.0
      → IsFramed y (if b then r1 else r2).0
  choose-IsFramed y true r1 r2 h g = h
  choose-IsFramed y false r1 r2 h g = g

  delta_add-IsFramed :
      (delta : List UserSpec) (s : Service w) → IsFramed (around s) (delta_add delta s).0
  unfolding delta_add
  delta_add-IsFramed delta s =
      let merged = merged_users s delta in
      let s1 = prepare_user_state merged s in
      let was = w.kernel.is_running s.kernel in
      choose-IsFramed (around s) (has_uuid_change s.last_users delta)
        (apply_user_update merged (user_hash w merged) s) (add_from was delta merged s1)
        (apply_user_update-IsFramed merged (user_hash w merged) s)
        (kept-IsFramed s1 (around s) (add_from was delta merged s1) (prepared-IsFramed merged s)
          (add_from-kept (wishes s1) (around s1) was delta merged s1 (self-IsKept s1)))

  delta_remove-IsFramed :
      (delta : List UserSpec) (s : Service w) → IsFramed (around s) (delta_remove delta s).0
  unfolding delta_remove
  delta_remove-IsFramed delta s =
      let filtered = remaining_users s delta in
      let s1 = prepare_user_state filtered s in
      let up = w.kernel.is_running s1.kernel in
      kept-IsFramed s1 (around s) (remove_from up delta filtered s1) (prepared-IsFramed filtered s)
        (remove_from-kept (wishes s1) (around s1) up delta filtered s1 (self-IsKept s1))

  pub apply_user_delta-IsFramed :
      (action : String) (delta : List UserSpec) (s : Service w)
      → IsAgreed (wishes s)
      → IsFramed (around s) (apply_user_delta action delta s).0
  unfolding apply_user_delta
  apply_user_delta-IsFramed action delta s a =
      choose-IsFramed (around s) (action == "add")
        (if no_users delta then (s, true) else delta_add delta s)
        (if action == "remove"
          then (if no_users delta then (s, true) else delta_remove delta s)
          else (s, false))
        (choose-IsFramed (around s) (no_users delta) (s, true) (delta_add delta s) (a, refl)
          (delta_add-IsFramed delta s))
        (choose-IsFramed (around s) (action == "remove")
          (if no_users delta then (s, true) else delta_remove delta s) (s, false)
          (choose-IsFramed (around s) (no_users delta) (s, true) (delta_remove delta s) (a, refl)
            (delta_remove-IsFramed delta s))
          (a, refl))

  pub apply_config_update-IsFramed :
      (n : NodeSpec) (hash : String) (s : Service w)
      → IsAgreed (wishes s)
      → IsFramed (around s) (apply_config_update n hash s).0
  unfolding apply_config_update
  apply_config_update-IsFramed n hash s a =
      apply_changes-IsFramed (record s { last_config = some n; last_config_hash = hash }) a
