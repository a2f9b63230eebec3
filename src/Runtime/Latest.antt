-- ===== src/Runtime/Latest.antt =====
-- The messages of the panel against what the kernel holds after them.
use Prim.Native.String.{String}
use text.Mathlib.TextEquality.{eq_iff}
use yzboard_node.Prelude.{
  ℕ, ◌≡◌, ◌≢◌, refl, sym, ap, ◌∙◌, ◌⊎◌, Bool, true, false, some, List, Bool-cases, inl, inr, ◌==◌,
  string_Eq,
}
use yzboard_node.Users.{UserSpec}
use yzboard_node.Users.Credentials.{credential}
use yzboard_node.Model.{NodeSpec}
use yzboard_node.Mailbox.{Event, sync_config, sync_users}
use yzboard_node.Runtime.{Parts, Service, config_hash, user_hash}
use yzboard_node.Runtime.Laws.{IsKernel, IsController}
use yzboard_node.Runtime.Apply.{
  apply_changes, apply_config_update, apply_user_update, prepare_user_state,
}
use yzboard_node.Runtime.Events.{
  or_reset, reset_polling_state, on_sync_config, on_sync_users, handle_ws_event,
}
use yzboard_node.Runtime.Frame.{
  Wishes, wishes, around, IsKept, Keeps, apply_changes-kept, update_from-kept,
}
use yzboard_node.Runtime.Handled.{IsFairEvent}
use yzboard_node.Runtime.World.{Reach, next, event}
use yzboard_node.Runtime.Sound.{reach-IsSound}

module _ {w : Parts} where
  or_reset-wishes : (r : Service w × Bool) → wishes (or_reset r) ≡ wishes r.0
  unfolding reset_polling_state
  or_reset-wishes (s, true) = refl
  or_reset-wishes (s, false) = refl

  self-Keeps : (s : Service w) → IsKept (wishes s) (around s) s
  unfolding IsKept
  self-Keeps s = (refl, refl)

  kept-wishes :
      (s : Service w) (r : Service w × Bool) → Keeps (wishes s) (around s) r → wishes r.0 ≡ wishes s
  unfolding IsKept Keeps
  kept-wishes s r (p, q) = p

  new_config-wishes :
      (n : NodeSpec) (hash : String) (s : Service w)
      → wishes (apply_config_update n hash s).0
        ≡ wishes (record s { last_config = some n; last_config_hash = hash })
  unfolding apply_config_update
  new_config-wishes n hash s =
      let s1 = record s { last_config = some n; last_config_hash = hash } in
      kept-wishes s1 (apply_changes s1)
        (apply_changes-kept (wishes s1) (around s1) s1 (self-Keeps s1))

  new_users-wishes :
      (us : List UserSpec) (hash : String) (s : Service w)
      → wishes (apply_user_update us hash s).0 ≡ wishes (prepare_user_state us s)
  unfolding apply_user_update
  new_users-wishes us hash s =
      let s1 = prepare_user_state us s in
      kept-wishes s1 _ (
        update_from-kept (wishes s1) (around s1) (w.kernel.is_running s.kernel) us hash s1
          (self-Keeps s1))

  on_sync_config-hash :
      (n : NodeSpec) (s : Service w)
      → (on_sync_config (some n) s).last_config_hash ≡ config_hash w (some n)
  on_sync_config-hash n s =
      let hash = config_hash w (some n) in
      elim (Bool-cases (hash == s.last_config_hash)) [
        | inl e ↦ rw e (sym ((eq_iff hash s.last_config_hash).0 e))
        | inr e ↦ rw e (
            ap (λ (x : Wishes). x.config_hash) (or_reset-wishes (apply_config_update n hash s))
            ∙ ap (λ (x : Wishes). x.config_hash) (new_config-wishes n hash s))
      ]

  on_sync_users-wishes :
      (us : List UserSpec) (s : Service w)
      → (user_hash w us ≡ s.last_user_hash) × (on_sync_users (some us) s ≡ s)
        ⊎ ((on_sync_users (some us) s).last_users ≡ us)
  unfolding prepare_user_state
  on_sync_users-wishes us s =
      let hash = user_hash w us in
      elim (Bool-cases (hash == s.last_user_hash)) [
        | inl e ↦ inl ((eq_iff hash s.last_user_hash).0 e, rw e refl)
        | inr e ↦ inr (
            rw e (
              ap (λ (x : Wishes). x.users) (or_reset-wishes (apply_user_update us hash s))
              ∙ ap (λ (x : Wishes). x.users) (new_users-wishes us hash s)))
      ]

  config_event :
      (e : Event NodeSpec) (n : NodeSpec) (s : Service w)
      → e.type ≡ sync_config
      → e.config ≡ some n
      → handle_ws_event e s ≡ on_sync_config (some n) s
  unfolding handle_ws_event
  config_event e n s t x = rw (t, x) refl

  users_event :
      (e : Event NodeSpec) (us : List UserSpec) (s : Service w)
      → e.type ≡ sync_users
      → e.users ≡ some us
      → handle_ws_event e s ≡ on_sync_users (some us) s
  unfolding handle_ws_event
  users_event e us s t x = rw (t, x) refl

module _ {w : Parts} (k : IsKernel w.kernel) (c : IsController w.firewall) where
  -- Where the main loop handles an event of the panel with a configuration, a kernel that runs then holds a
  -- configuration with the same hash, in every state that the loop reaches; if the panel names no user twice
  -- in one message, and the kernel and the controller keep the laws of their interfaces.
  pub config_event-served :
      (s : Service w) (e : Event NodeSpec) (n : NodeSpec)
      → Reach s
      → IsFairEvent e
      → e.type ≡ sync_config
      → e.config ≡ some n
      → w.kernel.is_running (handle_ws_event e s).kernel ≡ true
      → (held : NodeSpec) × (k.config (handle_ws_event e s).kernel ≡ some held)
        × (w.hashes.of_config held ≡ w.hashes.of_config n)
  config_event-served s e n r f t x up =
      let (tidy, serves) = (reach-IsSound k c (handle_ws_event e s) (next r (event e f))).0 in
      let (held, (served, users)) = serves up in
      (
        held,
        served.served,
        sym (ap (config_hash w) served.wanted)
            ∙ sym tidy.config_hashed
            ∙ ap (λ (z : Service w). z.last_config_hash) (config_event e n s t x)
            ∙ on_sync_config-hash n s,
      )

  -- Where the main loop handles an event of the panel with users, a kernel that runs then holds, by their
  -- UUIDs, exactly the users of a list with the same hash, in every state that the loop reaches; if no hash of
  -- users is empty, the panel names no user twice in one message and no id twice in one delta, and the kernel
  -- and the controller of the firewall keep the laws of their interfaces.
  pub users_event-served :
      (s : Service w) (e : Event NodeSpec) (us : List UserSpec)
      → ((vs : List UserSpec) → user_hash w vs ≢ "")
      → Reach s
      → IsFairEvent e
      → e.type ≡ sync_users
      → e.users ≡ some us
      → w.kernel.is_running (handle_ws_event e s).kernel ≡ true
      → (held : List UserSpec) × ((id : ℕ)
          → k.credentials (handle_ws_event e s).kernel id ≡ credential held id)
        × (user_hash w held ≡ user_hash w us)
  users_event-served s e us hashed r f t x up =
      let (tidy, serves) = (reach-IsSound k c (handle_ws_event e s) (next r (event e f))).0 in
      let (n, (served, users)) = serves up in
      let same = users_event e us s t x in
      (
        (handle_ws_event e s).last_users,
        users,
        elim (on_sync_users-wishes us s) [
          | inr new ↦ ap (λ z. user_hash w z.last_users) same ∙ ap (user_hash w) new
          | inl (old, kept) ↦ elim (tidy.users_hashed) [
            | inl h ↦ sym h ∙ ap (λ z. z.last_user_hash) (same ∙ kept) ∙ sym old
            | inr (empty, no_users) ↦
                elim (hashed us (old ∙ sym (ap (λ z. z.last_user_hash) (same ∙ kept)) ∙ empty)) [ ]
          ]
        ],
      )
