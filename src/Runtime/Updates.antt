-- ===== src/Runtime/Updates.antt =====
-- `ensureRunning`, `applyUserUpdate` and `applyUserDelta` keep the service steady.
use Prim.Native.String.{String}
use yzboard_node.Prelude.{
  ◌≡◌, refl, sym, ap, ◌∙◌, Bool, true, false, not, Option, none, some, List, if◌then◌else◌, arith,
  Bool-cases, inl, inr, ◌==◌, string_Eq,
}
use yzboard_node.Users.{UserSpec}
use yzboard_node.Users.Maps.{IsUnique}
use yzboard_node.Model.{NodeSpec}
use yzboard_node.Runtime.{Parts, Service, user_hash}
use yzboard_node.Runtime.Apply.{is_set, and_then, apply_changes}
use yzboard_node.Runtime.Laws.{IsKernel, IsController, Ends}
use yzboard_node.Runtime.Steady.{
  IsRunning, IsStopped, IsSteady, IsPending, IsDown, IsDown-IsSteady, IsSettled, IsSwapping,
  IsServed, bind, either,
}
use yzboard_node.Runtime.Apply.{
  ensure_running, prepare_user_state, kernel_update, or_stop, note_users, after_ensure, keep_hash,
  keep_hash_if, update_from, apply_user_update,
}
use yzboard_node.Runtime.Changes.{apply_changes-IsSettled}
use yzboard_node.Runtime.Swap.{
  steady-IsPending, prepare_user_state-IsPending, prepare_user_state-IsSwapping, kernel_update-lem,
  or_stop-lem, note_users-lem,
}

pub weaken {ℓ κ} :
    {S : Type ℓ} (Good Bad Good' Bad' : S → Type κ) (r : S × Bool)
    → Ends Good Bad r
    → ((s : S) → Good s → Good' s)
    → ((s : S) → Bad s → Bad' s)
    → Ends Good' Bad' r
weaken Good Bad Good' Bad' (s, true) e g h = g s e
weaken Good Bad Good' Bad' (s, false) e g h = h s e

-- What holds of both ends holds of the state.
pub of_both {ℓ κ} : {S : Type ℓ} (Good : S → Type κ) (r : S × Bool) → Ends Good Good r → Good r.0
of_both Good (s, true) e = e
of_both Good (s, false) e = e

pub prepared-users :
    {w : Parts} (users : List UserSpec) (s : Service w)
    → (prepare_user_state users s).last_users ≡ users
unfolding prepare_user_state
prepared-users users s = refl

pub prepared-kernel :
    {w : Parts} (users : List UserSpec) (s : Service w)
    → (prepare_user_state users s).kernel ≡ s.kernel
unfolding prepare_user_state
prepared-kernel users s = refl

module _ {w : Parts} (k : IsKernel w.kernel) (c : IsController w.firewall) where
  -- The kernel stands still, and nothing is amiss.
  abbrev pub IsHalted : Service w → Type 0
  IsHalted s = IsSteady k c s × IsStopped k c s

  IsDown-IsHalted : (s : Service w) → IsDown k c s → IsHalted s
  IsDown-IsHalted s h = (IsDown-IsSteady k c s h, h.1)

  pub settled-IsSteady :
      (o : Option NodeSpec) (us : List UserSpec) (s : Service w)
      → IsSettled k c o us s
      → IsSteady k c s
  settled-IsSteady none us s h = h.0
  settled-IsSteady (some n) us s h = h.0

  settled-IsServed :
      (o : Option NodeSpec) (us : List UserSpec) (s : Service w)
      → IsSettled k c o us s
      → IsRunning k c s
      → IsServed k c us s
  settled-IsServed none us s h up = ground (arith, h.1, up)
  settled-IsServed (some n) us s h up = (h.0, up, h.3)

  ensure_running-lem :
      (s : Service w)
      → IsPending k c s
      → IsStopped k c s
      → Ends (IsServed k c s.last_users) IsHalted (ensure_running s)
  unfolding ensure_running
  ensure_running-lem s p down = rw down (ensure_config s (is_set s.last_config) p down)
    where
      ensure_config :
          (s : Service w) (b : Bool)
          → IsPending k c s
          → IsStopped k c s
          → Ends (IsServed k c s.last_users) IsHalted (
              if not b
              then (s, false)
              else and_then (apply_changes s) (λ s'. (s', w.kernel.is_running s'.kernel)))
      ensure_config s false p down = ((p.0, λ up. ground (arith, up, down)), down)
      ensure_config s true p down =
          bind (IsSettled k c s.last_config s.last_users) IsHalted (IsServed k c s.last_users) _
            (apply_changes s)
            (weaken (IsSettled k c s.last_config s.last_users) (IsDown k c)
              (IsSettled k c s.last_config s.last_users) IsHalted (apply_changes s)
              (apply_changes-IsSettled k c s p) (λ s' h. h) IsDown-IsHalted)
            (λ s' h.
              either (IsServed k c s.last_users) IsHalted (s', w.kernel.is_running s'.kernel)
                (λ up. settled-IsServed s.last_config s.last_users s' h up)
                (λ down'. (settled-IsSteady s.last_config s.last_users s' h, down')))

  pub ensure_users :
      (users : List UserSpec) (s : Service w)
      → s.last_users ≡ users
      → IsPending k c s
      → IsStopped k c s
      → Ends (IsServed k c users) IsHalted (ensure_running s)
  ensure_users users s lu p down =
      weaken (IsServed k c s.last_users) IsHalted (IsServed k c users) IsHalted (ensure_running s)
        (ensure_running-lem s p down) (λ s' h. (h.0, h.1, h.2 ∙ lu)) (λ s' h. h)

  -- A user state that waits, of a kernel that stood still before it.
  pub keep_hash-IsSteady :
      (users : List UserSpec) (hash : String) (s : Service w)
      → hash ≡ user_hash w users
      → IsServed k c users s
      → IsSteady k c (keep_hash hash s)
  keep_hash-IsSteady users hash s e ((t, sv), up, lu) = elim (Bool-cases (hash == "")) [
    | inl e' ↦ rw e' (t, sv)
    | inr e' ↦ rw e' (
      record {
        unique = t.unique;
        users_hashed = inl (e ∙ ap (user_hash w) (sym lu));
        config_hashed = t.config_hashed;
        noted = t.noted;
      },
      sv,
    )
  ]

  keep_hash_if-IsSteady :
      (ensured : Bool) (users : List UserSpec) (hash : String) (r : Service w × Bool)
      → hash ≡ user_hash w users
      → (ensured ≡ true → Ends (IsServed k c users) (IsSteady k c) r)
      → (ensured ≡ false → IsSteady k c r.0)
      → IsSteady k c (keep_hash_if ensured hash r).0
  keep_hash_if-IsSteady false users hash r e g h = h refl
  keep_hash_if-IsSteady true users hash (s, true) e g h = keep_hash-IsSteady users hash s e (g refl)
  keep_hash_if-IsSteady true users hash (s, false) e g h = g refl

  -- The state after the check that the kernel runs, and after what follows it.
  pub after_ensure-lem :
      (users : List UserSpec) (r : Service w × Bool) (next : Service w → Service w × Bool)
      → Ends (IsServed k c users) IsHalted r
      → (r.1 ≡ true → Ends (IsServed k c users) (IsSteady k c) (after_ensure false r next))
        × (r.1 ≡ false → IsSteady k c (after_ensure false r next).0)
  after_ensure-lem users (s, true) next h = (λ e. h, λ e. h.0)
  after_ensure-lem users (s, false) next h = (λ e. cc, λ e. h.0)

  pub ensure_running-runs : (s : Service w) → IsRunning k c s → ensure_running s ≡ (s, true)
  unfolding ensure_running
  ensure_running-runs s up = rw up refl

  swap-lem :
      (users : List UserSpec) (s : Service w)
      → IsSwapping k c users s
      → Ends
          (IsServed k c users)
          (IsSteady k c)
          (and_then (or_stop users (kernel_update users s)) note_users)
  swap-lem users s h =
      weaken (IsServed k c users) (IsDown k c) (IsServed k c users) (IsSteady k c)
        (and_then (or_stop users (kernel_update users s)) note_users)
        (note_users-lem k c users (or_stop users (kernel_update users s))
          (or_stop-lem k c users (kernel_update users s) (kernel_update-lem k c users s h)))
        (λ s' h'. h') (IsDown-IsSteady k c)

  update_from-IsSteady :
      (was : Bool) (users : List UserSpec) (hash : String) (s : Service w)
      → hash ≡ user_hash w users
      → s.last_users ≡ users
      → (was ≡ true → IsSwapping k c users s × IsRunning k c s)
      → (was ≡ false → IsPending k c s × IsStopped k c s)
      → IsSteady k c (update_from was users hash s).0
  unfolding update_from
  update_from-IsSteady true users hash s e lu g h = rw (ensure_running-runs s (g refl).1) (
      keep_hash_if-IsSteady true users hash
        (and_then (or_stop users (kernel_update users s)) note_users) e
        (λ e'. swap-lem users s (g refl).0) (λ e'. cc))
  update_from-IsSteady false users hash s e lu g h =
      let next : Service w → Service w × Bool =
        λ s1. and_then (or_stop users (kernel_update users s1)) note_users in
      let x =
        after_ensure-lem users (ensure_running s) next
          (ensure_users users s lu (h refl).0 (h refl).1) in
      keep_hash_if-IsSteady (ensure_running s).1 users hash
        (after_ensure false (ensure_running s) next) e x.0 x.1

  -- `applyUserUpdate` keeps a service steady.
  pub apply_user_update-IsSteady :
      (users : List UserSpec) (s : Service w)
      → IsUnique users
      → IsSteady k c s
      → IsSteady k c (apply_user_update users (user_hash w users) s).0
  unfolding apply_user_update
  apply_user_update-IsSteady users s u h =
      update_from-IsSteady (w.kernel.is_running s.kernel) users (user_hash w users)
        (prepare_user_state users s) refl (prepared-users users s)
        (λ up. (
          prepare_user_state-IsSwapping k c users s u h up,
          ap w.kernel.is_running (prepared-kernel users s) ∙ up,
        ))
        (λ down. (
          prepare_user_state-IsPending k c users s u (steady-IsPending k c s h),
          ap w.kernel.is_running (prepared-kernel users s) ∙ down,
        ))
