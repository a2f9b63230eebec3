-- ===== src/Runtime/Pulled.antt =====
-- The results of polling keep the service sound.
use Prim.Native.String.{String}
use yzboard_node.Prelude.{
  ◌≡◌, refl, sym, ap, ◌∙◌, Bool, true, false, not, ◌&&◌, ◌||◌, Option, none, some, if◌then◌else◌,
  Bool-cases, inl, inr, ◌==◌, string_Eq,
}
use yzboard_node.Users.{UserSpec}
use yzboard_node.Users.Maps.{IsUnique}
use yzboard_node.Model.{NodeSpec}
use yzboard_node.Runtime.{Parts, Service, config_hash, user_hash}
use yzboard_node.Runtime.Apply.{is_set, apply_changes}
use yzboard_node.Runtime.Laws.{IsKernel, IsController}
use yzboard_node.Runtime.Steady.{IsPending}
use yzboard_node.Runtime.Apply.{apply_user_update}
use yzboard_node.Runtime.Swap.{steady-IsPending, prepare_user_state-IsPending}
use yzboard_node.Users.{Slice, elements}
use yzboard_node.Runtime.{PullResult}
use yzboard_node.Runtime.Events.{
  Snapshot, reset_polling_state, apply_pull_result, users_hash_of, update_if, prepare_if,
  apply_config_or_changes, keep_user_hash, users_changed,
}
use yzboard_node.Runtime.Apply.{apply_config_update}
use yzboard_node.Runtime.Updates.{apply_user_update-IsSteady, prepared-users}
use yzboard_node.Runtime.Frame.{Wishes, Around, wishes, around}
use yzboard_node.Runtime.Agree.{
  IsAgreed, IsFramed, prepared-IsFramed, apply_changes-IsFramed, apply_user_update-IsFramed,
  apply_config_update-IsFramed,
}
use yzboard_node.Runtime.Events.{changed_config, pull_result}
use yzboard_node.Runtime.Frame.{IsKept, IsKept-pair, apply_changes-kept}
use yzboard_node.Runtime.Handled.{
  IsGood, or_reset-IsGood, apply_changes-IsSteady, apply_config_update-IsSteady,
}

module _ (w : Parts) where
  abbrev pub IsFairUsers : Slice UserSpec → String → Type 0
  IsFairUsers none hash = Unit
  IsFairUsers (some us) hash = IsUnique us × (hash ≡ user_hash w us)

  abbrev pub IsFairConfig : Option NodeSpec → String → Type 0
  IsFairConfig none hash = Unit
  IsFairConfig (some n) hash = hash ≡ config_hash w (some n)

  -- A result names no user twice, and its hashes are those of what it holds.
  abbrev pub IsFairResult : PullResult → Type 0
  IsFairResult r = IsFairUsers r.users r.user_hash × IsFairConfig r.config r.config_hash

  IsFairUsers-lem : (o : Slice UserSpec) → IsUnique (elements o) → IsFairUsers o (users_hash_of w o)
  IsFairUsers-lem none u = tt
  IsFairUsers-lem (some us) u = (u, refl)

  IsFairConfig-lem :
      (current : String) (cert_changed : Bool) (o : Option NodeSpec)
      → IsFairConfig (changed_config w current cert_changed o) (config_hash w o)
  IsFairConfig-lem current cert_changed none = tt
  IsFairConfig-lem current cert_changed (some n) =
      elim (Bool-cases (config_hash w (some n) == current && not cert_changed)) [
        | inl e ↦ rw e tt
        | inr e ↦ rw e refl
      ]

  pub pull_result-IsFairResult :
      (current : String) (cert_changed : Bool) (x : Snapshot)
      → IsUnique (elements x.users)
      → IsFairResult (pull_result w current cert_changed x)
  unfolding pull_result
  pull_result-IsFairResult current cert_changed x u =
      (IsFairUsers-lem x.users u, IsFairConfig-lem current cert_changed x.config)

module _ {w : Parts} (k : IsKernel w.kernel) (c : IsController w.firewall) where
  update_if-IsGood :
      (b : Bool) (o : Slice UserSpec) (hash : String) (s : Service w)
      → IsFairUsers w o hash
      → users_changed o hash s ≡ b
      → IsGood k c (around s) s
      → IsGood k c (around s) (update_if b (elements o) hash s)
  update_if-IsGood false o hash s f e h = h
  update_if-IsGood true none hash s f e h = cc
  update_if-IsGood true (some us) hash s (u, eh) e h =
      or_reset-IsGood k c (around s) (apply_user_update us hash s)
        (rw eh (apply_user_update-IsSteady k c us s u h.0), apply_user_update-IsFramed us hash s)

  -- What the users of the result leave before the configuration comes.
  prepare_if-lem :
      (b : Bool) (o : Slice UserSpec) (hash : String) (s : Service w)
      → IsFairUsers w o hash
      → users_changed o hash s ≡ b
      → IsGood k c (around s) s
      → IsPending k c (prepare_if b (elements o) s)
        × IsFramed (around s) (prepare_if b (elements o) s)
        × (b ≡ true → hash ≡ user_hash w (prepare_if b (elements o) s).last_users)
  prepare_if-lem false o hash s f e h = (steady-IsPending k c s h.0, h.1, λ x. cc)
  prepare_if-lem true none hash s f e h = cc
  prepare_if-lem true (some us) hash s (u, eh) e h = (
    prepare_user_state-IsPending k c us s u (steady-IsPending k c s h.0),
    prepared-IsFramed us s,
    λ x. eh ∙ ap (user_hash w) (sym (prepared-users us s)),
  )

  apply_changes-users : (s : Service w) → (apply_changes s).0.last_users ≡ s.last_users
  unfolding IsKept
  apply_changes-users s =
      ap (λ (x : Wishes). x.users)
        (IsKept-pair (wishes s) (around s) (apply_changes s)
          (apply_changes-kept (wishes s) (around s) s (refl, refl))).0

  config_or_changes-lem :
      (o : Option NodeSpec) (hash : String) (s : Service w)
      → IsFairConfig w o hash
      → IsPending k c s
      → IsAgreed (wishes s)
      → IsGood k c (around s) (apply_config_or_changes o hash s).0
        × ((apply_config_or_changes o hash s).0.last_users ≡ s.last_users)
  unfolding apply_config_update
  config_or_changes-lem none hash s f p a =
      ((apply_changes-IsSteady k c s p, apply_changes-IsFramed s a), apply_changes-users s)
  config_or_changes-lem (some n) hash s f p a = (
    (rw f (apply_config_update-IsSteady k c n s p), apply_config_update-IsFramed n hash s a),
    apply_changes-users (record s { last_config = some n; last_config_hash = hash }),
  )

  keep_user_hash-IsGood :
      (y : Around) (b : Bool) (hash : String) (r : Service w × Bool)
      → IsGood k c y r.0
      → (b ≡ true → hash ≡ user_hash w r.0.last_users)
      → IsGood k c y (keep_user_hash b hash r)
  unfolding reset_polling_state
  keep_user_hash-IsGood y b hash (s, false) h e = h
  keep_user_hash-IsGood y false hash (s, true) h e = h
  keep_user_hash-IsGood y true hash (s, true) ((t, sv), f) e = (
    (
      record {
        unique = t.unique;
        users_hashed = inl (e refl);
        config_hashed = t.config_hashed;
        noted = t.noted;
      },
      sv,
    ),
    f,
  )

  pull_branch-IsGood :
      (b : Bool) (r : PullResult) (s : Service w)
      → IsFairResult w r
      → IsGood k c (around s) s
      → let changed = users_changed r.users r.user_hash s in
        IsGood k c (around s) (
          if b
          then update_if changed (elements r.users) r.user_hash s
          else keep_user_hash changed r.user_hash (
              apply_config_or_changes r.config r.config_hash
                (prepare_if changed (elements r.users) s)))
  pull_branch-IsGood true r s f h =
      update_if-IsGood (users_changed r.users r.user_hash s) r.users r.user_hash s f.0 refl h
  pull_branch-IsGood false r s f h =
      let changed = users_changed r.users r.user_hash s in
      let s1 = prepare_if changed (elements r.users) s in
      let (p, (a, y), e) = prepare_if-lem changed r.users r.user_hash s f.0 refl h in
      let ((st, (ag, y')), lu) = config_or_changes-lem r.config r.config_hash s1 f.1 p a in
      keep_user_hash-IsGood (around s) changed r.user_hash
        (apply_config_or_changes r.config r.config_hash s1) (st, (ag, y' ∙ y))
        (λ x. e x ∙ ap (user_hash w) (sym lu))

  -- `applyPullResult`
  pub apply_pull_result-IsGood :
      (r : PullResult) (s : Service w)
      → IsFairResult w r
      → IsGood k c (around s) s
      → IsGood k c (around s) (apply_pull_result r s)
  unfolding apply_pull_result
  apply_pull_result-IsGood r s f h =
      pull_branch-IsGood (not (is_set r.config || r.cert_changed)) r
        (record s { ws_resync_pending = false }) f h
