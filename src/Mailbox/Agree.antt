-- ===== src/Mailbox/Agree.antt =====
-- The other actions of `applyUserDelta`, and that a mailbox and a running service make the same users
-- of the same delta.
use Prim.Native.String.{String}
use mathlib.Core.List.{foldl}
use text.Mathlib.TextEquality.{eq_iff}
use yzboard_node.Prelude.{
  ℕ, ◌≡◌, refl, ap, ◌≢◌, true, false, none, some, List, [], ◌∷◌, if◌then◌else◌, arith, nat_Eq,
  string_Eq,
}
use yzboard_node.Users.{UserSpec, Slice, elements, put_id, keep_users, merge_users, subtract_users}
use yzboard_node.Users.Maps.{
  find_user, IsUnique, has_id, find_user-keep_users, keep_users-IsUnique, contains-put_ids,
  find_last-eq-find_user,
}
use yzboard_node.Users.Merge.{merge_users-find}
use yzboard_node.Mailbox.{apply_user_delta}
use yzboard_node.Mailbox.Delta.{apply_user_delta-add}

-- The action "remove" leaves the users whose ids the delta does not name, and a list that is not
-- `nil` also where none is left; an id that stood once at most does so still.
pub apply_user_delta-remove :
    (users : Slice UserSpec) (delta : List UserSpec)
    → (left : List UserSpec) × (apply_user_delta users "remove" delta ≡ (some left, true))
      × ((k : ℕ)
          → find_user k left ≡ (if has_id k delta then none else find_user k (elements users)))
      × (IsUnique (elements users) → IsUnique left)
unfolding apply_user_delta
apply_user_delta-remove users delta = (
  keep_users (foldl put_id [] delta) (elements users),
  refl,
  λ k. rw (find_user-keep_users k _ (elements users), contains-put_ids delta [] k) (ground arith),
  keep_users-IsUnique _ (elements users),
)

-- Any other action is refused and changes nothing.
pub apply_user_delta_unknown :
    (users : Slice UserSpec) (action : String) (delta : List UserSpec)
    → action ≢ "add"
    → action ≢ "remove"
    → apply_user_delta users action delta ≡ (users, false)
unfolding apply_user_delta
apply_user_delta_unknown users action delta a r =
    ground (arith, eq_iff action "add", eq_iff action "remove")

-- On a list with no id twice, `mergeUsers` of the service and the action "add" of the mailbox give
-- every id the same user.
pub merge_users-apply :
    (users : Slice UserSpec) (delta : List UserSpec) (k : ℕ)
    → IsUnique (elements users)
    → find_user k (elements (merge_users users (some delta)))
      ≡ find_user k (elements (apply_user_delta users "add" delta).0)
merge_users-apply users delta k h = cc (
  (merge_users-find users delta).1 k,
  (apply_user_delta-add users delta h).2 k,
  find_last-eq-find_user k (elements users) h,
)

keep_users_all : (us : List UserSpec) → keep_users [] us ≡ us
keep_users_all [] = refl
keep_users_all (u ∷ us) = ap (λ r. u ∷ r) (keep_users_all us)

-- `subtractUsers` and the action "remove" make the same list of a list that is not `nil`.
pub subtract_users-apply :
    (users delta : List UserSpec)
    → (apply_user_delta (some users) "remove" delta).0 ≡ subtract_users (some users) (some delta)
unfolding apply_user_delta subtract_users
subtract_users-apply users [] = ap some (keep_users_all users)
subtract_users-apply users (d ∷ ds) = refl
