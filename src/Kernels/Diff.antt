-- ===== src/Kernels/Diff.antt =====
-- A difference without users means that both lists give every id the same UUID.
use mathlib.Core.List.{foldl}
use yzboard_node.Prelude.{
  ℕ, ◌≡◌, refl, false, Option, none, some, List, [], ◌∷◌, if◌then◌else◌, arith, Dict, lookup,
  nat_Eq, nat_eq, nat_eq_iff, string_Eq, Bool-cases, Option-cases, inl, inr, sym, ◌∙◌, ap,
}
use package.text.Mathlib.TextEquality.{eq_iff}
use yzboard_node.Users.{UserSpec, put_user}
use yzboard_node.Users.Maps.{
  find_user, lookup-put_users, IsUnique, has_id, or_else, find_last-eq-find_user,
}
use yzboard_node.Users.Credentials.{credential, uuid_of}
use yzboard_node.Kernels.{differs, missing_users, user_diff}

-- The map knows the user's id by its UUID.
differs-uuid : (o : Option UserSpec) (u : UserSpec) → differs o u ≡ false → uuid_of o ≡ some u.uuid
differs-uuid none u e = cc
differs-uuid (some v) u e = ground (arith, e, eq_iff v.uuid u.uuid)

-- The users that the map lacks, by their ids.
abbrev missing : Option UserSpec → Option UserSpec → Option UserSpec
missing o none = none
missing o (some u) = if differs o u then some u else none

missing_users-none :
    (m : Dict ℕ UserSpec) (us : List UserSpec) (id : ℕ)
    → find_user id us ≡ none
    → find_user id (missing_users m us) ≡ none
unfolding missing_users
missing_users-none m [] id e = refl
missing_users-none m (u ∷ us) id e = ground (arith, missing_users-none m us id)

missing_users-find :
    (m : Dict ℕ UserSpec) (us : List UserSpec) (id : ℕ)
    → IsUnique us
    → find_user id (missing_users m us) ≡ missing (lookup id m) (find_user id us)
unfolding missing_users
missing_users-find m [] id u = refl
missing_users-find m (v ∷ vs) id (fresh, u) = elim (Bool-cases (nat_eq v.id id)) [
  | inl same ↦
      let i = (nat_eq_iff v.id id).0 same in
      let gone = missing_users-none m vs id (ap (λ x. find_user x vs) (sym i) ∙ fresh) in
      elim (Bool-cases (differs (lookup v.id m) v)) [
        | inl d ↦ rw d (rw same (rw (sym i) (rw d refl)))
        | inr d ↦
            rw d (rw same (rw (sym i) (rw d (ap (λ x. find_user x (missing_users m vs)) i ∙ gone))))
      ]
  | inr other ↦ elim (Bool-cases (differs (lookup v.id m) v)) [
    | inl d ↦ rw d (rw other (missing_users-find m vs id u))
    | inr d ↦ rw d (rw other (missing_users-find m vs id u))
  ]
]

-- If neither list names an id twice, the old users without those to remove and with those to add are known
-- by the UUIDs of the new users: no id keeps an old UUID, and none is lost.
pub user_diff-credential :
    (old_users new_users : List UserSpec) (id : ℕ)
    → IsUnique old_users
    → IsUnique new_users
    → let (to_add, to_remove) = user_diff old_users new_users in
      or_else (if has_id id to_remove then none else credential old_users id) (credential to_add id)
      ≡ credential new_users id
unfolding user_diff
user_diff-credential old_users new_users id u v =
    let added = missing_users-find (foldl put_user [] old_users) new_users id v in
    let removed = missing_users-find (foldl put_user [] new_users) old_users id u in
    let olds = lookup-put_users old_users [] id in
    let news = lookup-put_users new_users [] id in
    let last_old = find_last-eq-find_user id old_users u in
    let last_new = find_last-eq-find_user id new_users v in
    elim (Option-cases (find_user id old_users)) [
      | inl absent ↦ elim (Option-cases (find_user id new_users)) [
        | inl nowhere ↦
            ground (arith, added, removed, olds, news, last_old, last_new, absent, nowhere)
        | inr (n, there) ↦
            ground (arith, added, removed, olds, news, last_old, last_new, absent, there)
      ]
      | inr (o, known) ↦ elim (Option-cases (find_user id new_users)) [
        | inl nowhere ↦
            ground (arith, added, removed, olds, news, last_old, last_new, known, nowhere)
        | inr (n, there) ↦ ground (
          arith,
          added,
          removed,
          olds,
          news,
          last_old,
          last_new,
          known,
          there,
          eq_iff o.uuid n.uuid,
          eq_iff n.uuid o.uuid,
        )
      ]
    ]
