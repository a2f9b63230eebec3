-- ===== src/Limiter/Devices.antt =====
-- The users and the device limits after `UpdateUsers`.
use Prim.Native.String.{String}
use mathlib.Core.List.{foldl}
use text.Mathlib.TextEquality.{eq_iff}
use yzboard_node.Prelude.{
  ℕ, ◌<◌, ◌≡◌, refl, ◌≢◌, ◌∙◌, Bool, true, false, Option, none, some, List, [], ◌∷◌, if◌then◌else◌,
  arith, ltb, Dict, lookup, contains, lookup-insert, IsMap, nat_Eq, string_Eq, ◌==◌, nat_eq,
  Bool-cases, inl, inr, Option-cases, sym,
}
use yzboard_node.Users.{UserSpec, put_user, values}
use yzboard_node.Users.Maps.{find_last, or_else, lookup-put_users, put_users-IsMap}
use yzboard_node.Limiter.{Limiter, removed_ids, put_limit, update_users, get_device_limit_by_uuid}

-- The number stands in the list.
abbrev pub elem : ℕ → List ℕ → Bool
elem k [] = false
elem k (x ∷ xs) = if nat_eq x k then true else elem k xs

removed_ids-elem :
    (k : ℕ) (new_users old : Dict ℕ UserSpec)
    → elem k (removed_ids new_users old) ≡ (if contains k new_users then false else contains k old)
unfolding removed_ids
removed_ids-elem k new_users [] = ground arith
removed_ids-elem k new_users ((j, u) ∷ old) = ground (arith, removed_ids-elem k new_users old)

or_else-none : (o : Option UserSpec) → or_else o none ≡ o
or_else-none none = refl
or_else-none (some u) = refl

-- After an update the limiter holds, under each id, the last user of the list that bears it, and no
-- user whose id the list lacks; and the ids that it reports as removed are those that it held before
-- and does not hold now.
pub update_users-users :
    (l : Limiter) (users : List UserSpec) (k : ℕ)
    → let (l', removed) = update_users l users in
      (lookup k l'.users ≡ find_last k users)
      × (elem k removed ≡ (if contains k l'.users then false else contains k l.users))
unfolding update_users
update_users-users l users k = (
  lookup-put_users users [] k ∙ or_else-none (find_last k users),
  removed_ids-elem k (foldl put_user [] users) l.users,
)

-- The last device limit above zero that the list gives for the UUID.
abbrev pub last_limit : String → List UserSpec → Option ℕ
last_limit uuid [] = none
last_limit uuid (u ∷ us) = elim (last_limit uuid us) [
  | none ↦
      if u.uuid == uuid then (if ltb 0 u.device_limit then some u.device_limit else none) else none
  | some n ↦ some n
]

put_limits-lookup :
    (us : List UserSpec) (idx : Dict String ℕ) (uuid : String)
    → lookup uuid (foldl put_limit idx us) ≡ or_else (last_limit uuid us) (lookup uuid idx)
put_limits-lookup [] idx uuid = refl
put_limits-lookup (u ∷ us) idx uuid = ground (
  arith,
  lookup-insert u.uuid u.device_limit uuid idx,
  put_limits-lookup us (put_limit idx u) uuid,
  eq_iff u.uuid uuid,
)

limit_found :
    (uuid : String) (m : Dict ℕ UserSpec) (n : ℕ)
    → IsMap m
    → last_limit uuid (values m) ≡ some n
    → (k : ℕ) × (u : UserSpec) × (lookup k m ≡ some u)
      × (u.uuid ≡ uuid)
      × (u.device_limit ≡ n)
      × (0 < n)
limit_found uuid [] n i e = cc
limit_found uuid ((j, v) ∷ m) n (fresh, i) e = elim (Option-cases (last_limit uuid (values m))) [
  | inl missing ↦
      (j, v, ground arith, ground (arith, eq_iff v.uuid uuid), ground arith, ground arith)
  | inr (n', found) ↦
      let (k, u, at_k, same, limit, positive) = limit_found uuid m n i (ground arith) in
      (k, u, ground arith, same, limit, positive)
]

limit_exists :
    (k : ℕ) (u : UserSpec) (m : Dict ℕ UserSpec)
    → lookup k m ≡ some u
    → 0 < u.device_limit
    → (n : ℕ) × (last_limit u.uuid (values m) ≡ some n)
limit_exists k u [] e h = cc
limit_exists k u ((j, v) ∷ m) e h = elim (Bool-cases (nat_eq j k)) [
  | inl same ↦ elim (Option-cases (last_limit u.uuid (values m))) [
    | inl missing ↦ (u.device_limit, ground (arith, eq_iff u.uuid u.uuid))
    | inr (n, found) ↦ (n, ground arith)
  ]
  | inr differs ↦ let (n, found) = limit_exists k u m (ground arith) h in (n, ground arith)
]

get_device_limit-last_limit :
    (l : Limiter) (users : List UserSpec) (uuid : String)
    → get_device_limit_by_uuid (update_users l users).0 uuid
      ≡ last_limit uuid (values (foldl put_user [] users))
unfolding get_device_limit_by_uuid update_users
get_device_limit-last_limit l users uuid =
    ground (arith, put_limits-lookup (values (foldl put_user [] users)) [] uuid)

-- After an update a UUID has a device limit exactly where it is the UUID of a user with a limit above zero
-- who is the last of the list with its id; the limit is that of such a user.
pub get_device_limit_iff :
    (l : Limiter) (users : List UserSpec) (uuid : String)
    → let limit = get_device_limit_by_uuid (update_users l users).0 uuid in
      ((n : ℕ)
        → limit ≡ some n
        → (k : ℕ) × (u : UserSpec) × (find_last k users ≡ some u)
          × (u.uuid ≡ uuid)
          × (u.device_limit ≡ n)
          × (0 < n))
      × ((k : ℕ) (u : UserSpec)
          → find_last k users ≡ some u
          → u.uuid ≡ uuid
          → 0 < u.device_limit
          → limit ≢ none)
get_device_limit_iff l users uuid =
    let m = foldl put_user [] users in
    let held = λ (k : ℕ). lookup-put_users users [] k ∙ or_else-none (find_last k users) in
    let e = get_device_limit-last_limit l users uuid in
    (
      λ n h.
          let (k, u, at_k, same, limit, positive) =
            limit_found uuid m n (put_users-IsMap users [] tt) (sym e ∙ h) in
          (k, u, sym (held k) ∙ at_k, same, limit, positive),
      λ k u at_k same positive missing.
          let (n, found) = limit_exists k u m (held k ∙ at_k) positive in
          cc (found, same, e, missing),
    )
