-- ===== src/Limiter/Speed/Buckets.antt =====
-- Which users have a bucket, and at which rate.
use Prim.Native.String.{String}
use mathlib.Core.List.{foldl}
use yzboard_node.Prelude.{
  ℕ, ◌<◌, ◌≡◌, refl, ◌∙◌, ◌≢◌, Option, none, some, List, [], ◌∷◌, if◌then◌else◌, arith, ltb, Dict,
  lookup, contains, lookup-insert, lookup-erase, IsMap, nat_Eq, string_Eq, nat_eq, Option-cases,
  inl, inr,
}
use yzboard_node.Users.{UserSpec, values, put_id}
use yzboard_node.Users.Maps.{
  find_user, IsUnique, IsKeyed, contains-put_ids, find_user-values, values-IsUnique,
}
use yzboard_node.Limiter.{Limiter}
use yzboard_node.Limiter.Speed.{
  RateLimiter, SpeedTracker, bytes_per_sec, update_burst, on_demand_burst, adjust_bucket, clean_up,
  update_buckets, on_demand, get_limiter_read, get_limiter_write, get_limiter,
}

-- The burst that `GetLimiter` computes is the one that `UpdateBuckets` computes, for every rate: the
-- second bound on it never binds.
pub on_demand_burst-update_burst : (bytes : ℕ) → on_demand_burst bytes ≡ update_burst bytes
unfolding on_demand_burst
on_demand_burst-update_burst bytes = ground arith

-- The limiter's users are a Go map from ids to the users that bear them.
pub record IsUsers (l : Limiter) : Type 0 where
  pub is_map : IsMap l.users
  pub keyed : IsKeyed l.users

module _ (rate : RateLimiter) where
  open rate use {
    Bucket, new_limiter, set_limit, set_burst, limit, burst, limit-new_limiter, burst-new_limiter,
    limit-set_limit, limit-set_burst, burst-set_burst,
  }

  -- What `UpdateBuckets` makes of the bucket of an id, by the user that now bears it.
  abbrev pub adjusted : Option UserSpec → Option Bucket → Option Bucket
  adjusted none b = none
  adjusted (some u) none = none
  adjusted (some u) (some lim) =
      if ltb 0 u.speed_limit
      then some (
          set_burst (update_burst (bytes_per_sec u.speed_limit))
            (set_limit (bytes_per_sec u.speed_limit) lim))
      else none

  -- The same, before the buckets of users that are gone are cleaned up.
  abbrev kept : Option UserSpec → Option Bucket → Option Bucket
  kept none b = b
  kept (some u) b = adjusted (some u) b

  adjust_bucket-lookup :
      (k : ℕ) (u : UserSpec) (buckets : Dict ℕ Bucket)
      → lookup k (adjust_bucket rate buckets u)
        ≡ (if nat_eq u.id k then adjusted (some u) (lookup k buckets) else lookup k buckets)
  unfolding adjust_bucket
  adjust_bucket-lookup k u buckets = elim (Option-cases (lookup u.id buckets)) [
    | inl e ↦ ground arith
    | inr (lim, e) ↦ ground (
      arith,
      lookup-erase u.id k buckets,
      lookup-insert u.id
          (set_burst (update_burst (bytes_per_sec u.speed_limit))
            (set_limit (bytes_per_sec u.speed_limit) lim))
          k buckets,
    )
  ]

  adjust_absent :
      (k : ℕ) (us : List UserSpec) (buckets : Dict ℕ Bucket)
      → find_user k us ≡ none
      → lookup k (foldl (adjust_bucket rate) buckets us) ≡ lookup k buckets
  adjust_absent k [] buckets h = refl
  adjust_absent k (u ∷ us) buckets h =
      ground
        (arith, adjust_bucket-lookup k u buckets, adjust_absent k us (adjust_bucket rate buckets u))

  adjust-lookup :
      (k : ℕ) (us : List UserSpec) (buckets : Dict ℕ Bucket)
      → IsUnique us
      → lookup k (foldl (adjust_bucket rate) buckets us) ≡ kept (find_user k us) (lookup k buckets)
  adjust-lookup k [] buckets h = refl
  adjust-lookup k (u ∷ us) buckets (fresh, h) = ground (
    arith,
    adjust_bucket-lookup k u buckets,
    adjust_absent k us (adjust_bucket rate buckets u),
    adjust-lookup k us (adjust_bucket rate buckets u) h,
  )

  clean_up-lookup :
      (active : Dict ℕ (Unit {0})) (k : ℕ) (buckets : Dict ℕ Bucket)
      → lookup k (clean_up rate active buckets)
        ≡ (if contains k active then lookup k buckets else none)
  unfolding clean_up
  clean_up-lookup active k [] = ground arith
  clean_up-lookup active k ((j, lim) ∷ buckets) = ground (arith, clean_up-lookup active k buckets)

  -- If the limiter holds its users under their ids, `UpdateBuckets` leaves exactly those of the buckets
  -- it had whose users the limiter knows with a speed limit, each set to the rate and the burst of
  -- that limit. It makes no bucket.
  pub update_buckets-lookup :
      (l : Limiter) (t : SpeedTracker rate) (k : ℕ)
      → IsUsers l
      → lookup k (update_buckets rate l t).buckets
        ≡ adjusted (lookup k l.users) (lookup k t.buckets)
  unfolding update_buckets
  update_buckets-lookup l t k h =
      let us = values l.users in
      ground (
        arith,
        clean_up-lookup (foldl put_id [] us) k (foldl (adjust_bucket rate) t.buckets us),
        contains-put_ids us [] k,
        adjust-lookup k us t.buckets (values-IsUnique l.users h.is_map h.keyed),
        find_user-values k l.users h.keyed,
      )

  -- A bucket has the rate of the speed limit of the user that the limiter knows under its id.
  abbrev pub IsRatedAt : Option UserSpec → Option Bucket → Type 0
  IsRatedAt o none = Unit
  IsRatedAt none (some b) = ⊥
  IsRatedAt (some u) (some b) =
      (0 < u.speed_limit)
      × (limit b ≡ bytes_per_sec u.speed_limit)
      × (burst b ≡ update_burst (bytes_per_sec u.speed_limit))

  abbrev pub IsRated : Limiter → SpeedTracker rate → Type 0
  IsRated l t = (k : ℕ) → IsRatedAt (lookup k l.users) (lookup k t.buckets)

  adjusted-IsRatedAt : (o : Option UserSpec) (b : Option Bucket) → IsRatedAt o (adjusted o b)
  adjusted-IsRatedAt none b = tt
  adjusted-IsRatedAt (some u) none = tt
  adjusted-IsRatedAt (some u) (some lim) =
      let bytes = bytes_per_sec u.speed_limit in
      ground (
        arith,
        limit-set_limit bytes lim,
        limit-set_burst (update_burst bytes) (set_limit bytes lim),
        burst-set_burst (update_burst bytes) (set_limit bytes lim),
      )

  -- After `UpdateBuckets` every bucket belongs to a user that the limiter knows and that has a speed
  -- limit, and has the rate and burst of that limit, whatever the buckets were before, if the limiter
  -- holds its users under their ids.
  pub update_buckets-IsRated :
      (l : Limiter) (t : SpeedTracker rate) → IsUsers l → IsRated l (update_buckets rate l t)
  update_buckets-IsRated l t h k =
      rw (update_buckets-lookup l t k h)
        (adjusted-IsRatedAt (lookup k l.users) (lookup k t.buckets))

  -- The bucket `r` that a call gives for a user: one at the user's rate if the user has a speed limit,
  -- and none if not, or if there is no such user.
  abbrev pub IsLimitedBy : Option UserSpec → Option Bucket → Type 0
  IsLimitedBy none r = r ≡ none
  IsLimitedBy (some u) r = IsRatedAt (some u) r × (0 < u.speed_limit → r ≢ none)

  -- The user that the UUID names.
  abbrev pub user_of : Limiter → Option ℕ → Option UserSpec
  user_of l none = none
  user_of l (some uid) = lookup uid l.users

  on_demand-IsRatedAt :
      (u : UserSpec) → 0 < u.speed_limit → IsRatedAt (some u) (some (on_demand rate u))
  on_demand-IsRatedAt u h =
      let bytes = bytes_per_sec u.speed_limit in
      (
        h,
        limit-new_limiter bytes (on_demand_burst bytes),
        burst-new_limiter bytes (on_demand_burst bytes) ∙ on_demand_burst-update_burst bytes,
      )

  get_limiter-result :
      (l : Limiter) (t : SpeedTracker rate) (uuid : String)
      → IsRated l t
      → IsLimitedBy (user_of l (lookup uuid t.uuid_map)) (get_limiter rate l t uuid).1
  unfolding get_limiter get_limiter_read get_limiter_write
  get_limiter-result l t uuid h = elim (Option-cases (lookup uuid t.uuid_map)) [
    | inl e ↦ ground arith
    | inr (uid, e) ↦ elim (Option-cases (lookup uid l.users)) [
      | inl missing ↦ ground (arith, h uid)
      | inr (u, found) ↦ ground (arith, h uid, on_demand-IsRatedAt u)
    ]
  ]

  get_limiter-IsRated :
      (l : Limiter) (t : SpeedTracker rate) (uuid : String)
      → IsRated l t
      → IsRated l (get_limiter rate l t uuid).0
  unfolding get_limiter get_limiter_read get_limiter_write
  get_limiter-IsRated l t uuid h k = elim (Option-cases (lookup uuid t.uuid_map)) [
    | inl e ↦ ground (arith, h k)
    | inr (uid, e) ↦ elim (Option-cases (lookup uid l.users)) [
      | inl missing ↦ ground (arith, h k)
      | inr (u, found) ↦
          ground
            (arith, h k, on_demand-IsRatedAt u, lookup-insert uid (on_demand rate u) k t.buckets)
    ]
  ]

  -- Where every bucket has the rate of its user's speed limit, `GetLimiter` gives a user with a speed
  -- limit a bucket of that rate and of the burst that `UpdateBuckets` sets, and any other UUID none;
  -- and every bucket has its user's rate afterwards. Nothing else happens between its two parts.
  pub get_limiter-IsLimitedBy :
      (l : Limiter) (t : SpeedTracker rate) (uuid : String)
      → IsRated l t
      → let (t', r) = get_limiter rate l t uuid in
        IsLimitedBy (user_of l (lookup uuid t.uuid_map)) r × IsRated l t'
  get_limiter-IsLimitedBy l t uuid h =
      (get_limiter-result l t uuid h, get_limiter-IsRated l t uuid h)
