-- ===== src/Limiter/Tests.antt =====
-- Concrete limits for internal/limiter/limiter.go and speedtracker.go.
use Prim.Native.String.{String}
use yzboard_node.Prelude.{
  ℕ, ◌<◌, ◌≡◌, refl, ◌≢◌, true, false, none, some, List, [], ◌∷◌, if◌then◌else◌, lookup, contains,
  nat_Eq, string_Eq,
}
use yzboard_node.Users.{UserSpec}
use yzboard_node.Users.Maps.{find_last}
use yzboard_node.Limiter.{Limiter, update_users, get_device_limit_by_uuid}
use yzboard_node.Limiter.Devices.{elem, update_users-users, get_device_limit_iff}
use yzboard_node.Limiter.Speed.{RateLimiter, SpeedTracker, update_buckets, get_limiter}
use yzboard_node.Limiter.Speed.Buckets.{
  IsUsers, adjusted, IsRated, IsLimitedBy, user_of, update_buckets-lookup, get_limiter-IsLimitedBy,
}

abbrev user : ℕ → String → ℕ → ℕ → UserSpec
user id uuid speed device = record {
  id = id;
  uuid = uuid;
  speed_limit = speed;
  device_limit = device;
}

abbrev limits : Limiter
limits = record {
  users = (1, user 1 "a" 10 2) ∷ (2, user 2 "b" 0 0) ∷ [];
  uuid_device_limit = ("a", 2) ∷ [];
}

-- The first user goes, the second gets a device limit, and a third comes.
abbrev new_users : List UserSpec
new_users = user 2 "b" 0 3 ∷ user 3 "c" 20 0 ∷ []

-- A bucket that keeps its two settings, and nothing else.
abbrev settings : RateLimiter
settings = record {
  Bucket = ℕ × ℕ;
  new_limiter = λ l b. (l, b);
  set_limit = λ l x. (l, x.1);
  set_burst = λ b x. (x.0, b);
  limit = λ x. x.0;
  burst = λ x. x.1;
  limit-new_limiter = λ l b. refl;
  burst-new_limiter = λ l b. refl;
  limit-set_limit = λ l x. refl;
  limit-set_burst = λ b x. refl;
  burst-set_burst = λ b x. refl;
}

abbrev buckets : SpeedTracker settings
buckets = record { buckets = (1, (8, 8)) ∷ (9, (8, 8)) ∷ []; uuid_map = []; has_limits = true }

-- The first user has no bucket yet.
abbrev unmade : SpeedTracker settings
unmade = record { buckets = []; uuid_map = ("a", 1) ∷ []; has_limits = false }

limits-IsUsers : IsUsers limits
limits-IsUsers = record { is_map = (refl, (refl, tt)); keyed = (refl, (refl, tt)) }

unmade-IsRated : IsRated settings limits unmade
unmade-IsRated k = tt

update_users-users_example :
    let (l', removed) = update_users limits new_users in
    (lookup 1 l'.users ≡ find_last 1 new_users)
    × (elem 1 removed ≡ (if contains 1 l'.users then false else contains 1 limits.users))
update_users-users_example = update_users-users limits new_users 1

get_device_limit_iff_example :
    let limit = get_device_limit_by_uuid (update_users limits new_users).0 "b" in
    ((n : ℕ)
      → limit ≡ some n
      → (k : ℕ) × (u : UserSpec) × (find_last k new_users ≡ some u)
        × (u.uuid ≡ "b")
        × (u.device_limit ≡ n)
        × (0 < n))
    × ((k : ℕ) (u : UserSpec)
        → find_last k new_users ≡ some u
        → u.uuid ≡ "b"
        → 0 < u.device_limit
        → limit ≢ none)
get_device_limit_iff_example = get_device_limit_iff limits new_users "b"

update_buckets-lookup_example :
    lookup 1 (update_buckets settings limits buckets).buckets
    ≡ adjusted settings (lookup 1 limits.users) (lookup 1 buckets.buckets)
update_buckets-lookup_example = update_buckets-lookup settings limits buckets 1 limits-IsUsers

get_limiter-IsLimitedBy_example :
    let (t', r) = get_limiter settings limits unmade "a" in
    IsLimitedBy settings (user_of settings limits (lookup "a" unmade.uuid_map)) r
    × IsRated settings limits t'
get_limiter-IsLimitedBy_example = get_limiter-IsLimitedBy settings limits unmade "a" unmade-IsRated
