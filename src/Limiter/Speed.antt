-- ===== src/Limiter/Speed.antt =====
-- internal/limiter/speedtracker.go: one token bucket for each user with a speed limit, made on demand.
pub mod Buckets
use Prim.Native.String.{String}
use mathlib.Core.List.{foldl}
use yzboard_node.Prelude.{
  ℕ, ◌*◌, ◌/◌, ◌≡◌, Bool, true, false, not, ◌&&◌, Option, none, some, List, [], ◌∷◌, if◌then◌else◌,
  ltb, Dict, lookup, contains, insert, erase, length, ◌==◌, nat_Eq, string_Eq,
}
use yzboard_node.Users.{UserSpec, values, put_id}
use yzboard_node.Limiter.{Limiter}

-- `rate.Limiter` of golang.org/x/time, with the two settings that the code makes.
pub record RateLimiter : Type 1 where
  pub Bucket : Type 0
  pub new_limiter : ℕ → ℕ → Bucket
  pub set_limit : ℕ → Bucket → Bucket
  pub set_burst : ℕ → Bucket → Bucket
  pub limit : Bucket → ℕ
  pub burst : Bucket → ℕ
  pub limit-new_limiter : (l b : ℕ) → limit (new_limiter l b) ≡ l
  pub burst-new_limiter : (l b : ℕ) → burst (new_limiter l b) ≡ b
  pub limit-set_limit : (l : ℕ) (x : Bucket) → limit (set_limit l x) ≡ l
  pub limit-set_burst : (b : ℕ) (x : Bucket) → limit (set_burst b x) ≡ limit x
  pub burst-set_burst : (b : ℕ) (x : Bucket) → burst (set_burst b x) ≡ b

-- `int(user.SpeedLimit) * 1_000_000 / 8`, for a limit whose product is below 2^63.
unfoldable pub bytes_per_sec : ℕ → ℕ
bytes_per_sec speed_limit = speed_limit * 1_000_000 / 8

-- The burst of `UpdateBuckets`: at least 64 KiB.
unfoldable pub update_burst : ℕ → ℕ
update_burst bytes = if ltb bytes (64 * 1024) then 64 * 1024 else bytes

-- The burst of `GetLimiter`, with its second bound.
unfoldable pub on_demand_burst : ℕ → ℕ
unfolding update_burst
on_demand_burst bytes =
    let cap4s = bytes * 4 in
    if ltb (64 * 1024) cap4s && ltb cap4s (update_burst bytes) then cap4s else update_burst bytes

module _ (rate : RateLimiter) where
  open rate use {Bucket, new_limiter, set_limit, set_burst}

  -- `limiter` is shared with the service, and passed to each operation that reads it. The callback
  -- for logging is left out.
  pub record SpeedTracker : Type 0 where
    pub buckets : Dict ℕ Bucket
    pub uuid_map : Dict String ℕ
    pub has_limits : Bool

  -- `NewSpeedTracker`
  unfoldable pub new_speed_tracker : SpeedTracker
  new_speed_tracker = record { buckets = []; uuid_map = []; has_limits = false }

  abbrev pub put_uuid_id : Dict String ℕ → UserSpec → Dict String ℕ
  put_uuid_id m user = if not (user.uuid == "") then insert user.uuid user.id m else m

  -- One round of the loop over the users, on the buckets.
  unfoldable pub adjust_bucket : Dict ℕ Bucket → UserSpec → Dict ℕ Bucket
  adjust_bucket buckets user = elim (lookup user.id buckets) [
    | none ↦ buckets
    | some lim ↦
        if ltb 0 user.speed_limit
        then insert user.id
            (set_burst (update_burst (bytes_per_sec user.speed_limit))
              (set_limit (bytes_per_sec user.speed_limit) lim))
            buckets
        else erase user.id buckets
  ]

  -- `range t.buckets`: the buckets of the active ids stay.
  unfoldable pub clean_up : Dict ℕ (Unit {0}) → Dict ℕ Bucket → Dict ℕ Bucket
  clean_up active [] = []
  clean_up active ((id, lim) ∷ buckets) =
      let rest = clean_up active buckets in if contains id active then (id, lim) ∷ rest else rest

  unfoldable pub update_buckets : Limiter → SpeedTracker → SpeedTracker
  update_buckets l t =
      let current_users = values l.users in
      let buckets =
        clean_up (foldl put_id [] current_users) (foldl adjust_bucket t.buckets current_users) in
      record {
        buckets = buckets;
        uuid_map = foldl put_uuid_id [] current_users;
        has_limits = ltb 0 (length buckets);
      }

  -- What the first part of `GetLimiter`, under the read locks, comes to: a result, or a bucket to be
  -- put under the user's id.
  pub data Lookup : Type 0 where
    done : Option Bucket → Lookup
    create : ℕ → Bucket → Lookup

  abbrev pub on_demand : UserSpec → Bucket
  on_demand u =
      new_limiter (bytes_per_sec u.speed_limit) (on_demand_burst (bytes_per_sec u.speed_limit))

  -- The user's id has no bucket.
  abbrev pub make_bucket : Option UserSpec → ℕ → Lookup
  make_bucket none uid = done none
  make_bucket (some u) uid = if ltb 0 u.speed_limit then create uid (on_demand u) else done none

  unfoldable pub get_limiter_read : Limiter → SpeedTracker → String → Lookup
  get_limiter_read l t user = elim (lookup user t.uuid_map) [
    | none ↦ done none
    | some uid ↦ elim (lookup uid t.buckets) [
      | some lim ↦ done (some lim)
      | none ↦ make_bucket (lookup uid l.users) uid
    ]
  ]

  -- The second part, under the write lock, which looks again.
  unfoldable pub get_limiter_write : SpeedTracker → Lookup → SpeedTracker × Option Bucket
  get_limiter_write t (done result) = (t, result)
  get_limiter_write t (create uid lim) = elim (lookup uid t.buckets) [
    | some existing ↦ (t, some existing)
    | none ↦ (record t { buckets = insert uid lim t.buckets; has_limits = true }, some lim)
  ]

  -- `GetLimiter` with no other call between its two parts.
  unfoldable pub get_limiter : Limiter → SpeedTracker → String → SpeedTracker × Option Bucket
  get_limiter l t user = get_limiter_write t (get_limiter_read l t user)

  unfoldable pub limited_user_count : SpeedTracker → ℕ
  limited_user_count t = length t.buckets
