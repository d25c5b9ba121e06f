-- ===== src/Middleware/Partitioned.antt =====
-- The keyed limiter of go/middleware/ratelimit_partitioned.go: its configuration, its map of buckets
-- and the overflow bucket. Clock readings are arguments; an operation that reads the clock more
-- than once takes each reading. A call to `AllowKey` is one step, so that calls interleave whole.
pub mod Bounded
pub mod Isolation
pub mod Refines
use dense_cloud.Prelude.{
  str_eq, if◌then◌else◌, length, ℤ, pos, pos_part, sub_ℕ, ◌+ℤ◌, ltb_ℤ, leb_ℤ, lookup, insert, keep,
  ℕ, String, Bool, Option, none, some, List, [], ◌∷◌,
}
use dense_cloud.Golang.Contexts.{Duration}
use dense_cloud.Middleware.RateLimiter.{RateLimiter, new_rate_limiter, allow}

pub record PartitionedRateLimiterConfig : Type 0 where
  pub requests_per_second : ℤ
  pub burst : ℤ
  pub entry_ttl : Duration
  pub max_partitions : ℤ
  pub cleanup_interval : Duration

pub record PartitionEntry : Type 0 where
  pub limiter : RateLimiter
  pub last_seen : ℕ

pub record PartitionedRateLimiter : Type 0 where
  pub requests : ℤ
  pub burst : ℤ
  pub entry_ttl : Duration
  pub max_partitions : ℤ
  pub cleanup_interval : Duration
  pub next_cleanup : ℤ
  pub partitions : List (String × PartitionEntry)
  pub overflow : PartitionEntry

abbrev pub default_partition_entry_ttl : Duration
default_partition_entry_ttl = pos 300_000_000_000

abbrev pub default_partition_max_entries : ℤ
default_partition_max_entries = pos 4096

abbrev pub default_partition_cleanup_interval : Duration
default_partition_cleanup_interval = pos 60_000_000_000

-- `x` if it is positive, else the default.
abbrev pub positive_or : ℤ → ℤ → ℤ
positive_or default x = if leb_ℤ x (pos 0) then default else x

abbrev pub min_ℤ : ℤ → ℤ → ℤ
min_ℤ a b = if ltb_ℤ b a then b else a

unfoldable pub normalize_partitioned_rate_limiter_config :
    PartitionedRateLimiterConfig → PartitionedRateLimiterConfig
normalize_partitioned_rate_limiter_config cfg =
    let ttl = positive_or default_partition_entry_ttl cfg.entry_ttl in
    let interval =
      if leb_ℤ cfg.cleanup_interval (pos 0)
      then min_ℤ default_partition_cleanup_interval ttl
      else cfg.cleanup_interval in
    record {
      requests_per_second = positive_or (pos 1) cfg.requests_per_second;
      burst = positive_or (pos 1) cfg.burst;
      entry_ttl = ttl;
      max_partitions = positive_or default_partition_max_entries cfg.max_partitions;
      cleanup_interval = positive_or (pos 1_000_000_000) (min_ℤ interval ttl);
    }

-- `created` is the reading of `NewRateLimiter` itself.
unfoldable pub new_partition_entry : ℤ → ℤ → ℕ → ℕ → PartitionEntry
new_partition_entry requests_per_second burst now created = record {
  limiter = new_rate_limiter (pos_part requests_per_second) (pos_part burst) created;
  last_seen = now;
}

unfoldable pub new_partitioned_rate_limiter_with_config :
    PartitionedRateLimiterConfig → ℕ → ℕ → PartitionedRateLimiter
new_partitioned_rate_limiter_with_config given now created =
    let cfg = normalize_partitioned_rate_limiter_config given in
    record {
      requests = cfg.requests_per_second;
      burst = cfg.burst;
      entry_ttl = cfg.entry_ttl;
      max_partitions = cfg.max_partitions;
      cleanup_interval = cfg.cleanup_interval;
      next_cleanup = pos now +ℤ cfg.cleanup_interval;
      partitions = [];
      overflow = new_partition_entry cfg.requests_per_second cfg.burst now created;
    }

unfoldable pub new_partitioned_rate_limiter : ℤ → ℤ → Duration → ℕ → ℕ → PartitionedRateLimiter
new_partitioned_rate_limiter requests_per_second burst entry_ttl =
    new_partitioned_rate_limiter_with_config record {
      requests_per_second = requests_per_second;
      burst = burst;
      entry_ttl = entry_ttl;
      max_partitions = pos 0;
      cleanup_interval = pos 0;
    }

-- Not `now.Sub(entry.lastSeen) >= rl.entryTTL`.
abbrev pub is_fresh : Duration → ℕ → PartitionEntry → Bool
is_fresh ttl now entry = ltb_ℤ (sub_ℕ now entry.last_seen) ttl

unfoldable pub cleanup_stale : ℕ → PartitionedRateLimiter → PartitionedRateLimiter
cleanup_stale now rl = if ltb_ℤ (pos now) rl.next_cleanup then rl else record rl {
  partitions = keep (is_fresh rl.entry_ttl now) rl.partitions;
  next_cleanup = pos now +ℤ rl.cleanup_interval;
}

-- The entry that `partitionForKey` points to.
pub data Slot : Type 0 where
  in_partition : String → PartitionEntry → Slot
  in_overflow : Slot

-- The entry of a key behind the cleanup, found, created or the shared one.
unfoldable pub place :
    ℕ → ℕ → String → PartitionedRateLimiter → Option PartitionEntry → PartitionedRateLimiter × Slot
place now created key rl (some entry) =
    let seen = record entry { last_seen = now } in
    (record rl { partitions = insert key seen rl.partitions }, in_partition key seen)
place now created key rl none =
    if ltb_ℤ (pos (length rl.partitions)) rl.max_partitions
    then (let entry = new_partition_entry rl.requests rl.burst now created in
        (record rl { partitions = insert key entry rl.partitions }, in_partition key entry))
    else (record rl { overflow = record (rl.overflow) { last_seen = now } }, in_overflow)

unfoldable pub partition_for_key :
    ℕ → ℕ → String → PartitionedRateLimiter → PartitionedRateLimiter × Slot
partition_for_key now created key rl =
    let rl₁ = cleanup_stale now rl in place now created key rl₁ (lookup key rl₁.partitions)

-- `entry.limiter.Allow()` through the pointer.
unfoldable pub allow_slot : ℕ → PartitionedRateLimiter × Slot → PartitionedRateLimiter × Bool
allow_slot at (rl, in_partition key entry) =
    let (limiter, allowed) = allow at entry.limiter in
    (
      record rl { partitions = insert key (record entry { limiter = limiter }) rl.partitions },
      allowed,
    )
allow_slot at (rl, in_overflow) =
    let (limiter, allowed) = allow at (rl.overflow.limiter) in
    (record rl { overflow = record (rl.overflow) { limiter = limiter } }, allowed)

abbrev pub or_global : String → String
or_global key = if str_eq key "" then "global" else key

-- The three readings: of `AllowKey`, of a bucket's creation, of the bucket's own `Allow`.
pub record Clock : Type 0 where
  pub now : ℕ
  pub created : ℕ
  pub at : ℕ

unfoldable pub allow_key : Clock → String → PartitionedRateLimiter → PartitionedRateLimiter × Bool
allow_key clock key rl =
    allow_slot clock.at (partition_for_key clock.now clock.created (or_global key) rl)

-- A sequence of calls.
unfoldable pub allow_keys : List (Clock × String) → PartitionedRateLimiter → PartitionedRateLimiter
allow_keys [] rl = rl
allow_keys ((clock, key) ∷ calls) rl = allow_keys calls (allow_key clock key rl).0
