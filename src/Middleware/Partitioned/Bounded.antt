-- ===== src/Middleware/Partitioned/Bounded.antt =====
-- The state that the keyed limiter of go/middleware/ratelimit_partitioned.go keeps bounded.
use dense_cloud.Prelude.{
  is_some, if_both, length, ℤ, pos, pos_part, ◌+ℤ◌, ◌≤ℤ◌, ltb_ℤ, lookup, insert, keep,
  HasDistinctKeys, lookup-insert, insert-HasDistinctKeys, length-insert, keep-HasDistinctKeys,
  length-keep-le, AllValues, AllValues-insert, AllValues-keep, AllValues-lookup, ℕ, ◌*◌, ◌≤◌, ◌<◌,
  String, ◌≡◌, refl, ◌⊎◌, inl, inr, true, Option, none, some, List, [], ◌∷◌, arith, eq_iff,
}
use dense_cloud.Middleware.RateLimiter.{one_token, new_rate_limiter, allow}
use dense_cloud.Middleware.Partitioned.{
  PartitionedRateLimiterConfig, PartitionEntry, PartitionedRateLimiter,
  normalize_partitioned_rate_limiter_config, new_partition_entry,
  new_partitioned_rate_limiter_with_config, is_fresh, cleanup_stale, Slot, in_partition,
  in_overflow, place, partition_for_key, allow_slot, or_global, Clock, allow_key, allow_keys,
}

-- Every field positive, and the cleanup no rarer than the time to live.
abbrev pub IsNormal : PartitionedRateLimiterConfig → Type 0
IsNormal cfg =
    (1 ≤ pos_part cfg.requests_per_second)
    × (1 ≤ pos_part cfg.burst)
    × (1 ≤ pos_part cfg.entry_ttl)
    × (1 ≤ pos_part cfg.max_partitions)
    × (1 ≤ pos_part cfg.cleanup_interval)
    × (cfg.cleanup_interval ≤ℤ cfg.entry_ttl)

-- The normalised configuration of a keyed limiter has every field positive and a cleanup interval
-- of at most the entries' time to live, whatever the given configuration is.
pub normalize_partitioned_rate_limiter_config-IsNormal :
    (cfg : PartitionedRateLimiterConfig) → IsNormal (normalize_partitioned_rate_limiter_config cfg)
unfolding normalize_partitioned_rate_limiter_config
normalize_partitioned_rate_limiter_config-IsNormal cfg = ground arith

-- A bucket of the limiter's rate, with at most its burst.
abbrev pub IsBucket : ℤ → ℤ → PartitionEntry → Type 0
IsBucket requests burst entry =
    (entry.limiter.max_tokens ≡ pos_part burst * one_token)
    × (entry.limiter.refill_rate ≡ pos_part requests)
    × (entry.limiter.tokens ≤ pos_part burst * one_token)

abbrev pub IsBounded : PartitionedRateLimiter → Type 0
IsBounded rl =
    HasDistinctKeys rl.partitions
    × (length rl.partitions ≤ pos_part rl.max_partitions)
    × AllValues (IsBucket rl.requests rl.burst) rl.partitions
    × IsBucket rl.requests rl.burst rl.overflow

pub new_partition_entry-IsBucket :
    (requests burst : ℤ) (now created : ℕ)
    → IsBucket requests burst (new_partition_entry requests burst now created)
unfolding new_partition_entry new_rate_limiter
new_partition_entry-IsBucket requests burst now created = (refl, refl, omega arith)

pub allow-IsBucket :
    (at : ℕ) (requests burst : ℤ) (entry : PartitionEntry)
    → IsBucket requests burst entry
    → IsBucket requests burst (record entry { limiter = (allow at entry.limiter).0 })
unfolding allow
allow-IsBucket at requests burst entry h = ground arith

cleanup_stale-IsBounded :
    (now : ℕ) (rl : PartitionedRateLimiter) → IsBounded rl → IsBounded (cleanup_stale now rl)
unfolding cleanup_stale
cleanup_stale-IsBounded now rl h =
    let kept = keep (is_fresh rl.entry_ttl now) rl.partitions in
    if_both IsBounded (ltb_ℤ (pos now) rl.next_cleanup) rl
      record rl { partitions = kept; next_cleanup = pos now +ℤ rl.cleanup_interval } (λ q. h)
      (λ q. (
        keep-HasDistinctKeys (is_fresh rl.entry_ttl now) rl.partitions h.0,
        omega (arith, length-keep-le (is_fresh rl.entry_ttl now) rl.partitions),
        AllValues-keep (IsBucket rl.requests rl.burst) (is_fresh rl.entry_ttl now) rl.partitions
            h.2,
        h.3,
      ))

-- An entry that fits, put at a key that is there, or at a new one below the bound.
insert-IsBounded :
    (key : String) (entry : PartitionEntry) (rl : PartitionedRateLimiter)
    → IsBounded rl
    → IsBucket rl.requests rl.burst entry
    → (is_some (lookup key rl.partitions) ≡ true)
      ⊎ (length rl.partitions < pos_part rl.max_partitions)
    → IsBounded (record rl { partitions = insert key entry rl.partitions })
insert-IsBounded key entry rl (d, n, b, o) e room = (
  insert-HasDistinctKeys key entry rl.partitions d,
  ground (arith, length-insert key entry rl.partitions),
  AllValues-insert (IsBucket rl.requests rl.burst) key entry rl.partitions e b,
  o,
)

-- The slot's entry fits, and a partition's slot is in the map.
abbrev IsPlaced : PartitionedRateLimiter × Slot → Type 0
IsPlaced (rl, in_partition key entry) =
    IsBucket rl.requests rl.burst entry × (is_some (lookup key rl.partitions) ≡ true)
IsPlaced (rl, in_overflow) = Unit

place-IsBounded :
    (now created : ℕ) (key : String) (rl : PartitionedRateLimiter) (found : Option PartitionEntry)
    → lookup key rl.partitions ≡ found
    → IsBounded rl
    → IsBounded (place now created key rl found).0 × IsPlaced (place now created key rl found)
unfolding place
place-IsBounded now created key rl (some entry) q h =
    let b = AllValues-lookup (IsBucket rl.requests rl.burst) key entry rl.partitions h.2 q in
    (
      insert-IsBounded key (record entry { last_seen = now }) rl h b (inl (ground arith)),
      (
        b,
        ground (
          arith,
          eq_iff key key,
          lookup-insert key key (record entry { last_seen = now }) rl.partitions,
        ),
      ),
    )
place-IsBounded now created key rl none q h =
    let entry = new_partition_entry rl.requests rl.burst now created in
    let b = new_partition_entry-IsBucket rl.requests rl.burst now created in
    if_both (λ r. IsBounded r.0 × IsPlaced r) (ltb_ℤ (pos (length rl.partitions)) rl.max_partitions)
      (record rl { partitions = insert key entry rl.partitions }, in_partition key entry)
      (record rl { overflow = record (rl.overflow) { last_seen = now } }, in_overflow)
      (λ t. (
        insert-IsBounded key entry rl h b (inr (ground arith)),
        (b, ground (arith, eq_iff key key, lookup-insert key key entry rl.partitions)),
      ))
      (λ t. (h, tt))

allow_slot-IsBounded :
    (at : ℕ) (rl : PartitionedRateLimiter) (slot : Slot)
    → IsBounded rl
    → IsPlaced (rl, slot)
    → IsBounded (allow_slot at (rl, slot)).0
unfolding allow_slot
allow_slot-IsBounded at rl (in_partition key entry) h p =
    insert-IsBounded key (record entry { limiter = (allow at entry.limiter).0 }) rl h
      (allow-IsBucket at rl.requests rl.burst entry p.0) (inl p.1)
allow_slot-IsBounded at rl in_overflow (d, n, b, o) p =
    (d, n, b, allow-IsBucket at rl.requests rl.burst rl.overflow o)

pub allow_key-IsBounded :
    (clock : Clock) (key : String) (rl : PartitionedRateLimiter)
    → IsBounded rl
    → IsBounded (allow_key clock key rl).0
unfolding allow_key partition_for_key
allow_key-IsBounded clock key rl h =
    let rl₁ = cleanup_stale clock.now rl in
    let k = or_global key in
    let found = lookup k rl₁.partitions in
    let p =
      place-IsBounded clock.now clock.created k rl₁ found refl
        (cleanup_stale-IsBounded clock.now rl h) in
    let placed = place clock.now clock.created k rl₁ found in
    allow_slot-IsBounded clock.at placed.0 placed.1 p.0 p.1

allow_keys-IsBounded_from :
    (calls : List (Clock × String)) (rl : PartitionedRateLimiter)
    → IsBounded rl
    → IsBounded (allow_keys calls rl)
unfolding allow_keys
allow_keys-IsBounded_from [] rl h = h
allow_keys-IsBounded_from ((clock, key) ∷ calls) rl h =
    allow_keys-IsBounded_from calls (allow_key clock key rl).0 (allow_key-IsBounded clock key rl h)

-- A keyed limiter of any configuration, behind any sequence of calls with any keys at any times,
-- has one bucket for each key at most, no more buckets than the normalised bound on partitions,
-- and in each bucket, the overflow's too, the limiter's rate and at most its burst.
pub allow_keys-IsBounded :
    (cfg : PartitionedRateLimiterConfig) (now created : ℕ) (calls : List (Clock × String))
    → IsBounded (allow_keys calls (new_partitioned_rate_limiter_with_config cfg now created))
unfolding new_partitioned_rate_limiter_with_config
allow_keys-IsBounded cfg now created calls =
    let c = normalize_partitioned_rate_limiter_config cfg in
    allow_keys-IsBounded_from calls (new_partitioned_rate_limiter_with_config cfg now created)
      (tt, omega arith, tt, new_partition_entry-IsBucket c.requests_per_second c.burst now created)
