-- ===== src/Middleware/Partitioned/Isolation.antt =====
-- What a call to the keyed limiter of go/middleware/ratelimit_partitioned.go does to other keys.
use dense_cloud.Prelude.{
  if_both, length, pos, ◌≤ℤ◌, ltb_ℤ, lookup, insert, HasDistinctKeys, lookup-insert, lookup-keep, ℕ,
  String, ◌≡◌, refl, ◌∙◌, ◌≢◌, true, Option, none, some, arith, eq_iff,
}
use dense_cloud.Middleware.RateLimiter.{allow}
use dense_cloud.Middleware.Partitioned.{
  PartitionEntry, PartitionedRateLimiter, new_partition_entry, is_fresh, cleanup_stale, Slot,
  in_partition, in_overflow, place, partition_for_key, allow_slot, or_global, Clock, allow_key,
}

pub cleanup_stale-fresh :
    (now : ℕ) (j : String) (entry : PartitionEntry) (rl : PartitionedRateLimiter)
    → HasDistinctKeys rl.partitions
    → lookup j rl.partitions ≡ some entry
    → is_fresh rl.entry_ttl now entry ≡ true
    → lookup j (cleanup_stale now rl).partitions ≡ some entry
unfolding cleanup_stale
cleanup_stale-fresh now j entry rl d q f =
    ground (arith, lookup-keep (is_fresh rl.entry_ttl now) j entry rl.partitions d q)

-- A slot of a key has no other key.
abbrev IsOf : String → Slot → Type 0
IsOf key (in_partition k entry) = k ≡ key
IsOf key in_overflow = Unit

place-other :
    (now created : ℕ) (key j : String) (rl : PartitionedRateLimiter) (found : Option PartitionEntry)
    → j ≢ key
    → (lookup j (place now created key rl found).0.partitions ≡ lookup j rl.partitions)
      × IsOf key (place now created key rl found).1
unfolding place
place-other now created key j rl (some entry) h = (
  ground
      (arith, eq_iff key j, lookup-insert key j (record entry { last_seen = now }) rl.partitions),
  refl,
)
place-other now created key j rl none h =
    let entry = new_partition_entry rl.requests rl.burst now created in
    if_both {A = PartitionedRateLimiter × Slot}
      (λ r. (lookup j r.0.partitions ≡ lookup j rl.partitions) × IsOf key r.1)
      (ltb_ℤ (pos (length rl.partitions)) rl.max_partitions)
      (record rl { partitions = insert key entry rl.partitions }, in_partition key entry)
      (record rl { overflow = record (rl.overflow) { last_seen = now } }, in_overflow)
      (λ t. (ground (arith, eq_iff key j, lookup-insert key j entry rl.partitions), refl))
      (λ t. (refl, tt))

allow_slot-other :
    (at : ℕ) (key j : String) (rl : PartitionedRateLimiter) (slot : Slot)
    → j ≢ key
    → IsOf key slot
    → lookup j (allow_slot at (rl, slot)).0.partitions ≡ lookup j rl.partitions
unfolding allow_slot
allow_slot-other at key j rl (in_partition k entry) h o = ground (
  arith,
  eq_iff k j,
  lookup-insert k j (record entry { limiter = (allow at entry.limiter).0 }) rl.partitions,
)
allow_slot-other at key j rl in_overflow h o = refl

-- A call with one key leaves the bucket of every other key as it is, be it that the call cleans up,
-- as long as that bucket's entry is younger than the time to live: no key evicts another's bucket.
pub allow_key-other :
    (clock : Clock) (key j : String) (entry : PartitionEntry) (rl : PartitionedRateLimiter)
    → HasDistinctKeys rl.partitions
    → lookup j rl.partitions ≡ some entry
    → is_fresh rl.entry_ttl clock.now entry ≡ true
    → j ≢ or_global key
    → lookup j (allow_key clock key rl).0.partitions ≡ some entry
unfolding allow_key partition_for_key
allow_key-other clock key j entry rl d q f h =
    let rl₁ = cleanup_stale clock.now rl in
    let k = or_global key in
    let found = lookup k rl₁.partitions in
    let (same, of) = place-other clock.now clock.created k j rl₁ found h in
    let placed = place clock.now clock.created k rl₁ found in
    allow_slot-other clock.at k j placed.0 placed.1 h of
    ∙ same
    ∙ cleanup_stale-fresh clock.now j entry rl d q f

-- Between cleanups, an unseen key at a full limiter creates and evicts no bucket: the call is
-- decided by the overflow bucket, and it changes no partition.
pub allow_key-full :
    (clock : Clock) (key : String) (rl : PartitionedRateLimiter)
    → ltb_ℤ (pos clock.now) rl.next_cleanup ≡ true
    → lookup (or_global key) rl.partitions ≡ none
    → rl.max_partitions ≤ℤ pos (length rl.partitions)
    → ((allow_key clock key rl).1 ≡ (allow clock.at rl.overflow.limiter).1)
      × ((allow_key clock key rl).0.overflow.limiter ≡ (allow clock.at rl.overflow.limiter).0)
      × ((allow_key clock key rl).0.partitions ≡ rl.partitions)
unfolding allow_key partition_for_key cleanup_stale place allow_slot
allow_key-full clock key rl early unseen full = rw early (
    rw unseen (
      if_both {A = PartitionedRateLimiter × Slot}
        (λ r.
          ((allow_slot clock.at r).1 ≡ (allow clock.at rl.overflow.limiter).1)
          × ((allow_slot clock.at r).0.overflow.limiter ≡ (allow clock.at rl.overflow.limiter).0)
          × ((allow_slot clock.at r).0.partitions ≡ rl.partitions))
        (ltb_ℤ (pos (length rl.partitions)) rl.max_partitions)
        (
          record rl {
            partitions =
                insert (or_global key)
                  (new_partition_entry rl.requests rl.burst clock.now clock.created) rl.partitions;
          },
          in_partition (or_global key)
              (new_partition_entry rl.requests rl.burst clock.now clock.created),
        )
        (record rl { overflow = record (rl.overflow) { last_seen = clock.now } }, in_overflow)
        (λ t. absurd (ground arith)) (λ t. (refl, refl, refl))))
