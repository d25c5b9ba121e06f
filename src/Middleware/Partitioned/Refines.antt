-- ===== src/Middleware/Partitioned/Refines.antt =====
-- The keyed limiter of go/middleware/ratelimit_partitioned.go as a token bucket for each key.
use dense_cloud.Prelude.{
  str_eq, if◌then◌else◌, Bool-cases, if_both, length, pos, sub_ℕ, ltb_ℤ, lookup, insert,
  HasDistinctKeys, lookup-insert, insert-HasDistinctKeys, keep-HasDistinctKeys, ℕ, String, ◌≡◌,
  refl, ◌∙◌, subst, inl, inr, Bool, true, Option, none, some, List, [], ◌∷◌, arith, eq_iff,
}
use dense_cloud.Middleware.RateLimiter.{RateLimiter, allow}
use dense_cloud.Middleware.Partitioned.{
  PartitionEntry, PartitionedRateLimiter, new_partition_entry, is_fresh, cleanup_stale, Slot,
  in_partition, in_overflow, place, partition_for_key, allow_slot, or_global, Clock, allow_key,
}
use dense_cloud.Middleware.Partitioned.Isolation.{cleanup_stale-fresh, allow_key-other}
use dense_cloud.Golang.Contexts.{Duration}

-- What the limiter answers to the calls with a key.
unfoldable pub answers_to : String → List (Clock × String) → PartitionedRateLimiter → List Bool
answers_to key [] rl = []
answers_to key ((clock, k) ∷ calls) rl =
    let (rl₁, allowed) = allow_key clock k rl in
    let rest = answers_to key calls rl₁ in if str_eq (or_global k) key then allowed ∷ rest else rest

-- When the bucket of a key is asked.
unfoldable pub times_of : String → List (Clock × String) → List ℕ
times_of key [] = []
times_of key ((clock, k) ∷ calls) =
    let rest = times_of key calls in if str_eq (or_global k) key then clock.at ∷ rest else rest

-- The specification: what a token bucket of its own answers at these times.
unfoldable pub bucket_answers : List ℕ → RateLimiter → List Bool
bucket_answers [] rl = []
bucket_answers (at ∷ times) rl = (allow at rl).1 ∷ bucket_answers times (allow at rl).0

-- Every call comes less than the time to live after the last one with the key.
abbrev pub IsActive : String → Duration → ℕ → List (Clock × String) → Type 0
IsActive key ttl last_seen [] = Unit
IsActive key ttl last_seen ((clock, k) ∷ calls) =
    (ltb_ℤ (sub_ℕ clock.now last_seen) ttl ≡ true)
    × IsActive key ttl (if str_eq (or_global k) key then clock.now else last_seen) calls

cleanup_stale-keeps :
    (now : ℕ) (rl : PartitionedRateLimiter)
    → HasDistinctKeys rl.partitions
    → HasDistinctKeys (cleanup_stale now rl).partitions
      × ((cleanup_stale now rl).entry_ttl ≡ rl.entry_ttl)
unfolding cleanup_stale
cleanup_stale-keeps now rl d =
    ground (arith, keep-HasDistinctKeys (is_fresh rl.entry_ttl now) rl.partitions d)

place-keeps :
    (now created : ℕ) (key : String) (rl : PartitionedRateLimiter) (found : Option PartitionEntry)
    → HasDistinctKeys rl.partitions
    → HasDistinctKeys (place now created key rl found).0.partitions
      × ((place now created key rl found).0.entry_ttl ≡ rl.entry_ttl)
unfolding place
place-keeps now created key rl (some entry) d =
    (insert-HasDistinctKeys key (record entry { last_seen = now }) rl.partitions d, refl)
place-keeps now created key rl none d =
    let entry = new_partition_entry rl.requests rl.burst now created in
    if_both {A = PartitionedRateLimiter × Slot}
      (λ r. HasDistinctKeys r.0.partitions × (r.0.entry_ttl ≡ rl.entry_ttl))
      (ltb_ℤ (pos (length rl.partitions)) rl.max_partitions)
      (record rl { partitions = insert key entry rl.partitions }, in_partition key entry)
      (record rl { overflow = record (rl.overflow) { last_seen = now } }, in_overflow)
      (λ t. (insert-HasDistinctKeys key entry rl.partitions d, refl)) (λ t. (d, refl))

allow_slot-keeps :
    (at : ℕ) (rl : PartitionedRateLimiter) (slot : Slot)
    → HasDistinctKeys rl.partitions
    → HasDistinctKeys (allow_slot at (rl, slot)).0.partitions
      × ((allow_slot at (rl, slot)).0.entry_ttl ≡ rl.entry_ttl)
unfolding allow_slot
allow_slot-keeps at rl (in_partition key entry) d = (
  insert-HasDistinctKeys key (record entry { limiter = (allow at entry.limiter).0 }) rl.partitions
      d,
  refl,
)
allow_slot-keeps at rl in_overflow d = (d, refl)

allow_key-keeps :
    (clock : Clock) (key : String) (rl : PartitionedRateLimiter)
    → HasDistinctKeys rl.partitions
    → HasDistinctKeys (allow_key clock key rl).0.partitions
      × ((allow_key clock key rl).0.entry_ttl ≡ rl.entry_ttl)
unfolding allow_key partition_for_key
allow_key-keeps clock key rl d =
    let rl₁ = cleanup_stale clock.now rl in
    let (d₁, t₁) = cleanup_stale-keeps clock.now rl d in
    let found = lookup (or_global key) rl₁.partitions in
    let (placed, slot) = place clock.now clock.created (or_global key) rl₁ found in
    let (d₂, t₂) = place-keeps clock.now clock.created (or_global key) rl₁ found d₁ in
    let (d₃, t₃) = allow_slot-keeps clock.at placed slot d₂ in (d₃, t₃ ∙ (t₂ ∙ t₁))

-- The entry of a key behind a call with it.
abbrev asked : Clock → PartitionEntry → PartitionEntry
asked clock entry = record { limiter = (allow clock.at entry.limiter).0; last_seen = clock.now }

lookup-inserted :
    (key : String) (entry : PartitionEntry) (partitions : List (String × PartitionEntry))
    → lookup key (insert key entry partitions) ≡ some entry
lookup-inserted key entry partitions =
    ground (arith, eq_iff key key, lookup-insert key key entry partitions)

allow_key-own :
    (clock : Clock) (key : String) (entry : PartitionEntry) (rl : PartitionedRateLimiter)
    → HasDistinctKeys rl.partitions
    → lookup (or_global key) rl.partitions ≡ some entry
    → is_fresh rl.entry_ttl clock.now entry ≡ true
    → ((allow_key clock key rl).1 ≡ (allow clock.at entry.limiter).1)
      × (lookup (or_global key) (allow_key clock key rl).0.partitions ≡ some (asked clock entry))
unfolding allow_key partition_for_key place allow_slot
allow_key-own clock key entry rl d q fresh =
    let found = cleanup_stale-fresh clock.now (or_global key) entry rl d q fresh in
    let k = or_global key in
    let seen = record entry { last_seen = clock.now } in
    let inner = insert k seen (cleanup_stale clock.now rl).partitions in
    rw found (refl, lookup-inserted k (asked clock entry) inner)

-- The same, for the key under which the limiter files it.
allow_key-filed :
    (clock : Clock) (k key : String) (entry : PartitionEntry) (rl : PartitionedRateLimiter)
    → or_global k ≡ key
    → HasDistinctKeys rl.partitions
    → lookup key rl.partitions ≡ some entry
    → is_fresh rl.entry_ttl clock.now entry ≡ true
    → ((allow_key clock k rl).1 ≡ (allow clock.at entry.limiter).1)
      × (lookup key (allow_key clock k rl).0.partitions ≡ some (asked clock entry))
allow_key-filed clock k key entry rl e d q fresh =
    let (told, left) = allow_key-own clock k entry rl d (rw e q) fresh in
    (
      told,
      subst
          (λ (j : String). lookup j (allow_key clock k rl).0.partitions ≡ some (asked clock entry))
          e left,
    )

-- A key that is in the map, and whose calls come often enough to stay there, gets from the keyed
-- limiter, whatever other keys are called in between, how many they are and how often it cleans up,
-- exactly the answers that a token bucket of its own would give at the times of its calls.
pub answers_to-bucket :
    (key : String) (calls : List (Clock × String)) (entry : PartitionEntry)
    (rl : PartitionedRateLimiter)
    → HasDistinctKeys rl.partitions
    → lookup key rl.partitions ≡ some entry
    → IsActive key rl.entry_ttl entry.last_seen calls
    → answers_to key calls rl ≡ bucket_answers (times_of key calls) entry.limiter
unfolding answers_to times_of bucket_answers
answers_to-bucket key [] entry rl d q active = refl
answers_to-bucket key ((clock, k) ∷ calls) entry rl d q active =
    let rl₁ = (allow_key clock k rl).0 in
    let (d₁, ttl) = allow_key-keeps clock k rl d in
    elim (Bool-cases (str_eq (or_global k) key)) [
      | inl same ↦
          let (told, left) =
            allow_key-filed clock k key entry rl ((eq_iff (or_global k) key).0 same) d q active.0 in
          let later : IsActive key rl₁.entry_ttl clock.now calls = rw ttl (rw same at active.1) in
          let rest = answers_to-bucket key calls (asked clock entry) rl₁ d₁ left later in
          rw same (rw (told, rest) refl)
      | inr other ↦
          let left =
            allow_key-other clock k key entry rl d q active.0
              (λ e. ground (arith, eq_iff (or_global k) key, e, other)) in
          let later : IsActive key rl₁.entry_ttl entry.last_seen calls =
            rw ttl (rw other at active.1) in
          rw other (answers_to-bucket key calls entry rl₁ d₁ left later)
    ]
