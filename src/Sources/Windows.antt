-- ===== src/Sources/Windows.antt =====
-- The traffic windows of crates/core/src/sources.rs: what the rings of buckets make of a history of
-- forwarded messages.
use syslog_dtls_agent.Prelude.{
  ℕ, zero, suc, ◌+◌, ◌%◌, ◌^◌, ◌≤◌, ◌<◌, ◌≡◌, ◌≢◌, refl, ◌∙◌, ◌⊎◌, inl, inr, Bool, false, List, [],
  ◌∷◌, if◌then◌else◌, length, get_or, set, replicate, length-set, length-replicate, Bool-cases,
  arith,
}
use syslog_dtls_agent.Sources.{
  Bucket, empty_bucket, empty_ring, increment, increment_at, sum_counts, in_last_second,
  in_last_minute, in_last_day,
}

-- The sum that the filters of `snapshot` stand for, with no wrap.
abbrev weight : (ℕ → Bool) → Bucket → ℕ
weight keep b = if keep b.tick then b.count else 0

weigh : (ℕ → Bool) → List Bucket → ℕ
weigh keep [] = 0
weigh keep (b ∷ ring) = weight keep b + weigh keep ring

sum_counts-weigh :
    (keep : ℕ → Bool) (ring : List Bucket) (total : ℕ)
    → total < 2 ^ 64
    → sum_counts keep ring total ≡ (total + weigh keep ring) % 2 ^ 64
unfolding sum_counts weigh
sum_counts-weigh keep [] total h = omega arith
sum_counts-weigh keep (b ∷ ring) total h = elim (Bool-cases (keep b.tick)) [
  | inl e ↦
      rw e (omega (arith, sum_counts-weigh keep ring ((total + b.count) % 2 ^ 64) (omega arith)))
  | inr e ↦ rw e (omega (arith, sum_counts-weigh keep ring total h))
]

weigh-set :
    (keep : ℕ → Bool) (ring : List Bucket) (i : ℕ) (v : Bucket)
    → i < length ring
    → weigh keep (set ring i v) + weight keep (get_or ring i empty_bucket)
      ≡ weigh keep ring + weight keep v
unfolding weigh
weigh-set keep [] i v h = absurd (omega arith)
weigh-set keep (b ∷ ring) zero v h = omega arith
weigh-set keep (b ∷ ring) (suc i) v h = omega (arith, weigh-set keep ring i v (omega arith))

-- A bucket holds a tick of its own slot, no later than the last one counted.
abbrev IsSlot : ℕ → ℕ → ℕ → Bucket → Type 0
IsSlot n last i b = (b.tick ≤ last) × ((b.count ≡ 0) ⊎ (b.tick % n ≡ i))

abbrev Slots : ℕ → ℕ → ℕ → List Bucket → Type 0
Slots n last i [] = Unit {0}
Slots n last i (b ∷ ring) = IsSlot n last i b × Slots n last (suc i) ring

Slots-get_or :
    (n last i : ℕ) (ring : List Bucket) (j : ℕ)
    → Slots n last i ring
    → j < length ring
    → IsSlot n last (i + j) (get_or ring j empty_bucket)
Slots-get_or n last i [] j s h = absurd (omega arith)
Slots-get_or n last i (b ∷ ring) zero s h = ground arith
Slots-get_or n last i (b ∷ ring) (suc j) s h =
    ground (arith, Slots-get_or n last (suc i) ring j s.1 (omega arith))

Slots-mono :
    (n last t i : ℕ) (ring : List Bucket) → last ≤ t → Slots n last i ring → Slots n t i ring
Slots-mono n last t i [] h s = tt
Slots-mono n last t i (b ∷ ring) h s =
    ((omega arith, s.0.1), Slots-mono n last t (suc i) ring h s.1)

Slots-set :
    (n last i : ℕ) (ring : List Bucket) (j : ℕ) (v : Bucket)
    → Slots n last i ring
    → IsSlot n last (i + j) v
    → Slots n last i (set ring j v)
Slots-set n last i [] j v s h = tt
Slots-set n last i (b ∷ ring) zero v s h = (ground arith, s.1)
Slots-set n last i (b ∷ ring) (suc j) v s h =
    (s.0, Slots-set n last (suc i) ring j v s.1 (ground arith))

Slots-replicate : (n last i k : ℕ) → Slots n last i (replicate k empty_bucket)
Slots-replicate n last i zero = tt
Slots-replicate n last i (suc k) = ((omega arith, inl refl), Slots-replicate n last (suc i) k)

weigh-replicate : (keep : ℕ → Bool) (k : ℕ) → weigh keep (replicate k empty_bucket) ≡ 0
unfolding weigh
weigh-replicate keep zero = refl
weigh-replicate keep (suc k) = ground (arith, weigh-replicate keep k)

-- What a ring of `n` buckets satisfies after ticks up to `last`.
record IsRing (n last : ℕ) (ring : List Bucket) : Type 0 where
  size : length ring ≡ n
  slots : Slots n last 0 ring

increment_at-IsRing :
    (n last t : ℕ) (ring : List Bucket)
    → t % n < n
    → last ≤ t
    → IsRing n last ring
    → IsRing n t (increment_at n ring t)
unfolding increment_at
increment_at-IsRing n last t ring small rise r = record {
  size = length-set ring (t % n) _ ∙ r.size;
  slots = Slots-set n t 0 ring (t % n) _ (Slots-mono n last t 0 ring rise r.slots) (ground arith);
}

-- The tick of an older bucket in the same slot is outside the window.
abbrev Stale : ℕ → ℕ → (ℕ → Bool) → Type 0
Stale n now keep = (old t : ℕ) → old ≤ t → t ≤ now → old % n ≡ t % n → old ≢ t → keep old ≡ false

increment_at-weigh :
    (n last now t : ℕ) (keep : ℕ → Bool) (ring : List Bucket)
    → Stale n now keep
    → t % n < n
    → last ≤ t
    → t ≤ now
    → IsRing n last ring
    → weigh keep (increment_at n ring t) % 2 ^ 64
      ≡ (weigh keep ring + (if keep t then 1 else 0)) % 2 ^ 64
unfolding increment_at
increment_at-weigh n last now t keep ring stale small rise bound r = ground (
  arith,
  Slots-get_or n last 0 ring (t % n) r.slots,
  weigh-set keep ring (t % n) (increment (get_or ring (t % n) empty_bucket) t),
  stale (get_or ring (t % n) empty_bucket).tick t,
)

-- The ticks rise from `last` up to `now`.
abbrev pub IsRising : ℕ → ℕ → List ℕ → Type 0
IsRising now last [] = last ≤ now
IsRising now last (t ∷ ts) = (last ≤ t) × IsRising now t ts

pub IsRising-le : (now last : ℕ) (ts : List ℕ) → IsRising now last ts → last ≤ now
IsRising-le now last [] h = h
IsRising-le now last (t ∷ ts) h = omega (arith, IsRising-le now t ts h.1)

unfoldable pub count_kept : (ℕ → Bool) → List ℕ → ℕ
count_kept keep [] = 0
count_kept keep (t ∷ ts) = (if keep t then 1 else 0) + count_kept keep ts

-- The ring after counting each tick in turn.
unfoldable pub fill : ℕ → List Bucket → List ℕ → List Bucket
fill n ring [] = ring
fill n ring (t ∷ ts) = fill n (increment_at n ring t) ts

module _ (n now : ℕ) (keep : ℕ → Bool) (stale : Stale n now keep)
    (small : (t : ℕ) → t % n < n) where
  fill-weigh :
      (last : ℕ) (ring : List Bucket) (ts : List ℕ)
      → IsRing n last ring
      → IsRising now last ts
      → weigh keep (fill n ring ts) % 2 ^ 64 ≡ (weigh keep ring + count_kept keep ts) % 2 ^ 64
  unfolding fill count_kept
  fill-weigh last ring [] r h = omega arith
  fill-weigh last ring (t ∷ ts) r h = omega (
    arith,
    fill-weigh t (increment_at n ring t) ts (increment_at-IsRing n last t ring (small t) h.0 r) h.1,
    increment_at-weigh n last now t keep ring stale (small t) h.0 (IsRising-le now t ts h.1) r,
  )

  -- The filtered sum over a ring that started empty counts the ticks that the filter keeps.
  sum_counts-fill :
      (ts : List ℕ)
      → IsRising now 0 ts
      → sum_counts keep (fill n (empty_ring n) ts) 0 ≡ count_kept keep ts % 2 ^ 64
  unfolding empty_ring
  sum_counts-fill ts h = omega (
    arith,
    sum_counts-weigh keep (fill n (empty_ring n) ts) 0 (omega arith),
    fill-weigh 0 (empty_ring n) ts
        (record { size = length-replicate n empty_bucket; slots = Slots-replicate n 0 0 n }) h,
    weigh-replicate keep n,
  )

Stale-second : (second : ℕ) → Stale 61 second (in_last_second second)
Stale-second second old t h k e ne = ground arith

Stale-minute : (second : ℕ) → Stale 61 second (in_last_minute second)
Stale-minute second old t h k e ne = ground arith

Stale-day : (minute : ℕ) → Stale 1440 minute (in_last_day minute)
Stale-day minute old t h k e ne = ground arith

pub last_second_fill :
    (second : ℕ) (ts : List ℕ)
    → IsRising second 0 ts
    → sum_counts (in_last_second second) (fill 61 (empty_ring 61) ts) 0
      ≡ count_kept (in_last_second second) ts % 2 ^ 64
last_second_fill second ts h =
    sum_counts-fill 61 second _ (Stale-second second) (λ t. omega arith) ts h

pub last_minute_fill :
    (second : ℕ) (ts : List ℕ)
    → IsRising second 0 ts
    → sum_counts (in_last_minute second) (fill 61 (empty_ring 61) ts) 0
      ≡ count_kept (in_last_minute second) ts % 2 ^ 64
last_minute_fill second ts h =
    sum_counts-fill 61 second _ (Stale-minute second) (λ t. omega arith) ts h

pub last_day_fill :
    (minute : ℕ) (ts : List ℕ)
    → IsRising minute 0 ts
    → sum_counts (in_last_day minute) (fill 1440 (empty_ring 1440) ts) 0
      ≡ count_kept (in_last_day minute) ts % 2 ^ 64
last_day_fill minute ts h = sum_counts-fill 1440 minute _ (Stale-day minute) (λ t. omega arith) ts h
