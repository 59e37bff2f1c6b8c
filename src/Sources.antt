-- ===== src/Sources.antt =====
-- crates/core/src/sources.rs: traffic statistics for each source address, with the row type of
-- crates/core/src/status.rs. An address map is kept in key order, as `BTreeMap` iterates.
pub mod Table
pub mod Windows
pub mod History
pub mod Bounded
mod Tests
use syslog_dtls_agent.Prelude.{
  ℕ, ◌-◌, ◌/◌, ◌%◌, Bool, not, ◌&&◌, Option, none, some, List, [], ◌∷◌, map, ltb, leb, ◌==◌,
  if◌then◌else◌, length, get_or, set, replicate, add64,
}
use syslog_dtls_agent.Ip.{IpAddr, ip_eq, ip_lt}

abbrev pub source_limit : ℕ
source_limit = 256

pub record Bucket : Type 0 where
  pub tick : ℕ
  pub count : ℕ

abbrev pub empty_bucket : Bucket
empty_bucket = record { tick = 0; count = 0 }

pub record SourceStatus : Type 0 where
  pub ip : IpAddr
  pub allowed : Bool
  pub messages_received : ℕ
  pub messages_forwarded : ℕ
  pub messages_dropped : ℕ
  pub messages_per_second : ℕ
  pub messages_per_minute : ℕ
  pub messages_last_24h : ℕ
  pub last_seen_ms : ℕ

-- `seconds` has 61 buckets and `minutes` 1440.
pub record Source : Type 0 where
  pub status : SourceStatus
  pub seconds : List Bucket
  pub minutes : List Bucket

pub record Sources : Type 0 where
  pub entries : List (IpAddr × Source)
  pub untracked_messages : ℕ

abbrev pub no_sources : Sources
no_sources = record { entries = []; untracked_messages = 0 }

unfoldable pub lookup : IpAddr → List (IpAddr × Source) → Option Source
lookup ip [] = none
lookup ip ((k, v) ∷ m) = if ip_eq ip k then some v else lookup ip m

unfoldable pub insert : IpAddr → Source → List (IpAddr × Source) → List (IpAddr × Source)
insert ip s [] = (ip, s) ∷ []
insert ip s ((k, v) ∷ m) =
    if ip_eq ip k
    then (ip, s) ∷ m
    else if ip_lt ip k
    then (ip, s) ∷ (k, v) ∷ m
    else (k, v) ∷ insert ip s m

abbrev pub is_some {ℓ} : {A : Type ℓ} → Option A → Bool
is_some none = Bool.false
is_some (some a) = Bool.true

-- `[Bucket::default(); n]`.
unfoldable pub empty_ring : ℕ → List Bucket
empty_ring n = replicate n empty_bucket

-- The source that `or_insert_with` makes.
unfoldable pub new_source : IpAddr → Bool → ℕ → Source
new_source ip allowed wall_ms = record {
  status = record {
    ip = ip;
    allowed = allowed;
    messages_received = 0;
    messages_forwarded = 0;
    messages_dropped = 0;
    messages_per_second = 0;
    messages_per_minute = 0;
    messages_last_24h = 0;
    last_seen_ms = wall_ms;
  };
  seconds = empty_ring 61;
  minutes = empty_ring 1440;
}

abbrev pub count_received : ℕ → Source → Source
count_received wall_ms s = record s {
  status = record s.status {
    messages_received = add64 s.status.messages_received 1;
    last_seen_ms = wall_ms;
  };
}

abbrev pub or_new : Option Source → Source → Source
or_new none s = s
or_new (some t) s = t

unfoldable pub received : Sources → IpAddr → Bool → ℕ → Sources
received s ip allowed wall_ms =
    if not (is_some (lookup ip s.entries)) && leb source_limit (length s.entries)
    then record s { untracked_messages = add64 s.untracked_messages 1 }
    else (let source = or_new (lookup ip s.entries) (new_source ip allowed wall_ms) in
        record s { entries = insert ip (count_received wall_ms source) s.entries })

abbrev pub count_dropped : Source → Source
count_dropped s = record s {
  status = record s.status { messages_dropped = add64 s.status.messages_dropped 1 };
}

unfoldable pub dropped : Sources → IpAddr → Sources
dropped s ip = elim (lookup ip s.entries) [
  | none ↦ s
  | some source ↦ record s { entries = insert ip (count_dropped source) s.entries }
]

unfoldable pub increment : Bucket → ℕ → Bucket
increment bucket tick =
    let b = if not (bucket.tick == tick) then record { tick = tick; count = 0 } else bucket in
    record b { count = add64 b.count 1 }

-- `increment(&mut ring[tick % n], tick)`.
unfoldable pub increment_at : ℕ → List Bucket → ℕ → List Bucket
unfolding increment
increment_at n ring tick =
    set ring (tick % n) (increment (get_or ring (tick % n) empty_bucket) tick)

unfoldable pub count_forwarded : ℕ → Source → Source
count_forwarded second s = record s {
  status = record s.status { messages_forwarded = add64 s.status.messages_forwarded 1 };
  seconds = increment_at 61 s.seconds second;
  minutes = increment_at 1440 s.minutes (second / 60);
}

unfoldable pub forwarded : Sources → IpAddr → ℕ → Sources
forwarded s ip second = elim (lookup ip s.entries) [
  | none ↦ s
  | some source ↦ record s { entries = insert ip (count_forwarded second source) s.entries }
]

-- `ring.iter().filter(keep).map(|b| b.count).sum()`.
unfoldable pub sum_counts : (ℕ → Bool) → List Bucket → ℕ → ℕ
sum_counts keep [] total = total
sum_counts keep (b ∷ ring) total =
    sum_counts keep ring (if keep b.tick then add64 total b.count else total)

-- The three filters of `snapshot`.
abbrev pub in_last_second : ℕ → ℕ → Bool
in_last_second second tick = ltb tick second && second - tick == 1

abbrev pub in_last_minute : ℕ → ℕ → Bool
in_last_minute second tick = ltb tick second && leb (second - tick) 60

abbrev pub in_last_day : ℕ → ℕ → Bool
in_last_day minute tick = leb tick minute && ltb (minute - tick) 1440

unfoldable pub source_rates : ℕ → Source → SourceStatus
source_rates second source = record source.status {
  messages_per_second = sum_counts (in_last_second second) source.seconds 0;
  messages_per_minute = sum_counts (in_last_minute second) source.seconds 0;
  messages_last_24h = sum_counts (in_last_day (second / 60)) source.minutes 0;
}

unfoldable pub snapshot : Sources → ℕ → List SourceStatus
snapshot s second = map (λ entry. source_rates second entry.1) s.entries
