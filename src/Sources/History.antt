-- ===== src/Sources/History.antt =====
-- crates/core/src/sources.rs over whole histories: what the row of an address says of the calls made.
use syslog_dtls_agent.Prelude.{
  ℕ, ◌+◌, ◌/◌, ◌%◌, ◌^◌, ◌≤◌, ◌<◌, ◌≡◌, refl, ◌∙◌, ap, inl, inr, Bool, none, some, List, [], ◌∷◌,
  length, if◌then◌else◌, Bool-cases, Option-cases, map, ltb, leb, ◌==◌, ◌&&◌, arith,
}
use mathlib.Core.Option
use syslog_dtls_agent.Ip.{IpAddr, ip_eq}
use syslog_dtls_agent.Ip.Laws.{ip_eq→eq, ip_eq_self}
use syslog_dtls_agent.Sources.{
  Source, SourceStatus, Sources, empty_ring, lookup, new_source, count_received, or_new, received,
  count_dropped, dropped, count_forwarded, forwarded, source_rates, sum_counts, source_limit,
  in_last_second, in_last_minute, in_last_day,
}
use syslog_dtls_agent.Sources.Table.{lookup-insert}
use syslog_dtls_agent.Sources.Windows.{
  IsRising, IsRising-le, count_kept, fill, last_second_fill, last_minute_fill, last_day_fill,
}

-- The calls that the relay makes, with the time that each reads.
pub data Event : Type 0 where
  receive : IpAddr → Bool → ℕ → Event
  discard : IpAddr → Event
  forward : IpAddr → ℕ → Event

unfoldable pub apply : Sources → Event → Sources
apply s (receive ip allowed wall_ms) = received s ip allowed wall_ms
apply s (discard ip) = dropped s ip
apply s (forward ip second) = forwarded s ip second

unfoldable pub run : Sources → List Event → Sources
run s [] = s
run s (e ∷ es) = run (apply s e) es

-- What one call does to the row of an address that has one.
unfoldable pub apply_row : IpAddr → Event → Source → Source
apply_row ip (receive other allowed wall_ms) r =
    if ip_eq ip other then count_received wall_ms r else r
apply_row ip (discard other) r = if ip_eq ip other then count_dropped r else r
apply_row ip (forward other second) r = if ip_eq ip other then count_forwarded second r else r

unfoldable pub run_row : IpAddr → List Event → Source → Source
run_row ip [] r = r
run_row ip (e ∷ es) r = run_row ip es (apply_row ip e r)

lookup-received :
    (s : Sources) (ip other : IpAddr) (allowed : Bool) (wall_ms : ℕ) (r : Source)
    → lookup ip s.entries ≡ some r
    → lookup ip (received s other allowed wall_ms).entries
      ≡ some (if ip_eq ip other then count_received wall_ms r else r)
unfolding received
lookup-received s ip other allowed wall_ms r h = ground (
  arith,
  ip_eq→eq ip other,
  lookup-insert other ip
      (count_received wall_ms (or_new (lookup other s.entries) (new_source other allowed wall_ms)))
      s.entries,
)

lookup-received_new :
    (s : Sources) (ip : IpAddr) (allowed : Bool) (wall_ms : ℕ)
    → lookup ip s.entries ≡ none
    → length s.entries < source_limit
    → lookup ip (received s ip allowed wall_ms).entries
      ≡ some (count_received wall_ms (new_source ip allowed wall_ms))
unfolding received
lookup-received_new s ip allowed wall_ms new room = ground (
  arith,
  ip_eq_self ip,
  lookup-insert ip ip (count_received wall_ms (new_source ip allowed wall_ms)) s.entries,
)

lookup-apply :
    (s : Sources) (ip : IpAddr) (e : Event) (r : Source)
    → lookup ip s.entries ≡ some r
    → lookup ip (apply s e).entries ≡ some (apply_row ip e r)
unfolding apply apply_row dropped forwarded
lookup-apply s ip (receive other allowed wall_ms) r h =
    lookup-received s ip other allowed wall_ms r h
lookup-apply s ip (discard other) r h = elim (Option-cases (lookup other s.entries)) [
  | inl e ↦ ground (arith, ip_eq→eq ip other)
  | inr (old, e) ↦
      ground (arith, ip_eq→eq ip other, lookup-insert other ip (count_dropped old) s.entries)
]
lookup-apply s ip (forward other second) r h = elim (Option-cases (lookup other s.entries)) [
  | inl e ↦ ground (arith, ip_eq→eq ip other)
  | inr (old, e) ↦
      ground
        (arith, ip_eq→eq ip other, lookup-insert other ip (count_forwarded second old) s.entries)
]

lookup-run :
    (s : Sources) (ip : IpAddr) (es : List Event) (r : Source)
    → lookup ip s.entries ≡ some r
    → lookup ip (run s es).entries ≡ some (run_row ip es r)
unfolding run run_row
lookup-run s ip [] r h = h
lookup-run s ip (e ∷ es) r h =
    lookup-run (apply s e) ip es (apply_row ip e r) (lookup-apply s ip e r h)

-- The calls that a history makes for an address, and the seconds of those that forward.
unfoldable pub receives : IpAddr → List Event → ℕ
receives ip [] = 0
receives ip (receive other allowed wall_ms ∷ es) =
    (if ip_eq ip other then 1 else 0) + receives ip es
receives ip (discard other ∷ es) = receives ip es
receives ip (forward other second ∷ es) = receives ip es

unfoldable pub discards : IpAddr → List Event → ℕ
discards ip [] = 0
discards ip (receive other allowed wall_ms ∷ es) = discards ip es
discards ip (discard other ∷ es) = (if ip_eq ip other then 1 else 0) + discards ip es
discards ip (forward other second ∷ es) = discards ip es

unfoldable pub forwards : IpAddr → List Event → List ℕ
forwards ip [] = []
forwards ip (receive other allowed wall_ms ∷ es) = forwards ip es
forwards ip (discard other ∷ es) = forwards ip es
forwards ip (forward other second ∷ es) =
    let rest = forwards ip es in if ip_eq ip other then second ∷ rest else rest

-- The wall clock of the latest datagram of an address.
unfoldable pub last_seen : IpAddr → ℕ → List Event → ℕ
last_seen ip seen [] = seen
last_seen ip seen (receive other allowed wall_ms ∷ es) =
    last_seen ip (if ip_eq ip other then wall_ms else seen) es
last_seen ip seen (discard other ∷ es) = last_seen ip seen es
last_seen ip seen (forward other second ∷ es) = last_seen ip seen es

abbrev minutes_of : List ℕ → List ℕ
minutes_of = map (λ t. t / 60)

-- The row of an address after a history, field by field.
record IsRowAfter (ip : IpAddr) (es : List Event) (r t : Source) : Type 0 where
  ip_kept : t.status.ip ≡ r.status.ip
  allowed_kept : t.status.allowed ≡ r.status.allowed
  received_exact :
      t.status.messages_received % 2 ^ 64 ≡ (r.status.messages_received + receives ip es) % 2 ^ 64
  forwarded_exact :
      t.status.messages_forwarded % 2 ^ 64
      ≡ (r.status.messages_forwarded + length (forwards ip es)) % 2 ^ 64
  dropped_exact :
      t.status.messages_dropped % 2 ^ 64 ≡ (r.status.messages_dropped + discards ip es) % 2 ^ 64
  seen : t.status.last_seen_ms ≡ last_seen ip r.status.last_seen_ms es
  seconds_filled : t.seconds ≡ fill 61 r.seconds (forwards ip es)
  minutes_filled : t.minutes ≡ fill 1440 r.minutes (minutes_of (forwards ip es))

run_row-IsRowAfter :
    (ip : IpAddr) (es : List Event) (r : Source) → IsRowAfter ip es r (run_row ip es r)
unfolding run_row apply_row receives discards forwards last_seen fill count_forwarded
run_row-IsRowAfter ip [] r = ground arith
run_row-IsRowAfter ip (receive other allowed wall_ms ∷ es) r = elim (Bool-cases (ip_eq ip other)) [
  | inl e ↦ rw e (ground (arith, run_row-IsRowAfter ip es (count_received wall_ms r)))
  | inr e ↦ rw e (ground (arith, run_row-IsRowAfter ip es r))
]
run_row-IsRowAfter ip (discard other ∷ es) r = elim (Bool-cases (ip_eq ip other)) [
  | inl e ↦ rw e (ground (arith, run_row-IsRowAfter ip es (count_dropped r)))
  | inr e ↦ rw e (ground (arith, run_row-IsRowAfter ip es r))
]
run_row-IsRowAfter ip (forward other second ∷ es) r = elim (Bool-cases (ip_eq ip other)) [
  | inl e ↦ rw e (ground (arith, run_row-IsRowAfter ip es (count_forwarded second r)))
  | inr e ↦ rw e (ground (arith, run_row-IsRowAfter ip es r))
]

-- No counter of the row has passed 64 bits.
record IsCounted (r : Source) : Type 0 where
  received_fits : r.status.messages_received < 2 ^ 64
  forwarded_fits : r.status.messages_forwarded < 2 ^ 64
  dropped_fits : r.status.messages_dropped < 2 ^ 64

apply_row-IsCounted :
    (ip : IpAddr) (e : Event) (r : Source) → IsCounted r → IsCounted (apply_row ip e r)
unfolding apply_row count_forwarded
apply_row-IsCounted ip (receive other allowed wall_ms) r c = ground arith
apply_row-IsCounted ip (discard other) r c = ground arith
apply_row-IsCounted ip (forward other second) r c = ground arith

run_row-IsCounted :
    (ip : IpAddr) (es : List Event) (r : Source) → IsCounted r → IsCounted (run_row ip es r)
unfolding run_row
run_row-IsCounted ip [] r c = c
run_row-IsCounted ip (e ∷ es) r c =
    run_row-IsCounted ip es (apply_row ip e r) (apply_row-IsCounted ip e r c)

-- Filters that agree up to `now` count the same.
count_kept-congr :
    (now last : ℕ) (keep other : ℕ → Bool) (ts : List ℕ)
    → ((t : ℕ) → t ≤ now → keep t ≡ other t)
    → IsRising now last ts
    → count_kept keep ts ≡ count_kept other ts
unfolding count_kept
count_kept-congr now last keep other [] h r = refl
count_kept-congr now last keep other (t ∷ ts) h r =
    rw (h t (IsRising-le now t ts r.1))
      (ap (λ k. (if other t then 1 else 0) + k) (count_kept-congr now t keep other ts h r.1))

count_kept-minutes :
    (second last : ℕ) (ts : List ℕ)
    → IsRising second last ts
    → count_kept (in_last_day (second / 60)) (minutes_of ts)
      ≡ count_kept (λ t. ltb (second / 60) (t / 60 + 1440)) ts
unfolding count_kept
count_kept-minutes second last [] r = refl
count_kept-minutes second last (t ∷ ts) r =
    ground (arith, count_kept-minutes second t ts r.1, IsRising-le second t ts r.1)

IsRising-minutes :
    (second last : ℕ) (ts : List ℕ)
    → IsRising second last ts
    → IsRising (second / 60) (last / 60) (minutes_of ts)
IsRising-minutes second last [] r = omega arith
IsRising-minutes second last (t ∷ ts) r = (omega arith, IsRising-minutes second t ts r.1)

-- What the row of an address must show at `second`, from the calls made for it alone.
unfoldable pub row_spec : IpAddr → Bool → ℕ → List Event → ℕ → SourceStatus
row_spec ip allowed wall_ms es second =
    let ts = forwards ip es in
    record {
      ip = ip;
      allowed = allowed;
      messages_received = (1 + receives ip es) % 2 ^ 64;
      messages_forwarded = length ts % 2 ^ 64;
      messages_dropped = discards ip es % 2 ^ 64;
      messages_per_second = count_kept (λ t. t + 1 == second) ts % 2 ^ 64;
      messages_per_minute = count_kept (λ t. ltb t second && leb second (t + 60)) ts % 2 ^ 64;
      messages_last_24h = count_kept (λ t. ltb (second / 60) (t / 60 + 1440)) ts % 2 ^ 64;
      last_seen_ms = last_seen ip wall_ms es;
    }

module _ (ip : IpAddr) (es : List Event) (second : ℕ)
    (rising : IsRising second 0 (forwards ip es)) where
  abbrev ticks : List ℕ
  ticks = forwards ip es

  per_second_lem :
      sum_counts (in_last_second second) (fill 61 (empty_ring 61) ticks) 0
      ≡ count_kept (λ t. t + 1 == second) ticks % 2 ^ 64
  per_second_lem =
      last_second_fill second ticks rising
      ∙ ap (λ k. k % 2 ^ 64) (count_kept-congr second 0 _ _ ticks (λ t h. ground arith) rising)

  per_minute_lem :
      sum_counts (in_last_minute second) (fill 61 (empty_ring 61) ticks) 0
      ≡ count_kept (λ t. ltb t second && leb second (t + 60)) ticks % 2 ^ 64
  per_minute_lem =
      last_minute_fill second ticks rising
      ∙ ap (λ k. k % 2 ^ 64) (count_kept-congr second 0 _ _ ticks (λ t h. ground arith) rising)

  last_24h_lem :
      sum_counts (in_last_day (second / 60)) (fill 1440 (empty_ring 1440) (minutes_of ticks)) 0
      ≡ count_kept (λ t. ltb (second / 60) (t / 60 + 1440)) ticks % 2 ^ 64
  last_24h_lem =
      last_day_fill (second / 60) (minutes_of ticks) (IsRising-minutes second 0 ticks rising)
      ∙ ap (λ k. k % 2 ^ 64) (count_kept-minutes second 0 ticks rising)

  rates-run_row :
      (allowed : Bool) (wall_ms : ℕ)
      → source_rates second (run_row ip es (count_received wall_ms (new_source ip allowed wall_ms)))
        ≡ row_spec ip allowed wall_ms es second
  unfolding source_rates row_spec new_source
  rates-run_row allowed wall_ms = ground (
    arith,
    run_row-IsRowAfter ip es (count_received wall_ms (new_source ip allowed wall_ms)),
    run_row-IsCounted ip es (count_received wall_ms (new_source ip allowed wall_ms)),
    per_second_lem,
    per_minute_lem,
    last_24h_lem,
  )

-- An address that is new while fewer than 256 are tracked gets a row, and after any later calls, in
-- which the seconds of its own forwarded messages rise up to `second`, its row in the snapshot at
-- `second` shows exactly the counts of the calls made for it, and as rates the messages forwarded in
-- the last completed second, in the last 60 completed seconds, and in the current minute and the 1439
-- before it (all modulo 2 ^ 64).
pub snapshot_row :
    (s : Sources) (ip : IpAddr) (allowed : Bool) (wall_ms : ℕ) (es : List Event) (second : ℕ)
    → lookup ip s.entries ≡ none
    → length s.entries < source_limit
    → IsRising second 0 (forwards ip es)
    → Option.map (source_rates second) (lookup ip (run (received s ip allowed wall_ms) es).entries)
      ≡ some (row_spec ip allowed wall_ms es second)
snapshot_row s ip allowed wall_ms es second new room rising =
    rw
      (lookup-run (received s ip allowed wall_ms) ip es
        (count_received wall_ms (new_source ip allowed wall_ms))
        (lookup-received_new s ip allowed wall_ms new room))
      (ap some (rates-run_row ip es second rising allowed wall_ms))
