-- ===== src/Sources/Table.antt =====
-- The address table of crates/core/src/sources.rs: lookups after a write, the order of the keys,
-- and the limit on the number of rows.
use syslog_dtls_agent.Prelude.{
  ℕ, suc, ◌≤◌, ◌≡◌, refl, inl, inr, Bool, true, false, none, some, List, [], ◌∷◌, if◌then◌else◌,
  length, Bool-cases, Option-cases, arith,
}
use syslog_dtls_agent.Ip.{IpAddr, ip_eq, ip_lt}
use syslog_dtls_agent.Ip.Laws.{ip_eq→eq, ip_eq_self, ip_lt_trans, ip_lt_irrefl, ip_lt_total}
use syslog_dtls_agent.Sources.{
  Source, Sources, source_limit, lookup, insert, is_some, received, dropped, forwarded, no_sources,
  count_received, count_dropped, count_forwarded, or_new, new_source,
}

abbrev Table : Type 0
Table = List (IpAddr × Source)

-- The keys increase strictly, from above `ip`.
abbrev pub IsAbove : IpAddr → Table → Type 0
IsAbove ip [] = Unit {0}
IsAbove ip ((k, v) ∷ m) = (ip_lt ip k ≡ true) × IsAbove k m

abbrev pub IsSorted : Table → Type 0
IsSorted [] = Unit {0}
IsSorted ((k, v) ∷ m) = IsAbove k m

ip_eq-false_of_lt : (a b : IpAddr) → ip_lt a b ≡ true → ip_eq a b ≡ false
ip_eq-false_of_lt a b h = elim (Bool-cases (ip_eq a b)) [
  | inl e ↦ absurd (ground (arith, ip_eq→eq a b e, ip_lt_irrefl b))
  | inr e ↦ e
]

pub lookup-insert :
    (ip j : IpAddr) (s : Source) (m : Table)
    → lookup j (insert ip s m) ≡ (if ip_eq j ip then some s else lookup j m)
unfolding lookup insert
lookup-insert ip j s [] = refl
lookup-insert ip j s ((k, v) ∷ m) =
    ground (arith, ip_eq→eq ip k, ip_eq→eq j k, ip_eq→eq j ip, ip_eq_self j, lookup-insert ip j s m)

insert-IsAbove :
    (low ip : IpAddr) (s : Source) (m : Table)
    → ip_lt low ip ≡ true
    → IsAbove low m
    → IsAbove low (insert ip s m)
unfolding insert
insert-IsAbove low ip s [] h a = (h, tt)
insert-IsAbove low ip s ((k, v) ∷ m) h a =
    ground (arith, ip_eq→eq ip k, ip_lt_total ip k, insert-IsAbove k ip s m)

pub insert-IsSorted : (ip : IpAddr) (s : Source) (m : Table) → IsSorted m → IsSorted (insert ip s m)
unfolding insert
insert-IsSorted ip s [] a = tt
insert-IsSorted ip s ((k, v) ∷ m) a =
    ground (arith, ip_eq→eq ip k, ip_lt_total ip k, insert-IsAbove k ip s m)

lookup_above :
    (ip low : IpAddr) (m : Table) → ip_lt ip low ≡ true → IsAbove low m → lookup ip m ≡ none
unfolding lookup
lookup_above ip low [] h a = refl
lookup_above ip low ((k, v) ∷ m) h a = ground (
  arith,
  ip_lt_trans ip low k,
  ip_eq-false_of_lt ip k (ip_lt_trans ip low k h a.0),
  lookup_above ip k m (ip_lt_trans ip low k h a.0) a.1,
)

IsSorted-tail : (k : IpAddr) (m : Table) → IsAbove k m → IsSorted m
IsSorted-tail k [] a = tt
IsSorted-tail k ((j, w) ∷ m) a = a.1

-- A write adds a row exactly when the key is new.
pub length-insert :
    (ip : IpAddr) (s : Source) (m : Table)
    → IsSorted m
    → length (insert ip s m) ≡ (if is_some (lookup ip m) then length m else suc (length m))
unfolding lookup insert
length-insert ip s [] a = refl
length-insert ip s ((k, v) ∷ m) a =
    ground (arith, lookup_above ip k m, length-insert ip s m (IsSorted-tail k m a))

-- What holds of the table between two operations.
pub record IsValid (s : Sources) : Type 0 where
  pub sorted : IsSorted s.entries
  pub bounded : length s.entries ≤ source_limit

pub no_sources-IsValid : IsValid no_sources
no_sources-IsValid = record { sorted = tt; bounded = omega arith }

-- `received` keeps the rows sorted by address and at most 256 of them.
pub received-IsValid :
    (s : Sources) (ip : IpAddr) (allowed : Bool) (wall_ms : ℕ)
    → IsValid s
    → IsValid (received s ip allowed wall_ms)
unfolding received
received-IsValid s ip allowed wall_ms v = record {
  sorted = ground (
    arith,
    insert-IsSorted ip
        (count_received wall_ms (or_new (lookup ip s.entries) (new_source ip allowed wall_ms)))
        s.entries v.sorted,
  );
  bounded = ground (
    arith,
    length-insert ip
        (count_received wall_ms (or_new (lookup ip s.entries) (new_source ip allowed wall_ms)))
        s.entries v.sorted,
  );
}

module _ (s : Sources) (ip : IpAddr) (v : IsValid s) where
  write_existing-IsValid :
      {old : Source} (new : Source)
      → lookup ip s.entries ≡ some old
      → IsValid (record s { entries = insert ip new s.entries })
  write_existing-IsValid new e = record {
    sorted = insert-IsSorted ip new s.entries v.sorted;
    bounded = ground (arith, length-insert ip new s.entries v.sorted);
  }

  pub dropped-IsValid : IsValid (dropped s ip)
  unfolding dropped
  dropped-IsValid = elim (Option-cases (lookup ip s.entries)) [
    | inl e ↦ rw (e, dropped) v
    | inr (old, e) ↦ rw (e, dropped) (write_existing-IsValid (count_dropped old) e)
  ]

  pub forwarded-IsValid : (second : ℕ) → IsValid (forwarded s ip second)
  unfolding forwarded
  forwarded-IsValid second = elim (Option-cases (lookup ip s.entries)) [
    | inl e ↦ rw (e, forwarded) v
    | inr (old, e) ↦ rw (e, forwarded) (write_existing-IsValid (count_forwarded second old) e)
  ]
