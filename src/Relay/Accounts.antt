-- ===== src/Relay/Accounts.antt =====
-- The bookkeeping of crates/core/src/relay.rs: what holds of the shared state whenever the lock is free.
use syslog_dtls_agent.Prelude.{
  ℕ, zero, suc, ap, ◌+◌, ◌%◌, ◌^◌, ◌≤◌, ◌≡◌, Bool, false, List, [], ◌∷◌, ◌++◌, length, take,
  length-append, Bytes, arith,
}
use syslog_dtls_agent.Ip.{IpAddr, canonical_ip}
use syslog_dtls_agent.Status.{Drops, default_status}
use syslog_dtls_agent.Config.Schema.{Config}
use syslog_dtls_agent.Relay.State.{State, Message, count_drop, finish_front}
use syslog_dtls_agent.Relay.Listener.{
  buffer_size, count_arrival, enqueue, admit, on_datagram, queue_full, bump_denied, bump_shutdown,
  bump_oversized, bump_invalid, bump_queue_full,
}
use syslog_dtls_agent.Relay.Control.{drain, initial_state}

unfoldable pub total : List Message → ℕ
total [] = 0
total (m ∷ queue) = length m.payload + total queue

pub total-append : (xs ys : List Message) → total (xs ++ ys) ≡ total xs + total ys
unfolding total
total-append [] ys = omega arith
total-append (m ∷ xs) ys = omega (arith, total-append xs ys)

-- The limits that `Config::validate` puts on the sizes.
pub record IsLimited (cfg : Config) : Type 0 where
  pub message_limit : cfg.listener.max_message_bytes ≤ 16_378
  pub queue_limit : cfg.queue.max_bytes ≤ 1_073_741_824

-- Every datagram counted is forwarded, dropped or queued; every drop has one reason; the queue figures
-- are those of the queue, and within the configured limits. Counters are modulo 2 ^ 64.
pub record IsAccounted (cfg : Config) (s : State) : Type 0 where
  pub conserved :
      s.status.messages_received % 2 ^ 64
      ≡ (s.status.messages_forwarded + s.status.messages_dropped + length s.queue) % 2 ^ 64
  pub reasons :
      s.status.messages_dropped % 2 ^ 64
      ≡ (s.status.drops.invalid + s.status.drops.oversized + s.status.drops.queue_full
          + s.status.drops.shutdown + s.status.drops.source_denied)
        % 2 ^ 64
  pub depth_exact : s.status.queue_depth ≡ length s.queue
  pub bytes_exact : s.status.queue_bytes ≡ total s.queue
  pub depth_limited : length s.queue ≤ cfg.queue.max_messages
  pub bytes_limited : total s.queue ≤ cfg.queue.max_bytes

abbrev reasons_of : Drops → ℕ
reasons_of d = d.invalid + d.oversized + d.queue_full + d.shutdown + d.source_denied

-- The same while a datagram is counted and not yet placed.
record IsArriving (cfg : Config) (s : State) : Type 0 where
  conserved :
      s.status.messages_received % 2 ^ 64
      ≡ (s.status.messages_forwarded + s.status.messages_dropped + length s.queue + 1) % 2 ^ 64
  reasons : s.status.messages_dropped % 2 ^ 64 ≡ reasons_of s.status.drops % 2 ^ 64
  depth_exact : s.status.queue_depth ≡ length s.queue
  bytes_exact : s.status.queue_bytes ≡ total s.queue
  depth_limited : length s.queue ≤ cfg.queue.max_messages
  bytes_limited : total s.queue ≤ cfg.queue.max_bytes

count_arrival-IsArriving :
    (cfg : Config) (ip : IpAddr) (allowed : Bool) (wall_ms : ℕ) (s : State)
    → IsAccounted cfg s
    → IsArriving cfg (count_arrival ip allowed wall_ms s)
unfolding count_arrival
count_arrival-IsArriving cfg ip allowed wall_ms s a = omega (arith, a)

count_drop-IsAccounted :
    (cfg : Config) (bump : Drops → Drops) (ip : IpAddr) (s : State)
    → reasons_of (bump s.status.drops) % 2 ^ 64 ≡ (reasons_of s.status.drops + 1) % 2 ^ 64
    → IsArriving cfg s
    → IsAccounted cfg (count_drop bump ip s)
unfolding count_drop
count_drop-IsAccounted cfg bump ip s h a = omega (arith, a, h)

enqueue-IsAccounted :
    (cfg : Config) (ip : IpAddr) (payload : Bytes) (s : State)
    → IsLimited cfg
    → length payload ≤ buffer_size
    → queue_full cfg (length payload) s ≡ false
    → IsArriving cfg s
    → IsAccounted cfg (enqueue ip payload s)
unfolding enqueue total
enqueue-IsAccounted cfg ip payload s l small room a =
    let m : Message = record { payload = payload; source = ip } in
    ground (arith, a, length-append s.queue (m ∷ []), total-append s.queue (m ∷ []))

length-take-le : (n : ℕ) (xs : Bytes) → length (take n xs) ≤ n
length-take-le zero xs = omega arith
length-take-le (suc n) [] = omega arith
length-take-le (suc n) (x ∷ xs) = omega (arith, length-take-le n xs)

module _ (rfc3339 : Bytes → Bool) (cfg : Config) (limited : IsLimited cfg) where
  admit-IsAccounted :
      (ip : IpAddr) (allowed : Bool) (payload : Bytes) (s : State)
      → length payload ≤ buffer_size
      → IsArriving cfg s
      → IsAccounted cfg (admit rfc3339 cfg ip allowed payload s)
  unfolding admit
  admit-IsAccounted ip allowed payload s small a = ground (
    arith,
    count_drop-IsAccounted cfg bump_denied ip s (omega arith) a,
    count_drop-IsAccounted cfg bump_shutdown ip s (omega arith) a,
    count_drop-IsAccounted cfg bump_oversized ip s (omega arith) a,
    count_drop-IsAccounted cfg bump_invalid ip s (omega arith) a,
    count_drop-IsAccounted cfg bump_queue_full ip s (omega arith) a,
    enqueue-IsAccounted cfg ip payload s limited small,
  )

  -- Each branch of the listener keeps the books.
  pub on_datagram-IsAccounted :
      (peer : IpAddr) (bytes : Bytes) (wall_ms : ℕ) (s : State)
      → IsAccounted cfg s
      → IsAccounted cfg (on_datagram rfc3339 cfg peer bytes wall_ms s)
  unfolding on_datagram
  on_datagram-IsAccounted peer bytes wall_ms s a =
      admit-IsAccounted (canonical_ip peer) _ (take buffer_size bytes) _
        (length-take-le buffer_size bytes)
        (count_arrival-IsArriving cfg (canonical_ip peer) _ wall_ms s a)

-- `finish_front` on a queue that is not empty keeps the books.
pub finish_front-IsAccounted :
    (cfg : Config) (s : State) (m : Message) (rest : List Message) (was_sent : Bool)
    (now wall_ms : ℕ)
    → IsLimited cfg
    → s.queue ≡ m ∷ rest
    → IsAccounted cfg s
    → IsAccounted cfg (finish_front s was_sent now wall_ms)
unfolding finish_front total
finish_front-IsAccounted cfg s m rest was_sent now wall_ms l e a =
    rw e (ground (arith, a, ap total e))

-- The drain at the end keeps the books.
pub drain-IsAccounted : (cfg : Config) (s : State) → IsAccounted cfg s → IsAccounted cfg (drain s)
unfolding drain total
drain-IsAccounted cfg s a = omega (arith, a)

pub initial_state-IsAccounted :
    (cfg : Config) (address destination fingerprint : Bytes) (now : ℕ)
    → IsAccounted cfg (initial_state address destination fingerprint now)
unfolding initial_state default_status total
initial_state-IsAccounted cfg address destination fingerprint now = omega arith
