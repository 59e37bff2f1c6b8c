-- ===== src/Relay/Sender.antt =====
-- `send`, `resolve` and `pause` of crates/core/src/relay.rs as a machine: one place for each stretch of
-- the loop between two uses of the lock, and one function for each stretch. What the surroundings
-- answer (clocks, DNS, the connector, the session) is read from an `Observed`.
use Prim.Native.Nat.{bit_xor}
use syslog_dtls_agent.Prelude.{
  ℕ, ◌+◌, ◌-◌, ◌*◌, ◌/◌, ◌%◌, ◌^◌, min, Bool, true, false, not, ◌&&◌, ◌||◌, Option, none, some,
  List, [], ◌∷◌, if◌then◌else◌, ltb, leb, ◌==◌, length, get_elem?, is_empty, Bytes, Text, text,
  add64, mul64, Result, ok, err,
}
use syslog_dtls_agent.Config.Schema.{Config}
use syslog_dtls_agent.Framing.Frame.{frame}
use syslog_dtls_agent.Relay.State.{State, Message, millis, expired, finish_front}
use syslog_dtls_agent.Relay.Control.{drain}

-- `PeerInfo` of crates/core/src/transport.rs.
pub record PeerInfo : Type 0 where
  pub fingerprint : Text
  pub cipher : Text
  pub protocol : Text

-- What the sender asks of a live session without changing it.
pub record Session : Type 0 where
  pub max_plaintext : ℕ
  pub peer_info : PeerInfo

-- `WriteOutcome` of crates/core/src/transport.rs.
pub data WriteOutcome : Type 0 where
  sent would_block : WriteOutcome

-- What `recv_timeout` on the lookup's channel returns.
pub data Recv : Type 0 where
  answered : Result (List Text) → Recv
  timed_out disconnected : Recv

-- The answers of the surroundings during one stretch; one that the stretch does not ask for is not
-- read. Instants are nanoseconds, `wall_ms` the wall clock.
pub record Observed : Type 0 where
  pub now : ℕ
  pub wall_ms : ℕ
  pub spawn : Result (Unit {0})
  pub recv : Recv
  pub connect : Result Session
  pub poll : Result (Unit {0})
  pub write : Result WriteOutcome

pub data Place : Type 0 where
  -- the head of the loop
  top : Place
  -- no session: mark the state, start a lookup if none is pending
  resolving : Place
  -- the loop of `resolve`, until the instant
  looking_up : ℕ → Place
  -- the addresses found: choose one
  resolved : List Text → Place
  connecting : Text → Place
  -- the arm `Err(error)`: first the check for an expired stop, then the update
  connect_failed retrying : Text → Place
  polling fetching writing : Place
  failing : Text → Place
  settling : Place
  -- `pause`, until the instant
  pausing : ℕ → Place
  -- after the loop
  closing stopped : Place
  -- an `unwrap` of `None`, or an index out of range
  crashed : Place

-- The variables of `send`. `dns` says that a lookup is pending.
pub record Sender : Type 0 where
  pub place : Place
  pub session : Option Session
  pub pending_frame : Option Bytes
  pub write_started : ℕ
  pub dns : Bool
  pub attempts : ℕ
  pub delay : ℕ
  pub next_send : ℕ
  pub jitter : ℕ

abbrev pub World : Type 0
World = Sender × State

-- The break at the head of the loop.
unfoldable pub stop_due : State → ℕ → Bool
stop_due s now = elim s.stop_at [ none ↦ false | some at ↦ leb at now || is_empty s.queue ]

-- `jitter ^= jitter << 13; jitter ^= jitter >> 7; jitter ^= jitter << 17`.
unfoldable pub next_jitter : ℕ → ℕ
next_jitter j =
    let a = bit_xor j (j * 2 ^ 13 % 2 ^ 64) in
    let b = bit_xor a (a / 2 ^ 7) in bit_xor b (b * 2 ^ 17 % 2 ^ 64)

-- The pause after a failed connection, in milliseconds, and the delay after it.
unfoldable pub jittered : ℕ → ℕ → ℕ → ℕ
jittered delay jitter retry_max =
    min (add64 (mul64 delay 3 / 4) (jitter % (delay / 2 + 1))) retry_max

unfoldable pub next_delay : ℕ → ℕ → ℕ
next_delay delay retry_max = min (mul64 delay 2) retry_max

unfoldable pub at_top : Observed → Sender → State → World
unfolding stop_due
at_top o n s = if stop_due s o.now then (record n { place = closing }, s) else elim n.session [
  | none ↦ (record n { place = resolving }, s)
  | some session ↦ (record n { place = polling }, s)
]

abbrev pub mark_resolving : State → State
mark_resolving s = record s {
  status = record s.status { dtls_status = text "resolving"; in_flight = false };
}

abbrev pub mark_handshaking : Text → State → State
mark_handshaking remote s = record s {
  status = record s.status { dtls_status = text "handshaking"; remote_address = some remote };
}

abbrev pub mark_established : PeerInfo → ℕ → State → State
mark_established info wall_ms s = record s {
  status = record s.status {
    dtls_status = text "established";
    last_handshake_ms = some wall_ms;
    last_error = none;
    peer_fingerprint = some info.fingerprint;
    cipher = some info.cipher;
    protocol = some info.protocol;
  };
}

abbrev pub mark_retrying : Text → State → State
mark_retrying error s = record s {
  status = record s.status {
    dtls_status = text "retrying";
    last_error = some error;
    retry_attempts = add64 s.status.retry_attempts 1;
  };
}

abbrev pub mark_failed : Text → State → State
mark_failed error s = record s {
  status = record s.status {
    dtls_status = text "retrying";
    in_flight = false;
    last_error = some error;
    retry_attempts = add64 s.status.retry_attempts 1;
  };
}

-- The start of `resolve`: `host` is what `normalize_name` makes of the configured name.
unfoldable pub start_lookup : Config → Result Text → Observed → Sender → Sender
start_lookup cfg host o n =
    let until = o.now + millis cfg.dtls.handshake_timeout_ms in
    if n.dns then record n { place = looking_up until } else elim host [
      | err e ↦ record n { place = connect_failed e }
      | ok name ↦ elim o.spawn [
        | err e ↦ record n { place = connect_failed e }
        | ok started ↦ record n { place = looking_up until; dns = true }
      ]
    ]

-- `result.and_then(…)`.
abbrev lookup_place : Result (List Text) → Place
lookup_place (err e) = connect_failed e
lookup_place (ok []) = connect_failed (text "DNS returned no addresses")
lookup_place (ok (a ∷ rest)) = resolved (a ∷ rest)

-- One round of the loop of `resolve`.
unfoldable pub await_lookup : ℕ → Observed → Sender → State → Sender
await_lookup until o n s =
    if expired s o.now then record n { place = connect_failed (text "Stopping") } else elim o.recv [
      | answered result ↦ record n { place = lookup_place result; dns = false }
      | timed_out ↦
          if leb until o.now
          then record n { place = connect_failed (text "DNS lookup timed out") }
          else n
      | disconnected ↦ record n { place = connect_failed (text "DNS worker stopped"); dns = false }
    ]

-- `addresses[attempts % addresses.len()]`.
unfoldable pub choose : List Text → Sender → State → World
choose addresses n s = elim (get_elem? addresses (n.attempts % length addresses)) [
  | none ↦ (record n { place = crashed }, s)
  | some remote ↦ (
    record n { place = connecting remote; attempts = add64 n.attempts 1 },
    mark_handshaking remote s,
  )
]

unfoldable pub on_connect : Observed → Sender → State → World
on_connect o n s = elim o.connect [
  | err e ↦ (record n { place = connect_failed e }, s)
  | ok session ↦ (
    record n { place = polling; session = some session; pending_frame = none },
    mark_established session.peer_info o.wall_ms s,
  )
]

unfoldable pub on_connect_failed : Text → Observed → Sender → State → Sender
on_connect_failed e o n s =
    if expired s o.now then record n { place = closing } else record n { place = retrying e }

unfoldable pub retry : Config → Text → Observed → Sender → State → World
unfolding next_jitter
retry cfg e o n s =
    let jitter = next_jitter n.jitter in
    (
      record n {
        jitter = jitter;
        place = pausing (o.now + millis (jittered n.delay jitter cfg.dtls.retry_max_ms));
        delay = next_delay n.delay cfg.dtls.retry_max_ms;
      },
      mark_retrying e s,
    )

-- `transport.poll()` and the pacing test, unless a frame is pending.
unfoldable pub poll_session : Observed → Sender → Sender
poll_session o n = elim n.pending_frame [
  | some f ↦ record n { place = writing }
  | none ↦ elim o.poll [
    | err e ↦ record n { place = failing e }
    | ok done ↦ record n { place = if leb n.next_send o.now then fetching else writing }
  ]
]

-- `s.queue.front()`: a frame that the session cannot carry drops the message.
unfoldable pub fetch_front : List Message → Session → Observed → Sender → State → World
fetch_front [] session o n s = (record n { place = writing }, s)
fetch_front (m ∷ rest) session o n s =
    if ltb session.max_plaintext (length (frame m.payload))
    then (record n { place = top }, finish_front s false o.now o.wall_ms)
    else (
      record n { place = writing; pending_frame = some (frame m.payload); write_started = o.now },
      record s { status = record s.status { in_flight = true } },
    )

unfoldable pub fetch : Observed → Sender → State → World
unfolding fetch_front
fetch o n s = elim n.session [
  | none ↦ (record n { place = crashed }, s)
  | some session ↦ fetch_front s.queue session o n s
]

-- `interval` is `Duration::from_secs_f64(1.0 / messages_per_second)` in nanoseconds.
unfoldable pub write_pending : Config → (ℕ → ℕ) → Observed → Sender → State → World
write_pending cfg interval o n s = elim n.pending_frame [
  | none ↦ (record n { place = settling }, s)
  | some f ↦ elim o.write [
    | err e ↦ (record n { place = failing e }, s)
    | ok outcome ↦ elim outcome [
      | sent ↦ (
        record n {
          place = settling;
          pending_frame = none;
          delay = cfg.dtls.retry_initial_ms;
          next_send = o.now + interval cfg.dtls.messages_per_second;
        },
        finish_front s true o.now o.wall_ms,
      )
      | would_block ↦ (
        record n {
          place =
              if ltb (millis cfg.dtls.handshake_timeout_ms) (o.now - n.write_started)
              then failing
                  (text "DTLS write timed out; queued message retained (delivery may be ambiguous)")
              else settling;
        },
        s,
      )
    ]
  ]
]

-- `transport.close()`, the update, and the pause of the plain delay.
unfoldable pub fail : Config → Text → Observed → Sender → State → World
fail cfg e o n s = (
  record n {
    place = pausing (o.now + millis n.delay);
    session = none;
    pending_frame = none;
    delay = next_delay n.delay cfg.dtls.retry_max_ms;
  },
  mark_failed e s,
)

abbrev has_frame : Option Bytes → Bool
has_frame none = false
has_frame (some f) = true

-- The pause at the end of a round.
unfoldable pub settle : Observed → Sender → State → Sender
settle o n s = record n {
  place = pausing (
      o.now
      + (if has_frame n.pending_frame || is_empty s.queue
          then millis 10
          else min (n.next_send - o.now) (millis 10)));
}

-- One round of `pause`.
unfoldable pub wait : ℕ → Observed → Sender → State → Sender
wait until o n s = if ltb o.now until && not (expired s o.now) then n else record n { place = top }

-- The variables at the start of `send`.
unfoldable pub new_sender : Config → ℕ → ℕ → Sender
new_sender cfg now wall_ms = record {
  place = top;
  session = none;
  pending_frame = none;
  write_started = now;
  dns = false;
  attempts = 0;
  delay = cfg.dtls.retry_initial_ms;
  next_send = now;
  jitter = if wall_ms % 2 == 0 then wall_ms + 1 else wall_ms;
}

module _ (cfg : Config) (host : Result Text) (interval : ℕ → ℕ) where
  -- At `closing` the session is closed, and the variables end with the function.
  abbrev pub step_at : Place → Observed → Sender → State → World
  step_at top o n s = at_top o n s
  step_at resolving o n s = (start_lookup cfg host o n, mark_resolving s)
  step_at (looking_up until) o n s = (await_lookup until o n s, s)
  step_at (resolved addresses) o n s = choose addresses n s
  step_at (connecting remote) o n s = on_connect o n s
  step_at (connect_failed e) o n s = (on_connect_failed e o n s, s)
  step_at (retrying e) o n s = retry cfg e o n s
  step_at polling o n s = (poll_session o n, s)
  step_at fetching o n s = fetch o n s
  step_at writing o n s = write_pending cfg interval o n s
  step_at (failing e) o n s = fail cfg e o n s
  step_at settling o n s = (settle o n s, s)
  step_at (pausing until) o n s = (wait until o n s, s)
  step_at closing o n s =
      (record n { place = stopped; session = none; pending_frame = none }, drain s)
  step_at stopped o n s = (n, s)
  step_at crashed o n s = (n, s)

  -- One stretch of the sender's thread.
  unfoldable pub sender_step : Observed → Sender → State → World
  sender_step o n s = step_at n.place o n s
