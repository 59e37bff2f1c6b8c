-- ===== src/Lib.antt =====
-- syslog-dtls-agent receives RFC 5424 syslog messages over UDP, checks them, queues them, and forwards
-- them, one RFC 6012 frame per message, over a DTLS session to one collector. This library models the
-- agent's core, and proves what it promises.
--
-- Parts, and the files that model them (paths from the repository's root):
-- - crates/core/src/framing.rs: `Framing`. `Text` has what the code takes from the standard library
--   (UTF-8, `str::get`, parsing of numbers), `Frame` is `frame`, `Header`, `Data` and `Message` are
--   `valid_message` with `sd_name` and `valid_tail`. `Grammar` states the language of RFC 5424 with no
--   scanning; `Scan`, `Elements`, `Body`, `Priority`, `Timestamp`, `Language` and `Accepts` compare
--   the two, and `RoundTrip` has a reader of frames.
-- - crates/core/src/config.rs: `Ip` is `canonical_ip`; `Config.Schema` the records and defaults,
--   `Config.Names` `normalize_name` and `server_name`, `Config.Checks` `resolve_paths`, `validate` and
--   `parse`, `Config.Files` `load`, `to_toml` and `save`; `Config.Valid` and `Config.HostNames` what they let through.
-- - crates/core/src/oidc.rs: `Oidc.Settings` and `Oidc.Valid`.
-- - crates/core/src/status.rs: `Status`. crates/core/src/sources.rs: `Sources`, one function per method;
--   `Table` the sorted table, `Windows` the rings of counters, `History` the specification of a row by
--   the calls made, `Bounded` the limit of rows.
-- - crates/core/src/relay.rs and transport.rs: `Relay`. `State` is the state behind the lock,
--   `Listener` the thread of `listen`, `Sender` the thread of `send` with `resolve` and `pause`,
--   `Control` `start` and `stop`, `World` all of them taking turns. `Accounts`, `Turns`, `Effects`,
--   `Order` and `Reach` carry the invariant; `Guarantees`, `Shutdown`, `Pause` and `Backoff` state
--   the results.
--   `Calls` has the calls that the sender makes on its sessions and the order that OpenSSL allows,
--   `Contract` that they agree; `Progress` and `Liveness` the delivery over a working connection.
-- - crates/dtls-openssl/src/lib.rs: `Dtls`. `Session` is `OpenSslSession` with `send`, `poll`, `close` and
--   its drop, `Connect` is `connect` with its handshake loop, `Credentials` is `OpenSslConnector::new`
--   and `fingerprint`; `Outcomes`, `Lifetime`, `Handshake`, `Configured` and `Fingerprint` state what
--   they promise.
-- - crates/cli/src/auth.rs: `Auth`. `State` has the records and cookies, `Store` the hash maps, `Handlers`
--   `login`, `callback`, `end_session` and the logout, `Gate` the gate that every web request passes,
--   `Groups` the group check, `Escape` the escaping of attributes, `Strings` what it takes from `str`;
--   `Begin` is `begin_login` with `provider_request`, `Finish` is `finish_login`, `Json` the redaction of
--   `diagnostic_claims`, `Order` the order of the authorization parameters. `Guard`, `Access`, `Once`,
--   `Pieces`, `Membership`, `Parameters`, `Admission`, `Earned`, `Endpoints`, `Unwraps` and `Redaction`
--   state what they keep.
-- - crates/cli/src/web.rs: `Web`. `Agent` is `Agent` with its commands, over the interface `RelayApi` that
--   `Snapshots` fills from the relay, `Hosts` is `bind` and `valid_host`, `Handle` is `handle` with
--   `respond_with`; `Commands` and `Authorized` state what they keep.
-- - crates/desktop/src/main.rs: `Desktop`, which is `AppState` and its commands; `Calls` states what any
--   sequence of them leaves.
-- The modules named `Tests` run the model on concrete inputs.
--
-- How they interact: the listener validates with `Framing`, counts in `Sources` and appends to the
-- queue; the sender frames the front of the queue, hands it to a session, and settles it. Both hold the
-- lock for one function of the model at a time, so a run of the program is a list of `Action`s, in any
-- order. What a thread sees from outside (clock, socket, DNS, connector, session) is an argument:
-- the theorems about `run` quantify over whatever is observed. `Config.Valid` connects a parsed
-- configuration with the limits that the relay's theorems take as hypotheses. A sender's session is the
-- one of `Dtls`: the contract of `Relay.Calls` uses the very test by which `send` refuses a frame. A web
-- request passes `Web.Handle`, then `Auth.Gate`, then a command of `Web.Agent`, which starts and stops
-- the relay and makes its connector with `Dtls.Credentials`.
--
-- Numbers are naturals; counters of 64 bits wrap (`add64`), and instants are nanoseconds. Texts and
-- paths are byte strings, paths those of Unix. The loops over structured data take as fuel the length of
-- the text and one more, which is enough since each round consumes a byte; all other loops are
-- structural, or take one turn per action. The handshake of `connect` takes fuel for its rounds; a theorem
-- gives the number that is enough, from the configured timeout and the pause of each round.
--
-- Parameters, for code outside the repository: `rfc3339` (the crate time), `parse_url` (url),
-- `to_ascii` (idna), `decode` (toml), `json` (serde_json), `parse_ip` and `show_ip` (the text forms of
-- addresses), and `Client`, the type of the OIDC library's client. What the identity provider answers
-- is observed: in `begin_login` as a whole, in `finish_login` call by call (`Provider`). OpenSSL is an
-- `Environment` of calls for a connection and an `Answer` for each operation, the credentials' files a
-- `Library`, the configuration's file a `Store`. The theorems quantify over all of them.
--
-- Not modelled: the set-up of the login (`Auth::new`), which makes the HTTP client, the debug output of the
-- login, `peer_info`, which copies texts from OpenSSL, the command line and its loop in
-- crates/cli/src/main.rs, and of the desktop program the dialogs and the window.
pub mod Prelude
pub mod Framing
pub mod Ip
pub mod Sources
pub mod Status
pub mod Oidc
pub mod Dtls
pub mod Config
pub mod Relay
pub mod Auth
pub mod Web
pub mod Desktop
