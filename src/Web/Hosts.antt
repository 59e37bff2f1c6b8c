-- ===== src/Web/Hosts.antt =====
-- `bind` and `valid_host` of crates/cli/src/web.rs. `parse_addr` and `serve` are the parser of the
-- standard library and the HTTP server.
use syslog_dtls_agent.Prelude.{
  Bool, true, false, ◌&&◌, ◌||◌, ◌==◌, Option, none, some, ◌++◌, if◌then◌else◌, Text, text, codes,
  bytes_eq, Result, ok, err,
}
use syslog_dtls_agent.Framing.Frame.{decimal}
use syslog_dtls_agent.Ip.{SocketAddr, IpAddr, v4, v6, ip_eq, is_loopback, is_unspecified}

abbrev served : {Server : Type 0} → Result Server → Result Server
served (ok server) = ok server
served (err e) = err (text "Cannot bind HTTP UI: " ++ e)

unfoldable pub bind : {Server : Type 0} → (SocketAddr → Result Server) → SocketAddr → Result Server
bind serve address =
    if address.port == 0
    then err (text "HTTP port must be between 1 and 65535")
    else served (serve address)

-- `a == b` of two families.
abbrev pub same_family : IpAddr → IpAddr → Bool
same_family (v4 a) (v4 b) = true
same_family (v6 a) (v6 b) = true
same_family (v4 a) (v6 b) = false
same_family (v6 a) (v4 b) = false

-- The last test, on the parsed host.
abbrev pub matches_address : SocketAddr → SocketAddr → Bool
matches_address host address =
    host.port == address.port
    && (ip_eq host.ip address.ip || (is_unspecified address.ip && same_family host.ip address.ip))

abbrev pub parsed_matches : Option SocketAddr → SocketAddr → Bool
parsed_matches none address = false
parsed_matches (some host) address = matches_address host address

unfoldable pub valid_host : (Text → Option SocketAddr) → Text → SocketAddr → Bool
valid_host parse_addr host address =
    if is_loopback address.ip && bytes_eq host (codes "localhost:" ++ decimal address.port)
    then true
    else parsed_matches (parse_addr host) address
