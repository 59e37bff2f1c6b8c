-- ===== src/Config/Tests.antt =====
-- The checks of crates/core/src/config.rs on concrete configurations.
use syslog_dtls_agent.Prelude.{◌≡◌, ◌↔◌, refl, Option, none, some, [], All, Text, text, codes, ok}
use syslog_dtls_agent.Framing.Text.{ends_with_byte}
use syslog_dtls_agent.Ip.{IpAddr}
use syslog_dtls_agent.Oidc.Settings.{Url, validate, default_oidc, trim_end_matches}
use syslog_dtls_agent.Config.Schema.{
  Config, default_config, default_http, default_source_access, default_listener, default_queue,
  default_dtls,
}
use syslog_dtls_agent.Config.Names.{
  split, bad_label, normalize_dns_name, normalize_name, server_name,
}
use syslog_dtls_agent.Config.Checks.{
  resolve, resolve_paths, paths_of, queue_out_of_range, dtls_out_of_range, validate_config, parse,
}
use syslog_dtls_agent.Config.Valid.{
  IsValid, IsAbsolute, validate_config-eq-ok, parse-IsValid, resolve_paths-resolve_paths,
}
use syslog_dtls_agent.Config.HostNames.{IsHostName, normalize_dns_name-IsHostName}
use syslog_dtls_agent.Relay.Accounts.{IsLimited}
use syslog_dtls_agent.Relay.Turns.{IsPaced}

abbrev no_url : Text → Option Url
no_url s = none

abbrev no_ip : Text → Option IpAddr
no_ip s = none

abbrev shown : IpAddr → Text
shown ip = []

-- `idna` leaves names of ASCII letters as they are.
abbrev same_name : Text → Option Text
same_name s = some s

abbrev decoded : Text → Option Config
decoded source = some default_config

abbrev base : Text
base = codes "/etc"

validate_config-eq-ok_example :
    (validate_config no_url no_ip shown same_name default_config ≡ ok tt)
    ↔ IsValid no_url no_ip shown same_name default_config
validate_config-eq-ok_example = validate_config-eq-ok no_url no_ip shown same_name default_config

parsed :
    parse no_url no_ip shown same_name decoded (codes "x") base
    ≡ ok (resolve_paths base default_config)
unfolding parse resolve_paths resolve validate_config validate default_config default_oidc
    default_http default_source_access default_listener default_queue default_dtls normalize_name
    normalize_dns_name server_name trim_end_matches split bad_label ends_with_byte
    queue_out_of_range dtls_out_of_range text
parsed = refl

parse-IsValid_example :
    ((d : Config) × (decoded (codes "x") ≡ some d)
      × (resolve_paths base default_config ≡ resolve_paths base d))
    × IsValid no_url no_ip shown same_name (resolve_paths base default_config)
    × IsLimited (resolve_paths base default_config)
    × IsPaced (resolve_paths base default_config)
parse-IsValid_example =
    parse-IsValid no_url no_ip shown same_name decoded (codes "x") base
      (resolve_paths base default_config) parsed

resolve_paths-resolve_paths_example :
    All IsAbsolute (
      paths_of
        (resolve_paths base default_config).identity
        (resolve_paths base default_config).trust)
    × (resolve_paths (codes "/tmp") (resolve_paths base default_config)
        ≡ resolve_paths base default_config)
resolve_paths-resolve_paths_example =
    resolve_paths-resolve_paths default_config base (codes "/tmp") refl

lowered : normalize_dns_name same_name (codes "Log.Example.COM.") ≡ ok (codes "log.example.com")
unfolding normalize_dns_name trim_end_matches split bad_label ends_with_byte
lowered = refl

normalize_dns_name-IsHostName_example : IsHostName (codes "log.example.com")
normalize_dns_name-IsHostName_example =
    normalize_dns_name-IsHostName same_name (codes "Log.Example.COM.") (codes "log.example.com")
      lowered
