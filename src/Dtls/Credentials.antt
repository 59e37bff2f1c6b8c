-- ===== src/Dtls/Credentials.antt =====
-- `OpenSslConnector::new` of crates/dtls-openssl/src/lib.rs. The settings of the `SslContextBuilder`
-- are kept in a `Context`; what the files hold and what OpenSSL makes of them is a `Library`.
use syslog_dtls_agent.Prelude.{
  ℕ, ◌≡◌, ◌+◌, ◌-◌, ◌/◌, ◌%◌, ltb, if◌then◌else◌, Bool, true, Option, none, some, List, [], ◌∷◌,
  ◌++◌, map, Bytes, Text, text, Result, ok, err, ◌>>=◌, ◌>>◌, ok_or, refuse_if, not,
}
use syslog_dtls_agent.Ip.{IpAddr}
use syslog_dtls_agent.Oidc.Settings.{Url}
use syslog_dtls_agent.Config.Schema.{Config, Identity, Trust, pem, pem_ca}
use syslog_dtls_agent.Config.Checks.{validate_config}

-- The one version that the code names.
pub data SslVersion : Type 0 where
  dtls1_2 : SslVersion

pub data SslOption : Type 0 where
  no_renegotiation no_compression no_query_mtu : SslOption

pub record Context (Cert Key : Type 0) : Type 0 where
  pub min_version : Option SslVersion
  pub max_version : Option SslVersion
  pub verify_peer : Bool
  pub verify_depth : ℕ
  pub options : List SslOption
  pub cipher_list : Text
  pub certificate : Option Cert
  pub extra_chain : List Cert
  pub private_key : Option Key
  -- the files of `set_ca_file`, each of which adds trust anchors
  pub ca_files : List Text

-- What a fallible setter is asked to set.
pub data Setting (Cert Key : Type 0) : Type 0 where
  min_proto_version max_proto_version : SslVersion → Setting Cert Key
  ciphers : Text → Setting Cert Key
  own_certificate extra_chain_cert : Cert → Setting Cert Key
  own_key : Key → Setting Cert Key
  checked_key : Setting Cert Key
  trusted : Text → Setting Cert Key

pub record Library (Cert Key : Type 0) : Type 0 where
  -- `SslContextBuilder::new(SslMethod::dtls_client())`
  pub dtls_client : Option (Context Cert Key)
  -- a new context has no certificates of a chain, and no trust anchors
  pub fresh_empty :
      (c : Context Cert Key) → dtls_client ≡ some c → (c.extra_chain ≡ []) × (c.ca_files ≡ [])
  pub accepts : Context Cert Key → Setting Cert Key → Bool
  -- `std::fs::read`
  pub read : Text → Option Bytes
  pub stack_from_pem : Bytes → Option (List Cert)
  pub private_key_from_pem : Bytes → Option Key
  -- `cert.public_key()`, and `public_eq` of it and the key
  pub public_eq : Cert → Key → Option Bool
  -- the SHA-256 digest
  pub digest : Cert → Option Bytes

pub record OpenSslConnector (Cert Key : Type 0) : Type 0 where
  pub context : Context Cert Key
  pub fingerprint : Text

-- `let Identity::Pem { certificate_chain, private_key } = &config.identity`, and the same for `Trust`.
abbrev pub chain_path : Identity → Text
chain_path (pem certificate_chain private_key) = certificate_chain

abbrev pub key_path : Identity → Text
key_path (pem certificate_chain private_key) = private_key

abbrev pub ca_path : Trust → Text
ca_path (pem_ca ca_bundle) = ca_bundle

-- `{b:02X}`.
abbrev pub hex_digit : ℕ → ℕ
hex_digit d = if ltb d 10 then b'0' + d else b'A' + (d - 10)

abbrev pub hex_byte : ℕ → Bytes
hex_byte b = hex_digit (b / 16) ∷ hex_digit (b % 16) ∷ []

-- `join(":")`.
abbrev pub join_colon : List Bytes → Bytes
join_colon [] = []
join_colon (x ∷ []) = x
join_colon (x ∷ y ∷ rest) = x ++ b':' ∷ join_colon (y ∷ rest)

abbrev pub suites : Text
suites =
    text
      "ECDHE-ECDSA-AES128-GCM-SHA256:ECDHE-RSA-AES128-GCM-SHA256:ECDHE-ECDSA-AES256-GCM-SHA384:ECDHE-RSA-AES256-GCM-SHA384"

module _ {Cert Key : Type 0} where
  abbrev pub applied : Setting Cert Key → Context Cert Key → Context Cert Key
  applied (min_proto_version v) c = record c { min_version = some v }
  applied (max_proto_version v) c = record c { max_version = some v }
  applied (ciphers t) c = record c { cipher_list = t }
  applied (own_certificate cert) c = record c { certificate = some cert }
  applied (extra_chain_cert cert) c = record c { extra_chain = c.extra_chain ++ cert ∷ [] }
  applied (own_key key) c = record c { private_key = some key }
  applied checked_key c = c
  applied (trusted path) c = record c { ca_files = c.ca_files ++ path ∷ [] }

module _ {Cert Key : Type 0} (lib : Library Cert Key) where
  -- One fallible setter, and the message when it fails.
  abbrev pub apply_setting : Setting Cert Key → Text → Context Cert Key → Result (Context Cert Key)
  apply_setting setting e c = if lib.accepts c setting then ok (applied setting c) else err e

  abbrev pub crypto_error : Text
  crypto_error = text "OpenSSL could not initialize security settings"

  unfoldable pub fingerprint : Cert → Result Text
  fingerprint cert = elim (lib.digest cert) [
    | none ↦ err crypto_error
    | some d ↦ ok (text "sha-256:" ++ join_colon (map hex_byte d))
  ]

  -- The settings that no file decides.
  unfoldable pub configured : Result (Context Cert Key)
  configured = do
    fresh ← ok_or lib.dtls_client crypto_error
    least ← apply_setting (min_proto_version dtls1_2) crypto_error fresh
    most ← apply_setting (max_proto_version dtls1_2) crypto_error least
    apply_setting (ciphers suites) crypto_error (record most {
      verify_peer = true;
      verify_depth = 8;
      options = most.options ++ no_renegotiation ∷ no_compression ∷ no_query_mtu ∷ [];
    })

  unfoldable pub add_chain : List Cert → Context Cert Key → Result (Context Cert Key)
  add_chain [] c = ok c
  add_chain (cert ∷ chain) c =
      apply_setting (extra_chain_cert cert) crypto_error c >>= add_chain chain

  abbrev pub first_of : List Cert → Result (Cert × List Cert)
  first_of [] = err (text "Empty client certificate chain")
  first_of (cert ∷ chain) = ok (cert, chain)

  -- The client's certificate, and the rest of its chain.
  unfoldable pub load_chain : Text → Result (Cert × List Cert)
  load_chain path = do
    certificates ← ok_or (lib.read path) (text "Cannot read client certificate chain")
    chain ← ok_or (lib.stack_from_pem certificates) (text "Invalid client certificate chain PEM")
    first_of chain

  unfoldable pub load_key : Cert → Text → Result Key
  load_key cert path = do
    key_bytes ← ok_or (lib.read path) (text "Cannot read client private key")
    key ← ok_or (lib.private_key_from_pem key_bytes) (
        text
          "Invalid or encrypted private key; MVP requires unencrypted PEM protected by file permissions")
    same ← ok_or (lib.public_eq cert key) crypto_error
    refuse_if (not same) (text "Client certificate and private key do not match")
    ok key

  -- `new` after the configuration is checked, for its three paths.
  unfoldable pub install : Text → Text → Text → Result (OpenSslConnector Cert Key)
  install certificate_chain private_key ca_bundle = do
    base ← configured
    first ← load_chain certificate_chain
    certified ← apply_setting (own_certificate first.0) crypto_error base
    chained ← add_chain first.1 certified
    key ← load_key first.0 private_key
    keyed ← apply_setting (own_key key) crypto_error chained
    _ ← apply_setting checked_key (text "Client certificate and private key do not match") keyed
    context ← apply_setting (trusted ca_bundle) (text "Cannot load CA bundle") keyed
    print ← fingerprint first.0
    ok (record { context = context; fingerprint = print })

  module _ (parse_url : Text → Option Url) (parse_ip : Text → Option IpAddr)
      (show_ip : IpAddr → Text) (to_ascii : Text → Option Text) where
    unfoldable pub new : Config → Result (OpenSslConnector Cert Key)
    new cfg =
        validate_config parse_url parse_ip show_ip to_ascii cfg
        >> install (chain_path cfg.identity) (key_path cfg.identity) (ca_path cfg.trust)
