-- ===== src/Dtls/Configured.antt =====
-- What a connector of crates/dtls-openssl/src/lib.rs is set up with, and what its fingerprint tells.
use syslog_dtls_agent.Prelude.{
  ◌≡◌, sym, subst, ◌∙◌, ap, true, Option, some, List, [], ◌∷◌, ◌++◌, append-nil, append_assoc, Text,
  Bytes, text, ok_or, refuse_if, not, ok, >>=-eq-ok, Option-cases, inl, inr, arith,
}
use syslog_dtls_agent.Ip.{IpAddr}
use syslog_dtls_agent.Oidc.Settings.{Url}
use syslog_dtls_agent.Config.Schema.{Config}
use syslog_dtls_agent.Config.Checks.{validate_config}
use syslog_dtls_agent.Dtls.Credentials.{
  dtls1_2, Context, Setting, own_certificate, own_key, trusted, extra_chain_cert, Library,
  OpenSslConnector, apply_setting, applied, fingerprint, configured, add_chain, first_of,
  load_chain, load_key, install, new, chain_path, key_path, ca_path, checked_key,
}

module _ {Cert Key : Type 0} (lib : Library Cert Key) where
  -- The policy that no file and no setting of the configuration changes.
  record IsHardened (c : Context Cert Key) : Type 0 where
    least : c.min_version ≡ some dtls1_2
    most : c.max_version ≡ some dtls1_2
    peer : c.verify_peer ≡ true
    depth : c.verify_depth ≡ 8
    suites_set :
        c.cipher_list
        ≡ text
            "ECDHE-ECDSA-AES128-GCM-SHA256:ECDHE-RSA-AES128-GCM-SHA256:ECDHE-ECDSA-AES256-GCM-SHA384:ECDHE-RSA-AES256-GCM-SHA384"

  apply_setting-eq-ok :
      (setting : Setting Cert Key) (e : Text) (c d : Context Cert Key)
      → apply_setting lib setting e c ≡ ok d
      → applied setting c ≡ d
  apply_setting-eq-ok setting e c d h = ground arith

  configured-IsHardened : (c : Context Cert Key) → configured lib ≡ ok c → IsHardened c
  unfolding configured
  configured-IsHardened c e = ground (arith, e)

  configured-fresh :
      (c : Context Cert Key)
      → configured lib ≡ ok c
      → (fresh : Context Cert Key) × (lib.dtls_client ≡ some fresh)
        × (c.extra_chain ≡ fresh.extra_chain)
        × (c.ca_files ≡ fresh.ca_files)
  unfolding configured
  configured-fresh c e = elim (Option-cases lib.dtls_client) [
    | inl none_ ↦ absurd (ground (arith, e, none_))
    | inr (fresh, some_) ↦ (fresh, some_, ground (arith, e, some_), ground (arith, e, some_))
  ]

  add_chain_lem :
      (chain : List Cert) (c d : Context Cert Key)
      → add_chain lib chain c ≡ ok d
      → d ≡ record c { extra_chain = c.extra_chain ++ chain }
  unfolding add_chain
  add_chain_lem [] c d e = ground (arith, e, append-nil c.extra_chain)
  add_chain_lem (cert ∷ chain) c d e =
      let (mid, set_, rest) =
        >>=-eq-ok (apply_setting lib (extra_chain_cert cert) _ c) (add_chain lib chain) e in
      let same = apply_setting-eq-ok (extra_chain_cert cert) _ c mid set_ in
      add_chain_lem chain mid d rest
      ∙ subst
          (λ m.
            record m { extra_chain = m.extra_chain ++ chain }
            ≡ record c { extra_chain = c.extra_chain ++ cert ∷ chain })
          same
          (ap (λ l. record c { extra_chain = l }) (append_assoc c.extra_chain (cert ∷ []) chain))

  -- A PEM file and what it holds: the client's certificate first, the rest of its chain in order.
  pub record IsChainOf (path : Text) (cert : Cert) (chain : List Cert) : Type 0 where
    pub bytes : Bytes
    pub found : lib.read path ≡ some bytes
    pub holds : lib.stack_from_pem bytes ≡ some (cert ∷ chain)

  pub record IsKeyOf (path : Text) (cert : Cert) (key : Key) : Type 0 where
    pub bytes : Bytes
    pub found : lib.read path ≡ some bytes
    pub holds : lib.private_key_from_pem bytes ≡ some key
    pub matching : lib.public_eq cert key ≡ some true

  first_of-eq-ok :
      (certs : List Cert) (cert : Cert) (chain : List Cert)
      → first_of lib certs ≡ ok (cert, chain)
      → certs ≡ cert ∷ chain
  first_of-eq-ok [] cert chain e = absurd (ground (arith, e))
  first_of-eq-ok (first ∷ certs) cert chain e = ground (arith, e)

  load_chain-IsChainOf :
      (path : Text) (cert : Cert) (chain : List Cert)
      → load_chain lib path ≡ ok (cert, chain)
      → IsChainOf path cert chain
  unfolding load_chain
  load_chain-IsChainOf path cert chain e =
      let (bytes, e0, r0) =
        >>=-eq-ok (ok_or (lib.read path) (text "Cannot read client certificate chain")) _ e in
      let (certs, e1, r1) =
        >>=-eq-ok (ok_or (lib.stack_from_pem bytes) (text "Invalid client certificate chain PEM")) _
          r0 in
      let whole : certs ≡ cert ∷ chain = first_of-eq-ok certs cert chain r1 in
      record {
        bytes = bytes;
        found = ground (arith, e0);
        holds = ground (arith, e1) ∙ ap some whole;
      }

  load_key-IsKeyOf :
      (cert : Cert) (path : Text) (key : Key)
      → load_key lib cert path ≡ ok key
      → IsKeyOf path cert key
  unfolding load_key
  load_key-IsKeyOf cert path key e =
      let (bytes, e0, r0) = >>=-eq-ok (ok_or (lib.read path) _) _ e in
      let (found, e1, r1) = >>=-eq-ok (ok_or (lib.private_key_from_pem bytes) _) _ r0 in
      let (same, e2, r2) = >>=-eq-ok (ok_or (lib.public_eq cert found) _) _ r1 in
      let (done, e3, r3) = >>=-eq-ok (refuse_if (not same) _) _ r2 in
      let it : found ≡ key = ground (arith, r3) in
      let matched : lib.public_eq cert found ≡ some true = ground (arith, e2, e3) in
      record {
        bytes = bytes;
        found = ground (arith, e0);
        holds = ground (arith, e1) ∙ ap some it;
        matching = ap (lib.public_eq cert) (sym it) ∙ matched;
      }

  -- What a connector is set up with, from the paths of a chain, a key and a bundle.
  pub record IsConfigured (certificate_chain private_key ca_bundle : Text)
      (connector : OpenSslConnector Cert Key) : Type 0 where
    cert : Cert
    chain : List Cert
    key : Key
    certified : IsChainOf certificate_chain cert chain
    keyed : IsKeyOf private_key cert key
    hardened : IsHardened connector.context
    own : connector.context.certificate ≡ some cert
    rest : connector.context.extra_chain ≡ chain
    own_secret : connector.context.private_key ≡ some key
    anchors : connector.context.ca_files ≡ ca_bundle ∷ []
    printed : fingerprint lib cert ≡ ok connector.fingerprint

  -- The context of `install`, put together.
  abbrev assembled : Context Cert Key → Cert → List Cert → Key → Text → Context Cert Key
  assembled base cert chain key ca_bundle = record base {
    certificate = some cert;
    extra_chain = base.extra_chain ++ chain;
    private_key = some key;
    ca_files = base.ca_files ++ ca_bundle ∷ [];
  }

  IsHardened-assembled :
      (base : Context Cert Key) (cert : Cert) (chain : List Cert) (key : Key) (ca_bundle : Text)
      → IsHardened base
      → IsHardened (assembled base cert chain key ca_bundle)
  IsHardened-assembled base cert chain key ca_bundle h = record {
    least = h.least;
    most = h.most;
    peer = h.peer;
    depth = h.depth;
    suites_set = h.suites_set;
  }

  -- The four settings that `install` makes on the base.
  assembled_lem :
      (base : Context Cert Key) (chain : List Cert) (e0 e1 e2 : Text)
      {certified chained keyed context : Context Cert Key} {cert : Cert} {key : Key}
      (ca_bundle : Text)
      → apply_setting lib (own_certificate cert) e0 base ≡ ok certified
      → add_chain lib chain certified ≡ ok chained
      → apply_setting lib (own_key key) e1 chained ≡ ok keyed
      → apply_setting lib (trusted ca_bundle) e2 keyed ≡ ok context
      → context ≡ assembled base cert chain key ca_bundle
  assembled_lem base chain e0 e1 e2 {certified} {chained} {keyed} {context} {cert} {key} ca_bundle a
        b c d =
      ground (
        arith,
        apply_setting-eq-ok (own_certificate cert) _ base certified a,
        add_chain_lem chain certified chained b,
        apply_setting-eq-ok (own_key key) _ chained keyed c,
        apply_setting-eq-ok (trusted ca_bundle) _ keyed context d,
      )

  install-IsConfigured :
      (certificate_chain private_key ca_bundle : Text) (connector : OpenSslConnector Cert Key)
      → install lib certificate_chain private_key ca_bundle ≡ ok connector
      → IsConfigured certificate_chain private_key ca_bundle connector
  unfolding install
  install-IsConfigured certificate_chain private_key ca_bundle connector e =
      let (base, e0, r0) = >>=-eq-ok (configured lib) _ e in
      let (first, e1, r1) = >>=-eq-ok (load_chain lib certificate_chain) _ r0 in
      let (certified, e2, r2) =
        >>=-eq-ok (apply_setting lib (own_certificate first.0) _ base) _ r1 in
      let (chained, e3, r3) = >>=-eq-ok (add_chain lib first.1 certified) _ r2 in
      let (key, e4, r4) = >>=-eq-ok (load_key lib first.0 private_key) _ r3 in
      let (keyed, e5, r5) = >>=-eq-ok (apply_setting lib (own_key key) _ chained) _ r4 in
      let (checked, e6, r6) = >>=-eq-ok (apply_setting lib checked_key _ keyed) _ r5 in
      let (context, e7, r7) = >>=-eq-ok (apply_setting lib (trusted ca_bundle) _ keyed) _ r6 in
      let (print, e8, r8) = >>=-eq-ok (fingerprint lib first.0) _ r7 in
      let (fresh, begun, same, untrusted) = configured-fresh base e0 in
      let (no_chain, no_anchor) = lib.fresh_empty fresh begun in
      let same_context = assembled_lem base first.1 _ _ _ ca_bundle e2 e3 e5 e7 in
      let built : ok (record { context = context; fingerprint = print }) ≡ ok connector = r8 in
      let whole : (context ≡ connector.context) × (print ≡ connector.fingerprint) =
        (ground (arith, built), ground (arith, built)) in
      let final = sym whole.0 ∙ same_context in
      record {
        cert = first.0;
        chain = first.1;
        key = key;
        certified = load_chain-IsChainOf certificate_chain first.0 first.1 e1;
        keyed = load_key-IsKeyOf first.0 private_key key e4;
        hardened = subst IsHardened (sym final) (
            IsHardened-assembled base first.0 first.1 key ca_bundle
              (configured-IsHardened base e0));
        own = ap (λ (c : Context Cert Key). c.certificate) final;
        rest =
            ap (λ (c : Context Cert Key). c.extra_chain) final
            ∙ ap (λ l. l ++ first.1) (same ∙ no_chain);
        own_secret = ap (λ (c : Context Cert Key). c.private_key) final;
        anchors =
            ap (λ (c : Context Cert Key). c.ca_files) final
            ∙ ap (λ l. l ++ ca_bundle ∷ []) (untrusted ∙ no_anchor);
        printed = e8 ∙ ap ok whole.1;
      }

  -- A connector that `new` returns: the configuration is valid; the certificate is the first one that the
  -- PEM file of its chain holds, and the certificates sent with it are the others of that file, all of
  -- them and in their order; the private key is that of its file and matches the certificate; the CA
  -- bundle is the one file of trust anchors; only DTLS 1.2 with verification of the peer and the four
  -- suites is enabled; and the fingerprint is that of the certificate.
  pub new-IsConfigured :
      (parse_url : Text → Option Url) (parse_ip : Text → Option IpAddr) (show_ip : IpAddr → Text)
      (to_ascii : Text → Option Text) (cfg : Config) (connector : OpenSslConnector Cert Key)
      → new lib parse_url parse_ip show_ip to_ascii cfg ≡ ok connector
      → (validate_config parse_url parse_ip show_ip to_ascii cfg ≡ ok tt)
        × IsConfigured
            (chain_path cfg.identity)
            (key_path cfg.identity)
            (ca_path cfg.trust)
            connector
  unfolding new
  new-IsConfigured parse_url parse_ip show_ip to_ascii cfg connector e =
      let (done, valid, rest) =
        >>=-eq-ok (validate_config parse_url parse_ip show_ip to_ascii cfg) _ e in
      (
        valid,
        install-IsConfigured (chain_path cfg.identity) (key_path cfg.identity) (ca_path cfg.trust)
            connector rest,
      )
