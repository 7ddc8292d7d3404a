-- ===== src/Upstream/Complete.antt =====
-- src/upstream.rs: which configurations `from_config` accepts.
use kafka_proxy.Base.{ℕ, ◌≤◌, ◌≡◌, refl, ◌↔◌, ◌∷◌, ◌++◌, some, inl, inr, arith, Option-cases}
use kafka_proxy.Text.{Text, rsplit_once, parse_unsigned}
use kafka_proxy.Text.Decimal.{decimal, parse_unsigned-decimal}
use kafka_proxy.Text.Plain.{rsplit_once-append, decimal-Without}
use kafka_proxy.Config.{
  AuthConfig, AuthMechanism, none_auth, plain, scram_sha256, scram_sha512, gssapi, mtls,
}
use kafka_proxy.Upstream.{
  Client, AuthInner, user_pass, parse_kdc, from_sasl, from_gssapi, from_mechanism, from_config,
}

abbrev pub HasLogin : AuthConfig → Type 0
HasLogin auth = (u : Text) × (p : Text) × (auth.username ≡ some u) × (auth.password ≡ some p)

abbrev pub HasKdc : AuthConfig → Type 0
HasKdc auth =
    (kdc : Text) × (host : Text) × (digits : Text) × (port : ℕ) × (auth.kerberos_kdc ≡ some kdc)
    × (rsplit_once b':' kdc ≡ some (host, digits))
    × (parse_unsigned 65535 digits ≡ some port)

abbrev pub HasTicket : AuthConfig → Type 0
HasTicket auth =
    (principal : Text) × (keytab : Text) × (auth.kerberos_principal ≡ some principal)
    × (auth.kerberos_keytab ≡ some keytab)
    × HasKdc auth

-- What each mechanism needs; nothing is enough for mTLS.
abbrev pub Needs : AuthMechanism → AuthConfig → Type 0
Needs none_auth auth = Unit {0}
Needs plain auth = HasLogin auth
Needs scram_sha256 auth = HasLogin auth
Needs scram_sha512 auth = HasLogin auth
Needs gssapi auth = HasTicket auth
Needs mtls auth = ⊥

-- A KDC address "host:port" with a port of 16 bits is read as written, whatever the host.
pub parse_kdc-decimal :
    (auth : AuthConfig) (host : Text) (port : ℕ)
    → auth.kerberos_kdc ≡ some (host ++ (b':' ∷ decimal port))
    → port ≤ 65535
    → parse_kdc auth ≡ inr (host, port)
unfolding parse_kdc
parse_kdc-decimal auth host port e small =
    rw
      (
        e,
        rsplit_once-append b':' host (decimal port) (decimal-Without b':' port refl),
        parse_unsigned-decimal 65535 port small,
        parse_kdc,
      )
      refl

module _ (k : Client) where
  from_sasl_iff :
      (s : k.SaslMechanismType) (auth : AuthConfig)
      → ((a : AuthInner k) × (from_sasl k s auth ≡ inr a)) ↔ HasLogin auth
  unfolding from_sasl user_pass
  from_sasl_iff s auth = (there, back)
    where
      there : ((a : AuthInner k) × (from_sasl k s auth ≡ inr a)) → HasLogin auth
      there (a, h) = elim (Option-cases auth.username) [
        | inl e ↦ ground arith
        | inr (u, e) ↦ elim (Option-cases auth.password) [
          | inl q ↦ ground arith
          | inr (p, q) ↦ (u, p, e, q)
        ]
      ]

      back : HasLogin auth → (a : AuthInner k) × (from_sasl k s auth ≡ inr a)
      back (u, p, e, q) = rw (e, q, from_sasl) (_, refl)

  from_gssapi_iff :
      (auth : AuthConfig) → ((a : AuthInner k) × (from_gssapi k auth ≡ inr a)) ↔ HasTicket auth
  unfolding from_gssapi parse_kdc
  from_gssapi_iff auth = (there, back)
    where
      there : ((a : AuthInner k) × (from_gssapi k auth ≡ inr a)) → HasTicket auth
      there (a, h) = elim (Option-cases auth.kerberos_principal) [
        | inl e ↦ ground arith
        | inr (principal, e) ↦ elim (Option-cases auth.kerberos_keytab) [
          | inl q ↦ ground arith
          | inr (keytab, q) ↦ elim (Option-cases auth.kerberos_kdc) [
            | inl r ↦ ground arith
            | inr (kdc, r) ↦ elim (Option-cases (rsplit_once b':' kdc)) [
              | inl t ↦ ground arith
              | inr ((host, digits), t) ↦ elim (Option-cases (parse_unsigned 65535 digits)) [
                | inl u ↦ ground arith
                | inr (port, u) ↦ (principal, keytab, e, q, (kdc, host, digits, port, r, t, u))
              ]
            ]
          ]
        ]
      ]

      back : HasTicket auth → (a : AuthInner k) × (from_gssapi k auth ≡ inr a)
      back (principal, keytab, e, q, (kdc, host, digits, port, r, t, u)) =
          rw (e, q, r, t, u, from_gssapi, parse_kdc) (_, refl)

  from_mechanism_iff :
      (m : AuthMechanism) (auth : AuthConfig)
      → ((a : AuthInner k) × (from_mechanism k m auth ≡ inr a)) ↔ Needs m auth
  unfolding from_mechanism
  from_mechanism_iff none_auth auth = ((λ h. tt), λ h. (_, refl))
  from_mechanism_iff plain auth = from_sasl_iff k.sasl_plain auth
  from_mechanism_iff scram_sha256 auth = from_sasl_iff k.sasl_scram_sha256 auth
  from_mechanism_iff scram_sha512 auth = from_sasl_iff k.sasl_scram_sha512 auth
  from_mechanism_iff gssapi auth = from_gssapi_iff auth
  from_mechanism_iff mtls auth = ((λ (a, h). ground arith), λ h. absurd h)

  -- The upstream authentication is set up exactly when the configuration has what its mechanism
  -- needs: nothing without authentication, a user and a password for PLAIN and SCRAM, and for
  -- GSSAPI a principal, a keytab and a KDC address with a port of 16 bits. With mTLS it never is.
  pub from_config_iff :
      (auth : AuthConfig)
      → ((a : AuthInner k) × (from_config k auth ≡ inr a)) ↔ Needs auth.mechanism auth
  unfolding from_config
  from_config_iff auth = from_mechanism_iff auth.mechanism auth
