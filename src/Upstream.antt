-- ===== src/Upstream.antt =====
-- src/upstream.rs: `UpstreamAuth::from_config`. The credentials of kafka_client are a parameter.
pub mod Complete
pub mod Connect
mod Tests
use kafka_proxy.Base.{ℕ, List, [], ◌∷◌, Option, none, some, ◌⊎◌, inl, inr}
use kafka_proxy.Text.{Text, rsplit_once, parse_unsigned}
use kafka_proxy.Config.{
  AuthConfig, AuthMechanism, none_auth, plain, scram_sha256, scram_sha512, gssapi, mtls,
}

-- What the code uses of kafka_client.
pub record Client : Type 1 where
  pub SaslMechanismType : Type 0
  pub sasl_plain : SaslMechanismType
  pub sasl_scram_sha256 : SaslMechanismType
  pub sasl_scram_sha512 : SaslMechanismType
  pub SaslCredentials : Type 0
  pub new_sasl : SaslMechanismType → Text → Text → SaslCredentials
  pub KerberosCredentials : Type 0
  pub new_kerberos : Text → KerberosCredentials
  pub with_keytab : Text → KerberosCredentials → KerberosCredentials
  pub with_realm : Text → KerberosCredentials → KerberosCredentials

-- The configuration items that can be missing.
pub data Item : Type 0 where
  username password kerberos_principal kerberos_keytab kerberos_kdc : Item

pub data UpstreamError : Type 0 where
  missing : Item → UpstreamError
  unsupported_mechanism : AuthMechanism → UpstreamError
  invalid_kdc : Text → UpstreamError

-- `ok_or(UpstreamError::Missing(..))?`
abbrev pub require : Item → Option Text → UpstreamError ⊎ Text
require item none = inl (missing item)
require item (some t) = inr t

unfoldable pub user_pass : AuthConfig → UpstreamError ⊎ (Text × Text)
user_pass auth = elim (require username auth.username) [
  | inl e ↦ inl e
  | inr u ↦ elim (require password auth.password) [ inl e ↦ inl e | inr p ↦ inr (u, p) ]
]

unfoldable pub parse_kdc : AuthConfig → UpstreamError ⊎ (Text × ℕ)
parse_kdc auth = elim (require kerberos_kdc auth.kerberos_kdc) [
  | inl e ↦ inl e
  | inr kdc ↦ elim (rsplit_once b':' kdc) [
    | none ↦ inl (invalid_kdc kdc)
    | some (h, p) ↦ elim (parse_unsigned 65535 p) [
      | none ↦ inl (invalid_kdc kdc)
      | some port ↦ inr (h, port)
    ]
  ]
]

module _ (k : Client) where
  open k use {
    SaslMechanismType, sasl_plain, sasl_scram_sha256, sasl_scram_sha512, SaslCredentials, new_sasl,
    KerberosCredentials, new_kerberos, with_keytab, with_realm,
  }

  pub data AuthInner : Type 0 where
    plaintext : AuthInner
    sasl : SaslMechanismType → SaslCredentials → AuthInner
    kerberos : KerberosCredentials → Text → ℕ → AuthInner

  unfoldable pub from_sasl : SaslMechanismType → AuthConfig → UpstreamError ⊎ AuthInner
  unfolding user_pass
  from_sasl mechanism auth = elim (user_pass auth) [
    | inl e ↦ inl e
    | inr (u, p) ↦ inr (sasl mechanism (new_sasl mechanism u p))
  ]

  abbrev pub add_realm : Option Text → KerberosCredentials → KerberosCredentials
  add_realm none creds = creds
  add_realm (some realm) creds = with_realm realm creds

  unfoldable pub from_gssapi : AuthConfig → UpstreamError ⊎ AuthInner
  unfolding parse_kdc
  from_gssapi auth = elim (require kerberos_principal auth.kerberos_principal) [
    | inl e ↦ inl e
    | inr principal ↦ elim (require kerberos_keytab auth.kerberos_keytab) [
      | inl e ↦ inl e
      | inr keytab ↦ elim (parse_kdc auth) [
        | inl e ↦ inl e
        | inr (host, port) ↦ inr (
            kerberos (add_realm auth.kerberos_realm (with_keytab keytab (new_kerberos principal)))
              host port)
      ]
    ]
  ]

  unfoldable pub from_mechanism : AuthMechanism → AuthConfig → UpstreamError ⊎ AuthInner
  unfolding from_sasl from_gssapi
  from_mechanism none_auth auth = inr plaintext
  from_mechanism gssapi auth = from_gssapi auth
  from_mechanism plain auth = from_sasl sasl_plain auth
  from_mechanism scram_sha256 auth = from_sasl sasl_scram_sha256 auth
  from_mechanism scram_sha512 auth = from_sasl sasl_scram_sha512 auth
  from_mechanism mtls auth = inl (unsupported_mechanism mtls)

  unfoldable pub from_config : AuthConfig → UpstreamError ⊎ AuthInner
  unfolding from_mechanism
  from_config auth = from_mechanism auth.mechanism auth
