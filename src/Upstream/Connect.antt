-- ===== src/Upstream/Connect.antt =====
-- src/upstream.rs: what `connect_framed` and `apply_to_client_builder` ask of kafka_client's builders.
use kafka_proxy.Base.{ℕ, ◌⊎◌}
use kafka_proxy.Text.{Text, codes}
use kafka_proxy.Upstream.{Client, AuthInner, plaintext, sasl, kerberos}

pub data SecurityProtocol : Type 0 where
  plaintext_protocol sasl_plaintext : SecurityProtocol

-- The builder of a connection, and `build_framed` with the framed stream or an error.
pub record ConnectionBuilder (k : Client) : Type 1 where
  pub Address : Type 0
  pub Builder : Type 0
  pub Framed : Type 0
  pub new : Address → SecurityProtocol → Builder
  pub with_client_id : Text → Builder → Builder
  pub with_sasl : k.SaslMechanismType → k.SaslCredentials → Builder → Builder
  pub with_kerberos : k.KerberosCredentials → Builder → Builder
  pub with_kdc : Text → ℕ → Builder → Builder
  pub with_broker_hostname : Text → Builder → Builder
  pub creds_with_broker_hostname : Text → k.KerberosCredentials → k.KerberosCredentials
  pub build_framed : Builder → Text ⊎ Framed

-- The builder of a client.
pub record ClientBuilder (k : Client) : Type 1 where
  pub Builder : Type 0
  pub username : k.SaslCredentials → Text
  pub password : k.SaslCredentials → Text
  pub with_plaintext : Builder → Builder
  pub with_sasl : k.SaslMechanismType → Text → Text → Builder → Builder
  pub with_kerberos : k.KerberosCredentials → Builder → Builder
  pub with_kdc : Text → ℕ → Builder → Builder
  pub with_client_id : Text → Builder → Builder

module _ (k : Client) where
  unfoldable pub security_protocol : AuthInner k → SecurityProtocol
  security_protocol plaintext = plaintext_protocol
  security_protocol (sasl _ _) = sasl_plaintext
  security_protocol (kerberos _ _ _) = sasl_plaintext

  module _ (b : ConnectionBuilder k) where
    open b use {
      Address, Builder, Framed, new, with_client_id, with_sasl, with_kerberos, with_kdc,
      with_broker_hostname, creds_with_broker_hostname, build_framed,
    }

    unfoldable pub with_auth : AuthInner k → Text → Builder → Builder
    with_auth plaintext broker_host builder = builder
    with_auth (sasl mechanism credentials) broker_host builder =
        with_sasl mechanism credentials builder
    with_auth (kerberos creds kdc_host kdc_port) broker_host builder =
        with_broker_hostname broker_host (
          with_kdc kdc_host kdc_port
            (with_kerberos (creds_with_broker_hostname broker_host creds) builder))

    unfoldable pub connect_framed : AuthInner k → Address → Text → Text ⊎ Framed
    unfolding security_protocol with_auth
    connect_framed auth addr broker_host = build_framed (
        with_auth auth broker_host
          (with_client_id (codes "kafka-proxy") (new addr (security_protocol auth))))

  module _ (b : ClientBuilder k) where
    open b use {Builder}

    unfoldable pub apply_to_client_builder : AuthInner k → Builder → Builder
    apply_to_client_builder plaintext builder = b.with_plaintext builder
    apply_to_client_builder (sasl mechanism credentials) builder =
        b.with_sasl mechanism (b.username credentials) (b.password credentials) builder
    apply_to_client_builder (kerberos creds kdc_host kdc_port) builder =
        b.with_client_id (codes "kafka-proxy-bootstrap")
          (b.with_kdc kdc_host kdc_port (b.with_kerberos creds builder))
