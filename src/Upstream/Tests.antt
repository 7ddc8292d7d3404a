-- ===== src/Upstream/Tests.antt =====
-- Runs and witnesses for the upstream authentication.
use kafka_proxy.Base.{ℕ, ◌≡◌, refl, ◌↔◌, true, List, [], ◌∷◌, Option, none, some, inl, inr}
use kafka_proxy.Text.{Text, rsplit_once, parse_unsigned, parse_digits}
use kafka_proxy.Config.{AuthConfig, gssapi}
use kafka_proxy.Upstream.{
  Client, AuthInner, kerberos, missing, kerberos_kdc, parse_kdc, from_gssapi, from_mechanism,
  from_config,
}
use kafka_proxy.Upstream.Complete.{Needs, from_config_iff}

-- Credentials that keep what they are made of.
abbrev client : Client
client = record {
  SaslMechanismType = ℕ;
  sasl_plain = 0;
  sasl_scram_sha256 = 1;
  sasl_scram_sha512 = 2;
  SaslCredentials = ℕ × Text × Text;
  new_sasl = λ m u p. (m, u, p);
  KerberosCredentials = List Text;
  new_kerberos = λ p. p ∷ [];
  with_keytab = λ t c. t ∷ c;
  with_realm = λ r c. r ∷ c;
}

abbrev login : Option Text → AuthConfig
login kdc = record {
  mechanism = gssapi;
  username = none;
  password = none;
  kerberos_principal = some (b'p' ∷ []);
  kerberos_keytab = some (b't' ∷ []);
  kerberos_kdc = kdc;
  kerberos_realm = none;
  ca_file = none;
  server_name = none;
  verify = true;
}

-- The KDC "k:88".
abbrev complete : AuthConfig
complete = login (some (b'k' ∷ b':' ∷ b'8' ∷ b'8' ∷ []))

complete_run :
    from_config client complete ≡ inr (kerberos ((b't' ∷ []) ∷ (b'p' ∷ []) ∷ []) (b'k' ∷ []) 88)
unfolding from_config from_mechanism from_gssapi parse_kdc rsplit_once parse_unsigned parse_digits
complete_run = refl

incomplete_run : from_config client (login none) ≡ inl (missing kerberos_kdc)
unfolding from_config from_mechanism from_gssapi parse_kdc
incomplete_run = refl

from_config_iff_example :
    ((a : AuthInner client) × (from_config client complete ≡ inr a))
    ↔ Needs complete.mechanism complete
from_config_iff_example = from_config_iff client complete

abbrev kdc : Text
kdc = b'k' ∷ []
