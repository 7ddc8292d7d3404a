-- ===== src/Proxy/RunTests.antt =====
-- Runs and a witness for the whole of a start, without metadata.
use kafka_proxy.Base.{All, ◌≡◌, refl, Bool, true, false, not, ◌&&◌, List, [], ◌∷◌, none, some, inr}
use kafka_proxy.Text.{Text, codes, text_eq}
use kafka_proxy.Text.Decimal.{decimal}
use kafka_proxy.Upstream.{Client}
use kafka_proxy.Upstream.Connect.{ClientBuilder}
use kafka_proxy.Proxy.Run.{resolve as resolve_of, Outside, show_i32, info}
use kafka_proxy.Proxy.Ready.{Entry}
use kafka_proxy.Proxy.Serves.{Serves}
use kafka_proxy.Proxy.BootstrapTests.{lookup_host, target, listeners}

-- A kafka_client whose builders record nothing, and a network in which the cluster has no metadata.
abbrev client : Client
client = record {
  SaslMechanismType = Unit {0};
  sasl_plain = tt;
  sasl_scram_sha256 = tt;
  sasl_scram_sha512 = tt;
  SaslCredentials = Unit {0};
  new_sasl = λ s u p. tt;
  KerberosCredentials = Unit {0};
  new_kerberos = λ p. tt;
  with_keytab = λ t c. tt;
  with_realm = λ r c. tt;
}

abbrev client_builders : ClientBuilder client
client_builders = record {
  Builder = List Text;
  username = λ c. [];
  password = λ c. [];
  with_plaintext = λ b. b;
  with_sasl = λ s u p b. b;
  with_kerberos = λ c b. b;
  with_kdc = λ h p b. b;
  with_client_id = λ i b. b;
}

-- No listener has the address yet.
abbrev is_free : Text → List Text → Bool
is_free a [] = true
is_free a (b ∷ bound) = not (text_eq a b) && is_free a bound

abbrev outside : Outside client client_builders
outside = record {
  builder = λ servers. servers;
  with_broker_hostname = λ h b. b;
  build = λ b. inr [];
  lookup_host = lookup_host;
  Network = List Text;
  net = [];
  bind = λ a bound. (text_eq a (codes "0:1") && is_free a bound, a ∷ bound);
  api_binds = λ a. false;
  attempts = λ node. some (5, 1) ∷ none ∷ [];
  now = 7;
  show_addr = λ a. codes "a";
}

info_run :
    All (λ l. info outside l ≡ codes "1 -> {node_id: -1, real_addr: a, real_host: k}") listeners
unfolding info show_i32 decimal
info_run = (refl, tt)

-- What the only entry of the mapping and its server come to.
abbrev entry : Entry
entry = record {
  bind_addr = b':' ∷ decimal 1;
  host = codes "p";
  port = 1;
  addr = record { ip = 2; port = 9 };
  target = target;
}

-- A second listener at the address of the first cannot be bound.
second_bind :
    ((outside.bind (codes "0:1") outside.net).0 ≡ true)
    × ((outside.bind (codes "0:1") (outside.bind (codes "0:1") outside.net).1).0 ≡ false)
second_bind = (refl, refl)
