-- ===== src/Proxy/Mapping.antt =====
-- src/lib.rs: `parse_mapping_entry` reads back the three formats of a mapping entry.
use kafka_proxy.Base.{ℕ, ◌≤◌, ◌≡◌, refl, ap, [], ◌∷◌, ◌++◌, some, inr, is_empty, if◌then◌else◌}
use kafka_proxy.Text.{Text, is_whitespace}
use kafka_proxy.Text.Decimal.{decimal, parse_unsigned-decimal}
use kafka_proxy.Text.Plain.{
  Without, NoBlank, All-append, split_plain, split-append, rsplit_once-append, trim_plain,
  decimal-NoBlank, decimal-Without,
}
use kafka_proxy.Config.{parts_of}
use kafka_proxy.Proxy.{
  u16_max, bind_and_advertise, parse_advertise, parse_bind, parse_mapping_entry,
}

-- "host:port"
abbrev pub address : Text → ℕ → Text
address host port = host ++ (b':' ∷ decimal port)

-- No comma and no blank.
abbrev pub IsPlain : Text → Type 0
IsPlain s = Without b',' s × NoBlank s

address-IsPlain : (host : Text) (port : ℕ) → IsPlain host → IsPlain (address host port)
address-IsPlain host port (comma, blank) = (
  All-append _ host (b':' ∷ decimal port) comma (refl, decimal-Without b',' port refl),
  All-append _ host (b':' ∷ decimal port) blank
      ((unfold is_whitespace in refl), decimal-NoBlank port),
)

parts_of_plain : (s : Text) → IsPlain s → parts_of s ≡ s ∷ []
unfolding parts_of
parts_of_plain s (comma, blank) = rw (split_plain b',' s comma, trim_plain s blank) refl

parts_of-append : (s t : Text) → IsPlain s → parts_of (s ++ (b',' ∷ t)) ≡ s ∷ parts_of t
unfolding parts_of
parts_of-append s t (comma, blank) = rw (split-append b',' s t comma, trim_plain s blank) refl

parse_advertise-address :
    (host fallback : Text) (port : ℕ)
    → port ≤ u16_max
    → parse_advertise (address host port) fallback
      ≡ inr (if is_empty host then fallback else host, port)
unfolding parse_advertise
parse_advertise-address host fallback port small =
    rw
      (
        rsplit_once-append b':' host (decimal port) (decimal-Without b':' port refl),
        parse_unsigned-decimal u16_max port small,
        parse_advertise,
      )
      refl

bind_shape :
    (host : Text) (port : ℕ)
    → (if is_empty host then b':' ∷ decimal port else host ++ (b':' ∷ decimal port))
      ≡ address host port
bind_shape [] port = refl
bind_shape (c ∷ host) port = refl

parse_bind-address :
    (host : Text) (port advertise_port : ℕ)
    → port ≤ u16_max
    → parse_bind (some (address host port)) advertise_port ≡ inr (address host port)
unfolding parse_bind
parse_bind-address host port advertise_port small =
    rw
      (
        rsplit_once-append b':' host (decimal port) (decimal-Without b':' port refl),
        parse_unsigned-decimal u16_max port small,
        parse_bind,
      )
      (ap inr (bind_shape host port))

-- An entry that names plain addresses with ports of 16 bits is read as written, in each of the three
-- formats: "advertise", "bind,advertise" and "broker,bind,advertise". The advertised host is the
-- entry's, or the fallback where that is empty; the address to bind to is the entry's, or the
-- advertised port alone.
pub parse_mapping_entry-address :
    (broker bind_host host fallback : Text) (bind_port port : ℕ)
    → IsPlain broker
    → IsPlain bind_host
    → IsPlain host
    → bind_port ≤ u16_max
    → port ≤ u16_max
    → (parse_mapping_entry (address host port) fallback
        ≡ inr (b':' ∷ decimal port, if is_empty host then fallback else host, port))
      × (parse_mapping_entry (address bind_host bind_port ++ (b',' ∷ address host port)) fallback
          ≡ inr (address bind_host bind_port, if is_empty host then fallback else host, port))
      × (parse_mapping_entry
            (broker ++ (b',' ∷ (address bind_host bind_port ++ (b',' ∷ address host port))))
            fallback
          ≡ inr (address bind_host bind_port, if is_empty host then fallback else host, port))
unfolding parse_mapping_entry bind_and_advertise
parse_mapping_entry-address broker bind_host host fallback bind_port port pb pbind ph bind_small
      small =
    let one = parts_of_plain (address host port) (address-IsPlain host port ph) in
    let two =
      parts_of-append (address bind_host bind_port) (address host port)
        (address-IsPlain bind_host bind_port pbind) in
    let three =
      parts_of-append broker (address bind_host bind_port ++ (b',' ∷ address host port)) pb in
    let adv = parse_advertise-address host fallback port small in
    let bind = parse_bind-address bind_host bind_port port bind_small in
    (
      rw (one, adv, parse_mapping_entry) (unfold parse_bind in refl),
      rw (two, one, adv, bind, parse_mapping_entry) refl,
      rw (three, two, one, adv, bind, parse_mapping_entry) refl,
    )
