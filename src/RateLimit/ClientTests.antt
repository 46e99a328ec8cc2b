-- ===== src/RateLimit/ClientTests.antt =====
-- Runs of the addresses, the keys and the hook of packages/rate-limit/src, and their theorems at
-- concrete requests.
use celsian.Base.{
  List, ◌≡◌, ◌↔◌, refl, true, false, none, some, [], ◌∷◌, ◌++◌, Text, codes, text_eq, text_beq,
  decimal, split_on, split_from,
}
use celsian.Map
use celsian.Words.{lower_case, join_with}
use celsian.Cache.Store.{starts_with}
use celsian.Cron.Words.{is_space, is_digit, digits_from, trim}
use celsian.Router.Paths.{non_empty}
use celsian.RateLimit.Store.{MemoryRateLimitStore}
use celsian.RateLimit.Address.{
  version4, Cidr, bracketed_from, bracketed, without_port, is_short_number, mapped, normalize,
  octet, octets, parse_ipv4, split_double_from, split_double, hex_value, hex_number, group,
  groups_of, to_groups, parse_ipv6, parse_ip, format_ip, canonicalize_ip, parse_cidr, ipv4_in_cidr,
  ipv6_in_cidr, ip_in_cidr, is_trusted_proxy,
}
use celsian.RateLimit.Address.Canonical.{canonicalize_ip_lem}
use celsian.RateLimit.Client.{
  Request, KeyOptions, split_forwarded_for, rightmost_untrusted, client_ip_from_trusted_proxies,
  client_ip_from_hop_count, generate_key, parse_all, parse_trusted_proxies,
}
use celsian.RateLimit.Client.Spoofing.{forwarded, generate_key-forwarded}
use celsian.RateLimit.Hook.Quota.{Arrival, attempt, cleaning}

addressing : Unit {0}
unfolding lower_case join_with starts_with is_space is_digit digits_from trim non_empty
    bracketed_from bracketed without_port is_short_number mapped normalize octet octets parse_ipv4
    split_double_from split_double hex_value hex_number group groups_of to_groups parse_ipv6
    parse_ip format_ip canonicalize_ip parse_cidr ipv4_in_cidr ipv6_in_cidr ip_in_cidr
    is_trusted_proxy split_forwarded_for rightmost_untrusted client_ip_from_trusted_proxies
    client_ip_from_hop_count generate_key parse_all parse_trusted_proxies split_on split_from
    decimal Map.get Map.set text_beq
addressing = tt

-- The last two are one host, but the second of them is not read as IPv4.
spelled :
    (canonicalize_ip (codes "[1.2.3.4]:80") ≡ some (codes "1.2.3.4"))
    × (canonicalize_ip (codes "01.02.03.04") ≡ some (codes "1.2.3.4"))
    × (canonicalize_ip (codes "1.2.3.4:5000") ≡ some (codes "1.2.3.4"))
    × (canonicalize_ip (codes "2001:DB8::1")
        ≡ some (codes "2001:0db8:0000:0000:0000:0000:0000:0001"))
    × (canonicalize_ip (codes "1.2.3.256") ≡ none)
    × (canonicalize_ip (codes "::ffff:1.2.3.4") ≡ some (codes "1.2.3.4"))
    × (canonicalize_ip (codes "::ffff:102:304")
        ≡ some (codes "0000:0000:0000:0000:0000:ffff:0102:0304"))
unfolding addressing
spelled = (refl, refl, refl, refl, refl, refl, refl)

abbrev private_net : Cidr
private_net = record { ip = version4 0x0a000000; prefix = 8 }

trusted :
    (parse_trusted_proxies (some (codes "10.0.0.0/8" ∷ [])) ≡ some (some (private_net ∷ [])))
    × (parse_trusted_proxies (some []) ≡ none)
    × (is_trusted_proxy (codes "10.9.8.7") (private_net ∷ []) ≡ true)
    × (is_trusted_proxy (codes "11.9.8.7") (private_net ∷ []) ≡ false)
    × (client_ip_from_trusted_proxies (private_net ∷ []) (codes "1.1.1.1, 2.2.2.2, 10.0.0.1")
        ≡ some (codes "2.2.2.2"))
    × (client_ip_from_hop_count 2 (codes "1.1.1.1, 2.2.2.2") ≡ some (codes "1.1.1.1"))
    × (client_ip_from_hop_count 3 (codes "1.1.1.1, 2.2.2.2") ≡ none)
unfolding addressing
trusted = (refl, refl, refl, refl, refl, refl, refl)

canonicalize_ip_lem_example :
    ((canonicalize_ip (codes "1.2.3.4") ≡ canonicalize_ip (codes "1.2.3.4:80"))
      ↔ (parse_ip (codes "1.2.3.4") ≡ parse_ip (codes "1.2.3.4:80")))
    × ((c : Text) → canonicalize_ip (codes "1.2.3.4") ≡ some c → canonicalize_ip c ≡ some c)
canonicalize_ip_lem_example = canonicalize_ip_lem (codes "1.2.3.4") (codes "1.2.3.4:80")

abbrev options : KeyOptions
options = record {
  trusted_proxies = some (private_net ∷ []);
  trust_proxy = false;
  trusted_proxy_hops = 1;
  trust_x_real_ip = false;
}

abbrev request : Request
request = record { headers = []; ip = none }

generate_key-forwarded_example :
    generate_key options (forwarded (codes "6.6.6.6" ++ b',' ∷ codes "2.2.2.2, 10.0.0.1") request)
    ≡ generate_key options (forwarded (codes "2.2.2.2, 10.0.0.1") request)
unfolding addressing
generate_key-forwarded_example =
    generate_key-forwarded options request (codes "6.6.6.6") (codes ".2.2.2, 10.0.0.1") b'2' refl

abbrev store : MemoryRateLimitStore
store = record { entries = []; max_keys = 10; cap_warned = false }

abbrev arrivals : List Arrival
arrivals =
    attempt (codes "b") 3 3 ∷ attempt (codes "a") 5 6 ∷ cleaning 7 ∷ attempt (codes "a") 59 59 ∷ []
