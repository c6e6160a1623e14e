-- ===== src/Ports/Tests.antt =====
-- Publish arguments, with a parser that reads the numbers used here.
use catallaxy.Prelude.{
  ◌≡◌, refl, true, false, none, some, [], ◌∷◌, get, decimal, decimal_fuel, contains_char,
}
use catallaxy.Ports.RoundTrip.{parse_port-show_port}
use catallaxy.Ports.{
  Parser, parse_port, ports_of, contends_across_labs, address_is_shared, host_port_of,
  is_host_reachable, show_port,
}

abbrev parser : Parser
parser = record {
  parse_u16 = λ s. get s (("80", 80) ∷ ("53", 53) ∷ ("5359", 5359) ∷ ("8083", 8083) ∷ []);
}

with_address :
    parse_port parser "127.0.0.1:8083:80@agent:1"
    ≡ some (record { addr = some "127.0.0.1"; host = 8083; container = 80 })
unfolding parse_port ports_of
with_address = refl

with_protocol : host_port_of parser "5359:53/udp" ≡ some 5359
unfolding host_port_of parse_port ports_of
with_protocol = refl

gateway_publish : contends_across_labs parser "172.23.0.1:80:80" ≡ false
unfolding contends_across_labs parse_port ports_of address_is_shared
gateway_publish = refl

loopback_publish : contends_across_labs parser "127.0.0.1:8083:80" ≡ true
unfolding contends_across_labs parse_port ports_of address_is_shared
loopback_publish = refl

unreadable_publish : contends_across_labs parser "nonsense" ≡ true
unfolding contends_across_labs parse_port ports_of
unreadable_publish = refl

shown : show_port (record { addr = some "::1"; host = 8083; container = 80 }) ≡ "::1:8083:80"
unfolding show_port decimal
shown = refl

gateway_reachable :
    is_host_reachable (record { addr = some "172.23.0.1"; host = 80; container = 80 }) ≡ false
unfolding is_host_reachable address_is_shared
gateway_reachable = refl

-- "127.0.0.1:8083:80"
parse_port-show_port_example :
    parse_port parser (show_port (record { addr = some "127.0.0.1"; host = 8083; container = 80 }))
    ≡ some (record { addr = some "127.0.0.1"; host = 8083; container = 80 })
unfolding contains_char decimal decimal_fuel
parse_port-show_port_example =
    parse_port-show_port parser (record { addr = some "127.0.0.1"; host = 8083; container = 80 })
      (refl, refl, refl) refl refl

ipv6_publish : host_port_of parser "[::1]:8083:80" ≡ none
unfolding host_port_of parse_port ports_of
ipv6_publish = refl
