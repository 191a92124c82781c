-- ===== src/Socket/Servers.antt =====
-- What `main` of cmd/mitmrelay/mitmrelay.go starts beside its relays: the flags, the echo server and
-- the DNS server.
use proxify.Common.{pos, false, none, some, List, [], ◌∷◌}
use proxify.Go.Outcome.{Outcome, ok, ◌>>=◌}
use proxify.Go.Strings.{Bytes, codes}
use proxify.Go.Http.{Request}
use proxify.Proxy.Dns.{dns_mapping}
use proxify.Proxy.Setup.{DnsOptions}
use proxify.Socket.Options.{SocketProxyOptions}
use proxify.Socket.Relays.{RelayFlags, main_relays}

-- `RelayCommandOptions`, with those of the relays apart.
pub record RelayCommandOptions : Type 0 where
  pub http_listener_address : Bytes
  pub output_folder : Bytes
  pub dns_fallback_resolver : Bytes
  pub listen_dns_addr : Bytes
  pub dns_mapping_text : Bytes
  pub relaying : RelayFlags

-- The values of the flags that are not given.
unfoldable pub relay_defaults : RelayCommandOptions
relay_defaults = record {
  http_listener_address = codes "127.0.0.1:49999";
  output_folder = codes "logs/";
  dns_fallback_resolver = [];
  listen_dns_addr = codes ":5353";
  dns_mapping_text = [];
  relaying = record {
    http_proxy = [];
    server_tls = false;
    server_cert = [];
    server_key = [];
    client_tls = false;
    client_cert = [];
    client_key = [];
    protocol = codes "tcp";
    relays = [];
    timeout = pos 180;
    request_match_replace_dsl = [];
    response_match_replace_dsl = [];
  };
}

-- The handler of `httpserver`: what it writes of the request's body, also before an error.
unfoldable pub echo_body : Request → Bytes
echo_body req = elim req.body [ none ↦ [] | some b ↦ b.content ]

-- `dnsserver`
unfoldable pub dnsserver : Bytes → Bytes → Bytes → DnsOptions
dnsserver listen_addr resolver_addr dns_map = record {
  listen_address = listen_addr;
  net = codes "udp";
  upstream_servers = resolver_addr ∷ [];
  dns_records = dns_mapping dns_map;
}

-- What runs: the address of the echo server, the DNS server, and the relays.
pub record Relaying (T C F : Type 0) : Type 0 where
  pub echo_address : Bytes
  pub dns : DnsOptions
  pub relays : List (SocketProxyOptions T C F)

-- `main`, for the flags that were parsed; a fatal message is a panic.
unfoldable pub main :
    {T C F : Type 0}
    → T
    → (Bytes → Bytes → Outcome C)
    → (RelayCommandOptions → Outcome RelayCommandOptions)
    → Outcome (Relaying T C F)
main unset load_key_pair parse = do
  o ← parse relay_defaults
  relays ← main_relays unset load_key_pair o.relaying
  ok (record {
    echo_address = o.http_listener_address;
    dns = dnsserver o.listen_dns_addr o.dns_fallback_resolver o.dns_mapping_text;
    relays = relays;
  })
