-- ===== src/Replay/Main.antt =====
-- `main` of cmd/replay/replay.go: its flags, the servers that it starts, and the walk.
use proxify.Common.{ℕ, Bool, true, List, [], ◌∷◌, ◌++◌}
use proxify.Go.Outcome.{Outcome, ok, ◌>>=◌}
use proxify.Go.Strings.{Bytes, codes}
use proxify.Go.Http.{Request, Url}
use proxify.Proxy.Setup.{DnsOptions}
use proxify.Replay.{ReplayLib, Found, Walked, walk}

-- `Options`
pub record ReplayOptions : Type 0 where
  pub dns_listener_address : Bytes
  pub http_listener_address : Bytes
  pub http_burp_address : Bytes
  pub http_proxy_listener_address : Bytes
  pub output_folder : Bytes

-- The values of the flags that are not given.
unfoldable pub replay_defaults : ReplayOptions
replay_defaults = record {
  dns_listener_address = codes ":10000";
  http_listener_address = codes ":80";
  http_burp_address = codes "http://127.0.0.1:8080";
  http_proxy_listener_address = codes ":8081";
  output_folder = codes "db/";
}

-- What is set of the dialer's options.
pub record ReplayDialer : Type 0 where
  pub max_retries : ℕ
  pub base_resolvers : List Bytes

unfoldable pub replay_dialer : ReplayOptions → ReplayDialer
replay_dialer o = record {
  max_retries = 1;
  base_resolvers = (codes "127.0.0.1" ++ o.dns_listener_address) ∷ [];
}

-- The DNS server gives the address of the machine for every name.
unfoldable pub replay_dns : ReplayOptions → DnsOptions
replay_dns o = record {
  listen_address = o.dns_listener_address;
  net = codes "udp";
  upstream_servers = [];
  dns_records = (codes "*", codes "127.0.0.1") ∷ [];
}

-- The client that sends the requests: the proxy that it uses, and whether it skips the
-- verification of certificates.
pub record ReplayClient : Type 0 where
  pub proxy : Url
  pub insecure_skip_verify : Bool

-- What runs when the walk begins: the HTTP proxy with its dialer, the DNS server and the HTTP server
-- of the handler.
pub record Replaying (Dialer : Type 0) : Type 0 where
  pub proxy_address : Bytes
  pub dialer : Dialer
  pub dns : DnsOptions
  pub http_address : Bytes
  pub client : ReplayClient

-- `flag.Parse`, `fastdialer.NewDialer`, and what the walk of a folder finds.
pub record MainLib (Dialer : Type 0) : Type 0 where
  pub parse : ReplayOptions → Outcome ReplayOptions
  pub new_dialer : ReplayDialer → Outcome Dialer
  pub find : Bytes → List Found

module _ {Dialer : Type 0} (main_lib : MainLib Dialer) (lib : ReplayLib) where
  -- What is set up, or the error with which the program ends.
  unfoldable pub start_replay : ReplayOptions → Outcome (Replaying Dialer)
  start_replay o = do
    dialer ← main_lib.new_dialer (replay_dialer o)
    proxy_url ← lib.parse_url o.http_burp_address
    ok (record {
      proxy_address = o.http_proxy_listener_address;
      dialer = dialer;
      dns = replay_dns o;
      http_address = o.http_listener_address;
      client = record { proxy = proxy_url; insecure_skip_verify = true };
    })

  -- `main`, for a network that lets a request reach the handler or not.
  unfoldable pub main : (Request → Bool) → Outcome (Replaying Dialer × Walked)
  main reaches = do
    o ← main_lib.parse replay_defaults
    replaying ← start_replay o
    ok (replaying, walk lib reaches (main_lib.find o.output_folder) [])
