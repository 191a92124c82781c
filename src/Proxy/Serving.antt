-- ===== src/Proxy/Serving.antt =====
-- `Run` of proxy.go: which servers a proxy starts, and where the SOCKS5 server tunnels to.
use proxify.Common.{ℕ, Bool, Option, none, some, List, [], ◌∷◌, ◌++◌}
use proxify.Go.Outcome.{Outcome, ok, err, panic, ◌>>=◌}
use proxify.Go.Strings.{Bytes}
use proxify.Util.{match_any_regex}
use proxify.Proxy.Setup.{ProxyOptions, Proxy}

-- `net.Listen` over TCP, which gives the address of its listener, `net.SplitHostPort`,
-- `strconv.ParseUint` for 16 bits, and `superproxy.NewSuperProxy` for an HTTP proxy.
pub record ServeLib (Tunnel : Type 0) : Type 0 where
  pub listen : Bytes → Outcome Bytes
  pub split_host_port : Bytes → Outcome (Bytes × Bytes)
  pub parse_port : Bytes → Outcome ℕ
  pub new_super_proxy : Bytes → ℕ → Outcome Tunnel

-- A server that runs, with the address it was given or that of its listener.
pub data Server : Type 0 where
  dns_server : Bytes → Server
  http_server : Bytes → Server
  socks5_server : Bytes → Server

pub record Running (Tunnel : Type 0) : Type 0 where
  pub servers : List Server
  pub listen_addr : Bytes
  pub socks5tunnel : Option Tunnel

-- Hosts whose TLS connections are passed through; `match_string` is `regexp.MatchString`.
unfoldable pub passes_through : (Bytes → Bytes → Outcome Bool) → ProxyOptions → Bytes → Bool
passes_through match_string o host = match_any_regex match_string o.pass_through host

-- The tunnel of the SOCKS5 server leads to the HTTP proxy.
unfoldable pub open_tunnel : {Tunnel : Type 0} → ServeLib Tunnel → Bytes → Outcome Tunnel
open_tunnel lib addr = do
  parts ← lib.split_host_port addr
  port ← lib.parse_port parts.1
  lib.new_super_proxy parts.0 port

module _ {W Dns Dialer Rotation Socks Tunnel : Type 0} (lib : ServeLib Tunnel) where
  -- The SOCKS5 part, with what runs before it.
  unfoldable pub run_socks5 :
      Proxy W Dns Dialer Rotation Socks → Running Tunnel → Outcome (Unit {0}) × Running Tunnel
  run_socks5 p r = elim p.socks5proxy [
    | none ↦ (ok tt, r)
    | some server ↦ elim (open_tunnel lib p.options.listen_addr_http) [
      | panic ↦ (panic, r)
      | err e ↦ (err e, r)
      | ok tunnel ↦ (
        ok tt,
        record r {
          servers = r.servers ++ (socks5_server p.options.listen_addr_socks5 ∷ []);
          socks5tunnel = some tunnel;
        },
      )
    ]
  ]

  -- `Run`, of a proxy that `NewProxy` has made, up to the wait for its servers. A listener that
  -- cannot be made ends the program, which is a panic here.
  unfoldable pub run : Proxy W Dns Dialer Rotation Socks → Outcome (Unit {0}) × Running Tunnel
  run p =
      let dns : List Server = elim p.tinydns [
        | none ↦ []
        | some server ↦ dns_server p.options.listen_dns_addr ∷ []
      ] in
      elim (lib.listen p.options.listen_addr_http) [
        | panic ↦ (panic, record { servers = dns; listen_addr = []; socks5tunnel = none })
        | err e ↦ (panic, record { servers = dns; listen_addr = []; socks5tunnel = none })
        | ok addr ↦ run_socks5 p (record {
          servers = dns ++ (http_server addr ∷ []);
          listen_addr = addr;
          socks5tunnel = none;
        })
      ]
