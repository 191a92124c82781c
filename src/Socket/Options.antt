-- ===== src/Socket/Options.antt =====
-- `SocketProxyOptions` of socket.go with `Clone`, and what a relay of cmd/mitmrelay/mitmrelay.go
-- gets from it. Addresses that are resolved, TLS configurations and callbacks are opaque.
use proxify.Common.{
  ◌≡◌, refl, ℕ, ◌*◌, ◌%◌, ◌^◌, ◌&&◌, ◌<◌, ℤ, pos, negsuc, Bool, true, false, Option, List, ltb,
  arith,
}
use proxify.Go.Strings.{Bytes, trim_space}

pub record SocketProxyOptions (TcpAddr TlsConfig Callback : Type 0) : Type 0 where
  pub protocol : Bytes
  pub listen_address : Bytes
  pub remote_address : Bytes
  pub http_proxy : Bytes
  pub http_server : Bytes
  pub resolved_listen_address : TcpAddr
  pub resolved_remote_address : TcpAddr
  pub tls_client_config : Option TlsConfig
  pub tls_client : Bool
  pub tls_server_config : Option TlsConfig
  pub tls_server : Bool
  pub verbosity : ℕ
  pub output_hex : Bool
  pub timeout : ℕ
  pub request_match_replace_dsl : List Bytes
  pub response_match_replace_dsl : List Bytes
  pub on_request : Option Callback
  pub on_response : Option Callback

module _ {T C F : Type 0} where
  -- `Clone`. The fields that its literal leaves out have their zero values.
  unfoldable pub clone : SocketProxyOptions T C F → SocketProxyOptions T C F
  clone so = record {
    protocol = so.protocol;
    listen_address = so.listen_address;
    remote_address = so.remote_address;
    http_proxy = so.http_proxy;
    http_server = so.http_server;
    resolved_listen_address = so.resolved_listen_address;
    resolved_remote_address = so.resolved_remote_address;
    tls_client_config = so.tls_client_config;
    tls_client = so.tls_client;
    tls_server_config = so.tls_server_config;
    tls_server = so.tls_server;
    verbosity = 0;
    output_hex = false;
    timeout = 0;
    request_match_replace_dsl = so.request_match_replace_dsl;
    response_match_replace_dsl = so.response_match_replace_dsl;
    on_request = so.on_request;
    on_response = so.on_response;
  }

  -- The timeout flag of mitmrelay, in nanoseconds, as the 64 bits of a `time.Duration`; a negative
  -- one leaves the field alone.
  unfoldable pub set_timeout : ℤ → SocketProxyOptions T C F → SocketProxyOptions T C F
  set_timeout (pos seconds) o = record o { timeout = (seconds * 1_000_000_000) % 2 ^ 64 }
  set_timeout (negsuc n) o = o

  -- The options of the relay between two addresses.
  unfoldable pub relay_options : SocketProxyOptions T C F → Bytes → Bytes → SocketProxyOptions T C F
  relay_options o from to = record (clone o) {
    listen_address = trim_space from;
    remote_address = trim_space to;
  }

  -- Whether `fullduplex` sets a deadline on the two connections: the 64 bits are signed.
  unfoldable pub sets_deadline : SocketProxyOptions T C F → Bool
  sets_deadline o = ltb 0 o.timeout && ltb o.timeout (2 ^ 63)

  -- A positive timeout flag of mitmrelay whose nanoseconds fit makes the shared options set
  -- deadlines, and the options that each relay gets from `Clone` set none.
  pub relay_options-no_deadline :
      (o : SocketProxyOptions T C F) (seconds : ℕ) (from to : Bytes)
      → 0 < seconds
      → seconds * 1_000_000_000 < 2 ^ 63
      → (sets_deadline (set_timeout (pos seconds) o) ≡ true)
        × (sets_deadline (relay_options (set_timeout (pos seconds) o) from to) ≡ false)
  unfolding sets_deadline relay_options clone set_timeout
  relay_options-no_deadline o seconds from to h fits = (ground arith, refl)
