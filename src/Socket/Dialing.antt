-- ===== src/Socket/Dialing.antt =====
-- `Run` and `Proxy` of socket.go: the listener, the connections that it accepts, and how each is
-- prepared for its pipes.
use proxify.Common.{
  ℕ, Bool, true, false, Option, none, some, List, [], ◌∷◌, is_empty, if◌then◌else◌,
}
use proxify.Go.Outcome.{Outcome, Error, ok, err, panic}
use proxify.Go.Strings.{Bytes}
use proxify.Socket.Options.{SocketProxyOptions}
use proxify.Socket.Pipe.{SocketConn}

-- The calls of net, crypto/tls and net/url; `insecure` is a configuration that only skips the
-- verification.
pub record DialLib (TlsConfig Listener Remote Url : Type 0) : Type 0 where
  pub insecure : TlsConfig
  pub tls_listen : Bytes → Bytes → TlsConfig → Outcome Listener
  pub listen : Bytes → Bytes → Outcome Listener
  pub tls_dial : Bytes → TlsConfig → Outcome Remote
  pub dial : Bytes → Outcome Remote
  pub parse_url : Bytes → Outcome Url

-- A connection that is ready for `fullduplex`.
pub record Prepared (Remote Url : Type 0) : Type 0 where
  pub remote : Remote
  pub http_proxy : Option Url
  pub conn : SocketConn
  pub timeout : ℕ
  pub verbosity : ℕ
  pub output_hex : Bool

abbrev or_default : {C : Type 0} → C → Option C → C
or_default c none = c
or_default c (some d) = d

module _ {T C Listener Remote Url : Type 0} (lib : DialLib C Listener Remote Url)
    (o : SocketProxyOptions T C (Bytes → Bytes)) where
  unfoldable pub open_listener : Outcome Listener
  open_listener =
      if o.tls_server
      then lib.tls_listen o.protocol o.listen_address (or_default lib.insecure o.tls_server_config)
      else lib.listen o.protocol o.listen_address

  unfoldable pub dial_remote : Outcome Remote
  dial_remote =
      if o.tls_client
      then lib.tls_dial o.remote_address (or_default lib.insecure o.tls_client_config)
      else lib.dial o.remote_address

  -- The fields of the connection that `Proxy` sets; its counters start at 0.
  unfoldable pub prepare : Remote → Option Url → Prepared Remote Url
  prepare remote proxy = record {
    remote = remote;
    http_proxy = proxy;
    conn = record {
      sent_bytes = 0;
      received_bytes = 0;
      has_http_client = elim proxy [ none ↦ false | some url ↦ true ];
      http_server = elim proxy [ none ↦ [] | some url ↦ o.http_server ];
      request_match_replace_dsl = o.request_match_replace_dsl;
      response_match_replace_dsl = o.response_match_replace_dsl;
      on_request = o.on_request;
      on_response = o.on_response;
    };
    timeout = o.timeout;
    verbosity = o.verbosity;
    output_hex = o.output_hex;
  }

  -- `Proxy` up to `fullduplex`: it gives up without an error where the other side cannot be reached
  -- or the URL of the proxy is refused.
  unfoldable pub proxy_conn : Outcome (Option (Prepared Remote Url))
  proxy_conn = elim dial_remote [
    | panic ↦ panic
    | err e ↦ ok none
    | ok remote ↦
        if is_empty o.http_proxy
        then ok (some (prepare remote none))
        else elim (lib.parse_url o.http_proxy) [
          | panic ↦ panic
          | err e ↦ ok none
          | ok url ↦ ok (some (prepare remote (some url)))
        ]
  ]

-- The loop of `Run` over what the listener accepts: the clients that are served, and the error that
-- ends it.
unfoldable pub accept_all : {Client : Type 0} → List (Outcome Client) → List Client × Option Error
accept_all [] = ([], none)
accept_all (panic ∷ accepts) = ([], none)
accept_all (err e ∷ accepts) = ([], some e)
accept_all (ok client ∷ accepts) =
    let (clients, failure) = accept_all accepts in (client ∷ clients, failure)

-- `Run`
unfoldable pub run_relay :
    {T C Listener Remote Url Client : Type 0}
    → DialLib C Listener Remote Url
    → SocketProxyOptions T C (Bytes → Bytes)
    → List (Outcome Client)
    → List Client × Option Error
run_relay lib o accepts = elim (open_listener lib o) [
  | panic ↦ ([], none)
  | err e ↦ ([], some e)
  | ok listener ↦ accept_all accepts
]
