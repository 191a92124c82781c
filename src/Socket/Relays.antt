-- ===== src/Socket/Relays.antt =====
-- `main` of cmd/mitmrelay/mitmrelay.go: the options that its relays share, and the relays that it
-- starts.
pub mod Bypass
use proxify.Common.{
  ℕ, ℤ, pos, Bool, true, false, not, ◌&&◌, Option, none, some, List, [], ◌∷◌, is_empty,
  if◌then◌else◌,
}
use proxify.Go.Outcome.{Outcome, ok, err, panic, ◌>>=◌}
use proxify.Go.Strings.{Bytes, codes, split_text}
use proxify.Socket.Options.{SocketProxyOptions, set_timeout, relay_options}

-- The fields of `Options` from which the relays are made.
pub record RelayFlags : Type 0 where
  pub http_proxy : Bytes
  pub server_tls : Bool
  pub server_cert : Bytes
  pub server_key : Bytes
  pub client_tls : Bool
  pub client_cert : Bytes
  pub client_key : Bytes
  pub protocol : Bytes
  pub relays : List Bytes
  pub timeout : ℤ
  pub request_match_replace_dsl : Bytes
  pub response_match_replace_dsl : Bytes

-- `Set` of the flag `-relay`
unfoldable pub set_relay : Bytes → List Bytes → List Bytes
set_relay value [] = value ∷ []
set_relay value (r ∷ relays) = r ∷ set_relay value relays

-- The TLS configuration with a certificate, if a file for it and one for its key are named; a
-- pair that cannot be loaded ends the program, which is a panic here.
unfoldable pub load_config :
    {C : Type 0} → (Bytes → Bytes → Outcome C) → Bytes → Bytes → Outcome (Option C)
load_config load_key_pair cert key =
    if not (is_empty cert) && not (is_empty key)
    then (elim (load_key_pair cert key) [
      | panic ↦ panic
      | err e ↦ panic
      | ok config ↦ ok (some config)
    ])
    else ok none

module _ {T C F : Type 0} (unset : T) (load_key_pair : Bytes → Bytes → Outcome C) where
  -- The options before the relays are started.
  unfoldable pub shared_options : RelayFlags → Outcome (SocketProxyOptions T C F)
  shared_options f = do
    client_config ← load_config load_key_pair f.client_cert f.client_key
    server_config ← load_config load_key_pair f.server_cert f.server_key
    ok (
        set_timeout f.timeout (record {
          protocol = f.protocol;
          listen_address = [];
          remote_address = [];
          http_proxy = f.http_proxy;
          http_server = [];
          resolved_listen_address = unset;
          resolved_remote_address = unset;
          tls_client_config = client_config;
          tls_client = f.client_tls;
          tls_server_config = server_config;
          tls_server = f.server_tls;
          verbosity = 0;
          output_hex = false;
          timeout = 0;
          request_match_replace_dsl = f.request_match_replace_dsl ∷ [];
          response_match_replace_dsl = f.response_match_replace_dsl ∷ [];
          on_request = none;
          on_response = none;
        }))

-- The two addresses of a relay; one that is written otherwise is skipped.
unfoldable pub addresses : List Bytes → Option (Bytes × Bytes)
addresses (from ∷ to ∷ []) = some (from, to)
addresses _ = none

-- The loop over the relays: the options of each that is started.
unfoldable pub start_relays :
    {T C F : Type 0} → SocketProxyOptions T C F → List Bytes → List (SocketProxyOptions T C F)
start_relays o [] = []
start_relays o (r ∷ relays) =
    let rest = start_relays o relays in
    elim (addresses (split_text r (codes "=>"))) [
      | none ↦ rest
      | some pair ↦ relay_options o pair.0 pair.1 ∷ rest
    ]

-- `main`, up to its relays.
unfoldable pub main_relays :
    {T C F : Type 0}
    → T
    → (Bytes → Bytes → Outcome C)
    → RelayFlags
    → Outcome (List (SocketProxyOptions T C F))
main_relays unset load_key_pair f =
    shared_options unset load_key_pair f >>= λ o. ok (start_relays o f.relays)
