-- ===== src/Tests/Relaying.antt =====
-- Tests of socket.go and cmd/mitmrelay.
use proxify.Common.{
  some, is_empty, if◌then◌else◌, ℕ, ◌+◌, ◌%◌, ◌^◌, ◌≡◌, ◌≤◌, ◌⊎◌, refl, pos, true, false, none, [],
  ◌∷◌, ◌++◌, arith, length, map,
}
use proxify.Go.Outcome.{Outcome, ok, err}
use proxify.Go.Strings.{Bytes, codes}
use proxify.Socket.Options.{SocketProxyOptions, set_timeout, relay_options}
use proxify.Socket.Pipe.{PipeLib, SocketConn, chunk, failed, pipe, read_failed}
use proxify.Go.Strings.{split_text, split_from, push, has_prefix, trim_space}
use proxify.Socket.Pipe.{process}
use proxify.Socket.Options.{clone}
use proxify.Socket.Dialing.{DialLib, Prepared, dial_remote, prepare, proxy_conn}
use proxify.Socket.Relays.{
  RelayFlags, load_config, shared_options, addresses, start_relays, main_relays,
}
use proxify.Socket.Relays.{set_relay}
use proxify.Socket.Dialing.{run_relay, open_listener, accept_all}
use proxify.Socket.Relays.Bypass.{main_relays-bypass}
use proxify.Socket.Streams.{counter, total, pipe-delivers, process_plain}
use proxify.Socket.Ending.{
  Relay, Reach, here, next, opened, fail_left, receive_left, looping, sending, marking, returned,
  enter_err, IsSound, Reach-IsSound, IsStuck, late_sender-IsStuck, mark_left, Step,
}
use proxify.Socket.Ending.Termination.{IsSettled, steps, Reach-ends}

abbrev lib : PipeLib
lib = record { eval_expr = λ e m. err []; post = λ url b. err [] }

abbrev conn : SocketConn
conn = record {
  sent_bytes = 5;
  received_bytes = 0;
  has_http_client = false;
  http_server = [];
  request_match_replace_dsl = [];
  response_match_replace_dsl = [];
  on_request = none;
  on_response = none;
}

abbrev identity : Bytes → Bytes
identity b = b

abbrev sink : Bytes → Outcome ℕ
sink b = ok (length b)

abbrev end_of_file : Bytes
end_of_file = codes "EOF"

pipe-delivers_example :
    let p =
      pipe lib sink true
        (map chunk (codes "ab" ∷ codes "c" ∷ []) ++ (failed end_of_file ∷ []))
        conn
        [] in
    (p.written ≡ [] ++ map identity (codes "ab" ∷ codes "c" ∷ []))
    × (counter true p.conn
        ≡ (counter true conn + total (map identity (codes "ab" ∷ codes "c" ∷ []))) % 2 ^ 64)
    × (p.status ≡ read_failed end_of_file)
pipe-delivers_example =
    pipe-delivers lib true sink identity (codes "ab" ∷ codes "c" ∷ []) end_of_file [] conn []
      (λ b. process_plain lib true conn b refl refl refl) (λ b. refl) (omega arith)

abbrev options : SocketProxyOptions Unit Unit (Bytes → Bytes)
options = record {
  protocol = codes "tcp";
  listen_address = [];
  remote_address = [];
  http_proxy = [];
  http_server = [];
  resolved_listen_address = tt;
  resolved_remote_address = tt;
  tls_client_config = none;
  tls_client = false;
  tls_server_config = none;
  tls_server = false;
  verbosity = 0;
  output_hex = false;
  timeout = 0;
  request_match_replace_dsl = [];
  response_match_replace_dsl = [];
  on_request = none;
  on_response = none;
}

abbrev half_closed : Relay
half_closed = record { left = marking; right = looping; erred = false; closed = true }

Reach-half_closed : Reach opened half_closed
unfolding enter_err
Reach-half_closed =
    next (next here (fail_left opened refl))
      (receive_left (record opened { left = sending }) refl refl)

Reach-IsSound_example : IsSound half_closed
Reach-IsSound_example = Reach-IsSound Reach-half_closed

abbrev later : Relay
later = record { left = returned; right = sending; erred = true; closed = true }

Reach-later : Reach (record half_closed { right = enter_err half_closed.erred }) later
unfolding enter_err
Reach-later = next here (mark_left (record half_closed { right = sending }) refl)

late_sender-IsStuck_example : IsStuck (λ r. r.right) later
late_sender-IsStuck_example = late_sender-IsStuck Reach-half_closed refl refl Reach-later

Reach-ends_example :
    (steps Reach-half_closed ≤ 4)
    × (((t : Relay) × Step half_closed t)
        ⊎ (IsSettled half_closed × ((t : Relay) → ¬ Step half_closed t)))
Reach-ends_example = Reach-ends Reach-half_closed

-- Only an empty URL is refused.
abbrev echo : PipeLib
echo = record { eval_expr = λ e m. err []; post = λ url b. if is_empty url then err [] else ok b }

abbrev dial_lib : DialLib Unit Unit Unit Bytes
dial_lib = record {
  insecure = tt;
  tls_listen = λ protocol addr c. ok tt;
  listen = λ protocol addr. ok tt;
  tls_dial = λ addr c. ok tt;
  dial = λ addr. ok tt;
  parse_url = λ s. ok s;
}

-- An HTTP proxy, and one relay besides a text that is none.
abbrev flags : RelayFlags
flags = record {
  http_proxy = codes "p:1";
  server_tls = false;
  server_cert = [];
  server_key = [];
  client_tls = false;
  client_cert = [];
  client_key = [];
  protocol = codes "tcp";
  relays = codes "none" ∷ codes "a:1 => b:2" ∷ [];
  timeout = pos 180;
  request_match_replace_dsl = [];
  response_match_replace_dsl = [];
}

abbrev started : SocketProxyOptions Unit Unit (Bytes → Bytes)
started = record options {
  listen_address = codes "a:1";
  remote_address = codes "b:2";
  http_proxy = codes "p:1";
  request_match_replace_dsl = [] ∷ [];
  response_match_replace_dsl = [] ∷ [];
}

abbrev prepared : Prepared Unit Bytes
prepared = record {
  remote = tt;
  http_proxy = some (codes "p:1");
  conn = record conn {
    sent_bytes = 0;
    has_http_client = true;
    request_match_replace_dsl = [] ∷ [];
    response_match_replace_dsl = [] ∷ [];
  };
  timeout = 0;
  verbosity = 0;
  output_hex = false;
}

flags-started : main_relays tt (λ cert key. ok tt) flags ≡ ok ([] ++ (started ∷ []))
unfolding main_relays shared_options load_config start_relays addresses relay_options clone
    set_timeout split_text split_from push has_prefix trim_space codes
flags-started = refl

started-prepared : proxy_conn dial_lib started ≡ ok (some prepared)
unfolding proxy_conn dial_remote prepare codes
started-prepared = refl

main_relays-bypass_example :
    process echo true prepared.conn (codes "hi")
    ≡ process echo true (record prepared.conn { has_http_client = false }) (codes "hi")
main_relays-bypass_example =
    main_relays-bypass tt (λ cert key. ok tt) dial_lib echo flags [] [] started prepared true
      (codes "hi") (λ s. ([], refl)) flags-started started-prepared

-- A client that cannot be accepted ends the loop, and no later one is served.
accepted :
    run_relay {Client = ℕ} dial_lib started (ok 1 ∷ ok 2 ∷ err (codes "closed") ∷ ok 3 ∷ [])
    ≡ (1 ∷ 2 ∷ [], some (codes "closed"))
unfolding run_relay open_listener accept_all
accepted = refl

relays_set : set_relay (codes "b") (codes "a" ∷ []) ≡ codes "a" ∷ codes "b" ∷ []
unfolding set_relay
relays_set = refl
