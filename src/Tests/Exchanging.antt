-- ===== src/Tests/Exchanging.antt =====
-- Tests of the way of an exchange through proxy.go and pkg/logger.
use proxify.Common.{
  ℕ, zero, suc, ◌≤◌, ◌*◌, pos, length, take, ◌≡◌, ◌≢◌, refl, true, false, none, some, List, [], ◌∷◌,
  ◌++◌, arith, All, ◌⊎◌,
}
use proxify.Go.Outcome.{ok, panic}
use proxify.Go.Strings.{Bytes, codes}
use proxify.Go.Http.{Response, read_all, dump_request, dump_response}
use proxify.Types.{HttpRequestResponseLog, ResponseChain}
use proxify.Util.{http_request_to_map, http_response_to_map}
use proxify.Proxy.Modify.{eval_filters}
use proxify.Logger.Env.{OptionsLogger}
use proxify.Logger.Queue.{all_transactions}
use proxify.Logger.Worker.{async_write}
use proxify.Logger.Worker.Recording.{write_all}
use proxify.Exchanges.{IsPlain, exchange_entries, exchange_entries-leaves}
use proxify.Go.Disk.{Disk}
use proxify.Types.{default_level}
use proxify.Logger.Worker.{write_stores}
use proxify.Logger.Clients.Files.{file_logger}
use proxify.Logger.Clients.Bounds.{IsWithin, write_stores-IsWithin}
use proxify.Tests.Fixtures.{question, answer, http, dump, chain, log_lib, log_options, empty_disk}
use proxify.Tests.Logging.{collecting, verbose_logger, usable, transaction}
use proxify.Tests.Proxying.{evaluate, lib, options}

fills : (r : Response) → (c : ResponseChain) × (log_lib.fill r ≡ ok c)
fills r = (chain, refl)

calm : (r : Response) → log_lib.fill r ≢ panic
calm r = λ e. cc

plain :
    IsPlain lib options
      (codes "x1")
      question
      answer
      (codes "hi")
      (codes "ok")
      (true ∷ [])
      (true ∷ false ∷ [])
unfolding eval_filters evaluate http_request_to_map http_response_to_map read_all dump_request
    dump_response
plain = record {
  given_body = refl;
  resp_body = refl;
  no_request_callback = refl;
  no_response_callback = refl;
  no_request_replace = refl;
  no_response_replace = refl;
  proxied = refl;
  request_filtered = refl;
  response_filtered = refl;
}

exchange_entries-leaves_example :
    (lines : List Bytes) × (es : List HttpRequestResponseLog) × (async_write log_lib verbose_logger
        (all_transactions (exchange_entries lib options (codes "x1") question answer))
        []
      ≡ ok (lines, write_all log_lib collecting es []))
    × ((All (λ b. b ≡ true) ((true ∷ []) ++ (true ∷ false ∷ []))
          × (e : HttpRequestResponseLog) × (es ≡ e ∷ [])
          × (e.url ≡ http.url_string question.url))
        ⊎ ((¬ All (λ b. b ≡ true) ((true ∷ []) ++ (true ∷ false ∷ []))) × (es ≡ [])))
exchange_entries-leaves_example =
    exchange_entries-leaves log_lib verbose_logger collecting dump usable fills refl refl lib
      options (codes "x1") question question answer (codes "hi") (codes "ok") (codes "hi")
      (true ∷ []) (true ∷ false ∷ []) [] plain refl refl

join_path : Bytes → Bytes → Bytes
join_path folder file = folder ++ file

-- At most four bytes.
abbrev limits : OptionsLogger
limits = record (log_options default_level) { max_size = pos 4 }

take-length : (s : Bytes) (n : ℕ) → length (take n s) ≤ n
take-length s zero = omega arith
take-length [] (suc n) = omega arith
take-length (c ∷ s) (suc n) = omega (arith, take-length s n)

write_stores-IsWithin_example :
    (d' : Disk) × (write_stores log_lib
        (file_logger join_path log_lib limits)
        (transaction none)
        (codes "GET /p")
        (some chain)
        empty_disk
      ≡ ok d')
    × IsWithin (2 * 4) empty_disk d'
write_stores-IsWithin_example =
    write_stores-IsWithin join_path log_lib limits 4 refl (omega arith) take-length
      (transaction none) (codes "GET /p") (some chain) empty_disk
