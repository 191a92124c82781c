-- ===== src/Tests/Proxying.antt =====
-- Tests of proxy.go, pkg/util and pkg/types.
use proxify.Common.{
  ◌≡◌, ◌≢◌, ◌↔◌, refl, true, false, none, some, List, [], ◌∷◌, ◌++◌, arith, All, map, if◌then◌else◌,
}
use proxify.Go.Outcome.{Outcome, ok, err, panic}
use proxify.Go.Strings.{Bytes, codes, str_eq, split, join, replace_all}
use proxify.Go.Maps.{Map, lookup, insert}
use proxify.Go.Http.{buffer, header_get, header_set, read_all, dump_request}
use proxify.Util.{Value, bool, text, http_request_to_map}
use proxify.Proxy.Env.{ProxyLib, Options, sprint}
use proxify.Proxy.Replace.{match_replace_request, rewrite}
use proxify.Proxy.Replace.Fallback.{Replaced, match_replace_request-Replaced}
use proxify.Proxy.Modify.{eval_filters, modify_request, remove_br_encoding, close_redirect}
use proxify.Proxy.Modify.Filters.{holds, eval_filters-map, eval_filters-panic}
use proxify.Proxy.Modify.Transparency.{request_user_data, unmeasured, modify_request-transparent}
use proxify.Proxy.Modify.Redirects.{StaysOnHost, IsRedirect, close_redirect_iff}
use proxify.Proxy.Encoding.{remove_equal, listed, remove_br_encoding-removes}
use proxify.Proxy.Dns.{Item, print_mapping, address, dns_mapping, add_record, lookup-dns_mapping}
use proxify.Logger.Queue.{asked}
use proxify.Tests.Fixtures.{question, answer, http}

-- The expression "t" is true, "f" is false, "s" is a text, and anything else fails.
unfoldable pub evaluate : Bytes → Map Value → Outcome Value
unfolding codes str_eq
evaluate e m =
    if str_eq e (codes "t")
    then ok (bool true)
    else if str_eq e (codes "f")
    then ok (bool false)
    else if str_eq e (codes "s")
    then ok (text (codes "PUT"))
    else err (codes "bad")

abbrev pub lib : ProxyLib
lib = record {
  http = http;
  eval_expr = evaluate;
  equal_fold_any = λ s l. false;
  prune_equal = remove_equal;
  new_reusable_read_closer = λ b. ok (buffer []);
  hijack_n_serve = λ r. ok tt;
}

abbrev pub options : Options
options = record {
  request_dsl = codes "t" ∷ [];
  response_dsl = codes "t" ∷ codes "f" ∷ [];
  request_match_replace_dsl = [];
  response_match_replace_dsl = [];
  on_request_callback = none;
  on_response_callback = none;
  listen_addr = [];
}

modify_request-transparent_example : modify_request lib options (codes "x1") question ≡ (
  ok tt,
  record {
    message = remove_br_encoding lib (unmeasured lib options question);
    user_data = some (request_user_data lib options (codes "x1") question (true ∷ []));
    logged =
        asked
          (request_user_data lib options (codes "x1") question (true ∷ []))
          (some (remove_br_encoding lib (unmeasured lib options question)))
        ∷ [];
  },
)
unfolding eval_filters evaluate http_request_to_map read_all dump_request
modify_request-transparent_example =
    modify_request-transparent lib options (codes "x1") question (codes "hi") (true ∷ []) refl refl
      refl refl refl

match_replace_request-Replaced_example :
    Replaced lib (codes "s" ∷ []) question (match_replace_request lib (codes "s" ∷ []) question)
match_replace_request-Replaced_example =
    match_replace_request-Replaced lib (codes "s" ∷ []) question (codes "hi") refl

-- The method is replaced, and the host stays.
replaced_method :
    match_replace_request lib (codes "s" ∷ []) question
    ≡ (ok tt, record question { method = codes "PUT" })
unfolding match_replace_request dump_request rewrite evaluate sprint
replaced_method = refl

remove_br_encoding-removes_example :
    All
      (λ e. e ≢ codes "br")
      (listed (header_get (codes "Accept-Encoding") (remove_br_encoding lib question).header))
remove_br_encoding-removes_example = remove_br_encoding-removes lib (λ xs v. refl) question

-- Only "gzip" is left.
gzip_left :
    header_get (codes "Accept-Encoding") (remove_br_encoding lib question).header ≡ codes "gzip"
unfolding remove_br_encoding header_get header_set lookup insert codes str_eq split join replace_all
    remove_equal
gzip_left = refl

abbrev items : List Item
items =
    record { first = codes "v6"; others = codes "" ∷ codes "1" ∷ [] }
    ∷ record { first = codes "a.b"; others = codes "5.6.7.8" ∷ [] }
    ∷ []

abbrev first_item : Item
first_item = record { first = codes "a.b"; others = codes "1.2.3.4" ∷ [] }

-- The record with three parts is skipped, and the last of two for a domain counts.
lookup-dns_mapping_example :
    lookup (codes "a.b") (dns_mapping (print_mapping first_item items))
    ≡ address (codes "a.b") (first_item ∷ items) none
unfolding codes
lookup-dns_mapping_example = lookup-dns_mapping (codes "a.b") first_item items (omega arith)

last_address :
    lookup (codes "a.b") (dns_mapping (print_mapping first_item items)) ≡ some (codes "5.6.7.8")
unfolding dns_mapping add_record lookup insert codes str_eq split join
last_address = refl

close_redirect_iff_example : (true ≡ true) ↔ (IsRedirect answer × (¬ StaysOnHost lib answer))
unfolding close_redirect str_eq codes
close_redirect_iff_example =
    close_redirect_iff lib answer (record answer { close = true }) refl refl

abbrev one_var : Bytes → Outcome (Map Value) × Bytes
one_var m = (ok [], m)

eval_filters-map_example :
    eval_filters one_var evaluate (codes "t" ∷ codes "x" ∷ []) [] []
    ≡ (ok ([] ++ map (λ e. holds (evaluate e [])) (codes "t" ∷ codes "x" ∷ [])), [])
unfolding evaluate
eval_filters-map_example =
    eval_filters-map one_var evaluate [] [] refl (codes "t" ∷ codes "x" ∷ []) []
      ((λ e. cc), ((λ e. cc), tt))

eval_filters-panic_example :
    (eval_filters one_var evaluate ((codes "t" ∷ []) ++ (codes "s" ∷ codes "f" ∷ [])) [] []).0
    ≡ panic
unfolding evaluate
eval_filters-panic_example =
    eval_filters-panic one_var evaluate [] [] refl (codes "t" ∷ []) (codes "s") (codes "f" ∷ []) []
      ((λ e. cc), tt) refl
