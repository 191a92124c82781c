-- ===== src/Proxy/Modify/Filters.antt =====
-- The filters of proxy.go: the verdicts of the expressions, and the match status that a
-- transaction is logged with.
use proxify.Common.{
  ◌≡◌, ◌≢◌, ◌↔◌, refl, ◌∙◌, Bool, true, false, Option, none, some, List, [], ◌∷◌, ◌++◌, arith, All,
  append-nil, append_assoc, map,
}
use proxify.Go.Outcome.{Outcome, ok, err, panic}
use proxify.Go.Strings.{Bytes}
use proxify.Go.Maps.{Map}
use proxify.Util.{Value, bool}
use proxify.Util.Matching.{eval_bool_slice_iff}
use proxify.Proxy.Modify.{eval_filters, request_match, response_match}

-- The verdict of an expression: a failure counts as false, and what is no Boolean has none.
abbrev pub verdict : Outcome Value → Option Bool
verdict (ok (bool b)) = some b
verdict (ok _) = none
verdict (err e) = some false
verdict panic = none

abbrev pub holds : Outcome Value → Bool
holds (ok (bool b)) = b
holds _ = false

module _ {M : Type 0} (to_map : M → Outcome (Map Value) × M)
    (eval : Bytes → Map Value → Outcome Value) (m : M) (vars : Map Value)
    (made : to_map m ≡ (ok vars, m)) where
  eval_filters-step :
      (e : Bytes) (exprs : List Bytes) (results : List Bool)
      → verdict (eval e vars) ≢ none
      → eval_filters to_map eval (e ∷ exprs) m results
        ≡ eval_filters to_map eval exprs m (results ++ (holds (eval e vars) ∷ []))
  unfolding eval_filters
  eval_filters-step e exprs results h = ground (arith, made)

  eval_filters-stop :
      (e : Bytes) (exprs : List Bytes) (results : List Bool)
      → verdict (eval e vars) ≡ none
      → (eval_filters to_map eval (e ∷ exprs) m results).0 ≡ panic
  unfolding eval_filters
  eval_filters-stop e exprs results h = ground (arith, made)

  -- When the message's map can be made, and leaves the message as it was, and every expression
  -- gives a Boolean or an error: the loop appends one verdict for each expression, in order, an
  -- error as false, and leaves the message as it was.
  pub eval_filters-map :
      (exprs : List Bytes) (results : List Bool)
      → All (λ e. verdict (eval e vars) ≢ none) exprs
      → eval_filters to_map eval exprs m results
        ≡ (ok (results ++ map (λ e. holds (eval e vars)) exprs), m)
  eval_filters-map [] results _ = unfold eval_filters in rw append-nil refl
  eval_filters-map (e ∷ exprs) results (h, hs) =
      eval_filters-step e exprs results h
      ∙ eval_filters-map exprs (results ++ (holds (eval e vars) ∷ [])) hs
      ∙ rw append_assoc refl

  -- For a message whose map can be made and leaves it as it was: an expression that gives a
  -- value that is no Boolean, or panics, makes the loop panic, when all expressions before it
  -- give a Boolean or an error.
  pub eval_filters-panic :
      (before : List Bytes) (e : Bytes) (after : List Bytes) (results : List Bool)
      → All (λ e'. verdict (eval e' vars) ≢ none) before
      → verdict (eval e vars) ≡ none
      → (eval_filters to_map eval (before ++ (e ∷ after)) m results).0 ≡ panic
  eval_filters-panic [] e after results _ h = eval_filters-stop e after results h
  eval_filters-panic (b ∷ before) e after results (hb, hs) h =
      rw (eval_filters-step b (before ++ (e ∷ after)) results hb)
        (eval_filters-panic before e after (results ++ (holds (eval b vars) ∷ [])) hs h)

pub All-append_iff :
    (bs cs : List Bool)
    → All (λ b. b ≡ true) (bs ++ cs) ↔ (All (λ b. b ≡ true) bs × All (λ b. b ≡ true) cs)
All-append_iff [] cs = ground arith
All-append_iff (b ∷ bs) cs = ground (arith, All-append_iff bs cs)

pub match_iff :
    (bs cs : List Bool)
    → (response_match (request_match bs) cs ≡ some true)
      ↔ (((bs ++ cs) ≢ []) × All (λ b. b ≡ true) (bs ++ cs))
unfolding response_match request_match
match_iff [] [] = ground arith
match_iff [] (c ∷ cs) = ground (arith, eval_bool_slice_iff (c ∷ cs))
match_iff (b ∷ bs) [] = ground (arith, eval_bool_slice_iff (b ∷ bs), append-nil bs)
match_iff (b ∷ bs) (c ∷ cs) =
    ground (
      arith,
      eval_bool_slice_iff (b ∷ bs),
      eval_bool_slice_iff (c ∷ cs),
      All-append_iff bs (c ∷ cs),
    )
