-- ===== src/Logger/Queue.antt =====
-- The queue of pkg/logger/logger.go: `LogRequest`, `LogResponse` and `Close` on one side of the
-- channel, and the worker of `AsyncWrite` on the other.
use proxify.Common.{
  ℕ, ◌≤◌, ◌<◌, ◌≡◌, refl, Bool, true, false, Option, none, some, List, [], ◌∷◌, ◌++◌, arith, length,
  length-append, append_assoc, append-nil,
}
use proxify.Go.Http.{Request, Response}
use proxify.Types.{UserData, HttpTransaction}

-- The transaction that `LogRequest` sends; the other fields have their zero values.
unfoldable pub request_transaction : UserData → Request → HttpTransaction
request_transaction userdata req = record {
  userdata = userdata;
  raw_data = [];
  data_bytes = [];
  data_string = [];
  name = [];
  part_suffix = [];
  format = [];
  request = some req;
  response = none;
}

-- That of `LogResponse`, with the request that was answered.
unfoldable pub response_transaction : UserData → Response → HttpTransaction
response_transaction userdata resp = record {
  userdata = userdata;
  raw_data = [];
  data_bytes = [];
  data_string = [];
  name = [];
  part_suffix = [];
  format = [];
  request = resp.request;
  response = some resp;
}

-- What the callers asked to log, in order.
pub data Entry : Type 0 where
  asked : UserData → Option Request → Entry
  answered : UserData → Option Response → Entry

-- `LogRequest` and `LogResponse`: a nil message is not sent.
unfoldable pub transactions : Entry → List HttpTransaction
transactions (asked u none) = []
transactions (asked u (some req)) = request_transaction u req ∷ []
transactions (answered u none) = []
transactions (answered u (some resp)) = response_transaction u resp ∷ []

-- The channel, with all that was logged and all that the worker has taken.
pub record Channel : Type 0 where
  pub queue : List HttpTransaction
  pub closed : Bool
  pub logged : List Entry
  pub handled : List HttpTransaction

abbrev pub capacity : ℕ
capacity = 1000

abbrev pub opened : Channel
opened = record { queue = []; closed = false; logged = []; handled = [] }

-- A send waits while the channel is full, and panics after `Close`; what was sent before is
-- still received.
pub data Step : Channel → Channel → Type 0 where
  skip :
      (c : Channel) (e : Entry)
      → transactions e ≡ []
      → Step c (record c { logged = c.logged ++ (e ∷ []) })
  send :
      (c : Channel) (e : Entry) (t : HttpTransaction)
      → transactions e ≡ t ∷ []
      → c.closed ≡ false
      → length c.queue < capacity
      → Step c (record c { queue = c.queue ++ (t ∷ []); logged = c.logged ++ (e ∷ []) })
  receive :
      (c : Channel) (t : HttpTransaction) (rest : List HttpTransaction)
      → c.queue ≡ t ∷ rest
      → Step c (record c { queue = rest; handled = c.handled ++ (t ∷ []) })
  close : (c : Channel) → c.closed ≡ false → Step c (record c { closed = true })

pub data Reach : Channel → Type 0 where
  start : Reach opened
  next : {c d : Channel} → Reach c → Step c d → Reach d

-- All transactions of the entries, in order.
abbrev pub all_transactions : List Entry → List HttpTransaction
all_transactions [] = []
all_transactions (e ∷ es) = transactions e ++ all_transactions es

all_transactions-append :
    (es : List Entry) (e : Entry)
    → all_transactions (es ++ (e ∷ [])) ≡ all_transactions es ++ transactions e
all_transactions-append [] e = rw append-nil refl
all_transactions-append (f ∷ es) e = rw (all_transactions-append es e, append_assoc) refl

pub record IsOrdered (c : Channel) : Type 0 where
  pub order : c.handled ++ c.queue ≡ all_transactions c.logged
  pub bounded : length c.queue ≤ capacity

pub Step-IsOrdered : {c d : Channel} → Step c d → IsOrdered c → IsOrdered d
Step-IsOrdered (skip c e h) i = record {
  order = rw (all_transactions-append, h, append-nil) i.order;
  bounded = i.bounded;
}
Step-IsOrdered (send c e t h open_ room) i = record {
  order = rw (all_transactions-append, h, ← append_assoc, i.order) refl;
  bounded = omega (arith, length-append c.queue (t ∷ []));
}
Step-IsOrdered (receive c t rest h) i = record {
  order = rw append_assoc (rw h at i.order);
  bounded = let all : length (t ∷ rest) ≤ capacity = rw h at i.bounded in omega arith;
}
Step-IsOrdered (close c h) i = record { order = i.order; bounded = i.bounded }

-- In every state of the queue that is reached: what the worker has taken, and then what is
-- queued, are the transactions of all entries that were logged, in order, and at most 1000 are
-- queued.
pub Reach-IsOrdered : {c : Channel} → Reach c → IsOrdered c
Reach-IsOrdered start = record { order = refl; bounded = omega arith }
Reach-IsOrdered (next r s) = Step-IsOrdered s (Reach-IsOrdered r)
