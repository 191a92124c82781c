-- ===== src/Logger/Env.antt =====
-- What the logger of pkg/logger/logger.go is made of: its options, the `Store` and
-- `OutputFileWriter` interfaces over the state `W` of the outside world, and the calls of other
-- packages as parameters.
use proxify.Common.{ℕ, ℤ, Bool, Option, List}
use proxify.Go.Outcome.{Outcome}
use proxify.Go.Strings.{Bytes}
use proxify.Go.Http.{HttpLib, Response}
use proxify.Types.{Verbosity, HttpTransaction, HttpRequestResponseLog, ResponseChain}

-- `elastic.Options` and `kafka.Options`
pub record ElasticOptions : Type 0 where
  pub addr : Bytes
  pub ssl : Bool
  pub ssl_verification : Bool
  pub username : Bytes
  pub password : Bytes
  pub index_name : Bytes

pub record KafkaOptions : Type 0 where
  pub addr : Bytes
  pub topic : Bytes

pub record OptionsLogger : Type 0 where
  pub verbosity : Verbosity
  pub output_folder : Bytes
  pub output_file : Bytes
  pub output_format : Bytes
  pub dump_request : Bool
  pub dump_response : Bool
  pub max_size : ℤ
  pub elastic : Option ElasticOptions
  pub kafka : Option KafkaOptions

-- `Store`: `Save` gives an error or nothing, and changes the world.
pub record Store (W : Type 0) : Type 0 where
  pub save : HttpTransaction → W → Outcome (Unit {0}) × W

-- `OutputFileWriter`, without the error of its `Close`, which no caller reads.
pub record OutputFileWriter (W : Type 0) : Type 0 where
  pub write : HttpRequestResponseLog → W → Outcome (Unit {0}) × W
  pub close : W → W

pub record Logger (W : Type 0) : Type 0 where
  pub options : OptionsLogger
  pub stores : List (Store W)
  pub s_writer : Option (OutputFileWriter W)

-- Calls of packages outside the repository: `stringsutil.ContainsAny` and `Truncate`,
-- `govalidator.IsPrintableASCII`, and `ResponseChain.Fill`; and the text of the clock's time.
pub record LogLib : Type 0 where
  pub http : HttpLib
  pub contains_any : Bytes → List Bytes → Bool
  pub truncate : Bytes → ℕ → Bytes
  pub is_printable_ascii : Bytes → Bool
  pub fill : Response → Outcome ResponseChain
  pub now : Bytes
