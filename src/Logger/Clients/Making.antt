-- ===== src/Logger/Clients/Making.antt =====
-- How the clients and writers of pkg/logger are made: `New` of elastic, kafka and file, and the
-- writers of jsonl and yaml.
use proxify.Common.{ℕ, Bool, true, List, [], ◌∷◌, ◌++◌, is_empty, if◌then◌else◌}
use proxify.Go.Outcome.{Outcome, ok, err, panic, ◌>>=◌}
use proxify.Go.Strings.{Bytes, codes}
use proxify.Go.Disk.{Disk, create}
use proxify.Logger.Env.{ElasticOptions, KafkaOptions}
use proxify.Logger.Clients.{FileOptions}

-- `elasticsearch.Config`, of whose transport the TLS configuration is set.
pub record ElasticConfig : Type 0 where
  pub addresses : List Bytes
  pub username : Bytes
  pub password : Bytes
  pub insecure_skip_verify : Bool

unfoldable pub elastic_config : ElasticOptions → ElasticConfig
elastic_config o = record {
  addresses = ((if o.ssl then codes "https://" else codes "http://") ++ o.addr) ∷ [];
  username = o.username;
  password = o.password;
  insecure_skip_verify = o.ssl_verification;
}

-- A client with the index of its options; the library wraps its own error.
pub record ElasticClient (Client : Type 0) : Type 0 where
  pub index : Bytes
  pub options : ElasticOptions
  pub es_client : Client

unfoldable pub new_elastic :
    {Client : Type 0}
    → (ElasticConfig → Outcome Client)
    → ElasticOptions
    → Outcome (ElasticClient Client)
new_elastic new_client o = new_client (elastic_config o) >>= λ client.
    ok (record { index = o.index_name; options = o; es_client = client })

-- What is set of `sarama.Config`: to wait for all replicas, and how often to retry.
pub record KafkaConfig : Type 0 where
  pub waits_for_all : Bool
  pub retry_max : ℕ
  pub return_successes : Bool

unfoldable pub kafka_config : KafkaConfig
kafka_config = record { waits_for_all = true; retry_max = 10; return_successes = true }

pub record KafkaClient (Producer : Type 0) : Type 0 where
  pub producer : Producer
  pub topic : Bytes

unfoldable pub new_kafka :
    {Producer : Type 0}
    → (List Bytes → KafkaConfig → Outcome Producer)
    → KafkaOptions
    → Outcome (KafkaClient Producer)
new_kafka new_sync_producer o = new_sync_producer (o.addr ∷ []) kafka_config >>= λ producer.
    ok (record { producer = producer; topic = o.topic })

-- `New` of the file client: its folder is made, and its single file, which is emptied.
unfoldable pub new_file :
    (Bytes → Disk → Outcome (Unit {0}) × Disk) → FileOptions → Disk → Outcome (Unit {0}) × Disk
new_file create_folder o d =
    let (made, d₁) : Outcome (Unit {0}) × Disk =
      if is_empty o.output_folder then (ok tt, d) else create_folder o.output_folder d in
    elim made [
      | panic ↦ (panic, d₁)
      | err e ↦ (err e, d₁)
      | ok done ↦ if is_empty o.output_file then (ok tt, d₁) else create o.output_file d₁
    ]

-- `NewJsonLinesWriter` and `NewYamlMultiDocWriter` create their file, or empty it.
unfoldable pub new_writer : Bytes → Disk → Outcome (Unit {0}) × Disk
new_writer path d = create path d
