-- ===== src/Producer/Tests.antt =====
-- The theorems about the Kafka producer at concrete records.
use cdc_connector.Prelude.{
  ◌≡◌, refl, List, [], ◌∷◌, ◌++◌, some, none, ok, codes, inr, map, true, Text,
}
use cdc_connector.Avro.Kind.{ReplicaKind}
use cdc_connector.Avro.Relation.{Relation}
use cdc_connector.Avro.Event.{Op, ChangeEvent}
use cdc_connector.Avro.Codec.{AvroCodec}
use cdc_connector.Sink.{
  KafkaSink, Message, message, Consumer, after_event, after_relation, consume_message,
}
use cdc_connector.Decoder.Errors.{Utf8}
use cdc_connector.Wal.{event, begin, commit}
use cdc_connector.Wal.Identity.{Database, configure_replica_identity, alter_tables}
use cdc_connector.Producer.Main.{Connections, ProducerConfig}
use cdc_connector.Producer.{
  FutureRecord, FutureProducer, AdminClient, check_topics, ensure_topic, ensure_db_topics,
  KafkaProducer, kafka_producer, event_record, relation_record, lsn_record,
}
use cdc_connector.Producer.Topics.{delivered, consume_message-records}

abbrev users : Relation
users = record {
  relation_oid = 1;
  name = codes "users";
  namespace = codes "public";
  fields = [];
  replica_id = ReplicaKind.keys;
}

abbrev inserted : ChangeEvent
inserted = record { op = Op.insert []; rel = 1 }

abbrev one_event : AvroCodec
one_event = record {
  event_into_avro = λ e. inr (1 ∷ []);
  event_from_avro = λ bytes. ok inserted;
  relation_into_avro = λ r. inr (2 ∷ []);
  relation_from_avro = λ bytes. ok users;
}

-- A sink that keeps what it gets.
abbrev keeping : KafkaSink
keeping = record {
  State = List ChangeEvent;
  on_event = λ es e. (e ∷ es, ok tt);
  on_relation = λ es r. (es, ok tt);
}

abbrev producer : KafkaProducer
producer = kafka_producer (codes "cdc") (codes "k")

abbrev start : Consumer (List ChangeEvent)
start = record { sink = []; committed = [] }

consume_message-records_example :
    (consume_message keeping one_event
        (codes "cdc")
        start
        (message (delivered (event_record producer users (1 ∷ []))))
      ≡ after_event keeping start
          (delivered (event_record producer users (1 ∷ [])))
          (inserted ∷ [], ok tt))
    × (consume_message keeping one_event
          (codes "cdc")
          start
          (message (delivered (relation_record producer users (2 ∷ []))))
        ≡ after_relation keeping start ([], ok tt))
    × (consume_message keeping one_event
          (codes "cdc")
          start
          (message (delivered (lsn_record producer 77)))
        ≡ ok start)
consume_message-records_example =
    consume_message-records keeping one_event (codes "cdc") (codes "k") start users inserted
      (1 ∷ []) (2 ∷ []) 77 refl refl

abbrev empty_message : Message
empty_message = record { topic = codes "cdc.lsn"; payload = none }

abbrev cut_message : Message
cut_message = record { topic = codes "cdc.lsn"; payload = some (1 ∷ []) }

-- A database, an administration and a broker that do all they are asked.
abbrev database : Database
database = record { State = Unit; query = λ s t. ok []; execute = λ s t. ok s }

abbrev admin : AdminClient
admin = record {
  State = List Text;
  fetch_metadata = λ s topic. ok [];
  create_topics = λ s topic. ok (topic.name ∷ s);
}

abbrev sending : FutureProducer
sending = record {
  State = List FutureRecord;
  begin_transaction = λ s. (s, none);
  send = λ s r. (r ∷ s, none);
  commit_transaction = λ s. (s, none);
  abort_transaction = λ s. ([], none);
}

abbrev utf8 : Utf8
utf8 _ = true

-- The server answers with the LSN that it was asked for.
abbrev connections : Connections sending
connections = record {
  init_transactions = some [];
  lsn_stream =
      λ topic. ok (map message ((empty_message ∷ []) ++ delivered (lsn_record producer 77) ∷ []));
  replicate = λ lsn. ok (event begin ∷ event (commit lsn lsn) ∷ []);
}

abbrev config : ProducerConfig
config = record {
  topic = codes "cdc";
  key = codes "k";
  publication = codes "pub";
  will_connect_to_feldera = true;
}

configures : configure_replica_identity database tt (codes "pub") true ≡ ok (tt, [])
unfolding configure_replica_identity alter_tables
configures = refl

creates : check_topics admin [] (codes "cdc") [] ≡ ok (codes "cdc.relations" ∷ codes "cdc.lsn" ∷ [])
unfolding check_topics ensure_topic ensure_db_topics
creates = refl
