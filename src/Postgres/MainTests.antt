-- ===== src/Postgres/MainTests.antt =====
-- The theorems about the start and the statement caches of postgres-connector/src at concrete
-- inputs.
use cdc_connector.Prelude.{
  ℕ, subst, Outcome, ◌≡◌, refl, true, List, [], ◌∷◌, ◌++◌, some, none, ok, Text, pos, codes, inr,
  All, nat_eq,
}
use cdc_connector.Avro.Kind.{FieldKind, ReplicaKind}
use cdc_connector.Avro.Value.{PgValue}
use cdc_connector.Avro.Relation.{Relation}
use cdc_connector.Avro.Codec.{AvroCodec, FromAvroError}
use cdc_connector.Avro.Event.{Op, ChangeEvent}
use cdc_connector.Sink.{message, Streamed, kafka_error, Consumer, consume, load_relations}
use cdc_connector.Sink.Client.{
  KafkaConfig, StreamConsumer, KafkaClient, connect, load_all_relations,
  reset_committed_offsets_and_assign, add_partitions,
}
use cdc_connector.Sink.Dispatch.{Taken, Carries}
use cdc_connector.Postgres.Relations.{from_rels}
use cdc_connector.Postgres.Refresh.{from_rels-Follows}
use cdc_connector.Postgres.Sink.{Client, PostgresSink, postgres_sink, get_upsert}
use cdc_connector.Postgres.Rows.{Followed, WritableEvent}
use cdc_connector.Postgres.Replica.Memory.{plain_encoder}
use cdc_connector.Postgres.Main.{PostgresConfig, to_postgres_string, main, main-consumes}
use cdc_connector.Postgres.Statements.{decimal}
use cdc_connector.Postgres.Stale.{consume-stale}

-- A database that takes every statement.
abbrev server : Client
server = record {
  State = Unit;
  Statement = Text;
  encoder = plain_encoder;
  prepare = λ s t. (s, inr t);
  execute = λ s stmt values. (s, none);
}

abbrev users : Relation
users = record {
  relation_oid = 1;
  name = codes "users";
  namespace = codes "public";
  fields = record { is_key = true; name = codes "id"; kind = FieldKind.int4 } ∷ [];
  replica_id = ReplicaKind.keys;
}

abbrev seven : ChangeEvent
seven = record { op = Op.insert (PgValue.int4 (pos 7) ∷ []); rel = 1 }

abbrev one_event : AvroCodec
one_event = record {
  event_into_avro = λ e. inr [];
  event_from_avro = λ bytes. ok seven;
  relation_into_avro = λ r. inr [];
  relation_from_avro = λ bytes. ok users;
}

abbrev relation_arrives : List Streamed
relation_arrives = message (record { topic = codes "cdc.relations"; payload = some [] }) ∷ []

abbrev arriving : List Streamed
arriving =
    kafka_error
    ∷ message (record { topic = codes "cdc.relations"; payload = some [] })
    ∷ message (record { topic = codes "cdc.events.public.users"; payload = some [] })
    ∷ []

-- A consumer with a topic of two partitions: its state is what it was assigned and subscribed to.
abbrev replaying : StreamConsumer
replaying = record {
  State = List ℕ × List Text;
  Partitions = List ℕ;
  create = λ config. some ([], []);
  fetch_metadata = λ s topic. ok ((0 ∷ 1 ∷ []) ∷ []);
  no_partitions = [];
  add_partition = λ ids topic id. inr (ids ++ id ∷ []);
  assign = λ s ids. ok (ids, s.1);
  replay = λ s. relation_arrives;
  subscribe = λ s topics. some (s.0, topics);
  events = λ s. arriving;
}

abbrev kafka : KafkaConfig
kafka = record { brokers = codes "localhost"; topic = codes "cdc"; groupid = codes "default" }

abbrev postgres : PostgresConfig
postgres = record { host = codes "db"; user = codes "u"; password = codes "p"; port = 5432 }

connects_with : to_postgres_string postgres ≡ codes "host=db user=u password=p port=5432"
unfolding to_postgres_string decimal
connects_with = refl

abbrev connected : KafkaClient replaying
connected = record { consumer = ([], []); topic = codes "cdc" }

abbrev loaded : KafkaClient replaying
loaded = record { consumer = (0 ∷ 1 ∷ [], []); topic = codes "cdc" }

connects : connect replaying kafka ≡ ok connected
unfolding connect
connects = refl

loads : load_all_relations replaying one_event connected ≡ ok (loaded, (1, users) ∷ [])
unfolding load_all_relations reset_committed_offsets_and_assign add_partitions load_relations
loads = refl

seven-Writable :
    (e : ChangeEvent)
    → ◌≡◌ {A = Outcome FromAvroError ChangeEvent} (ok seven) (ok e)
    → WritableEvent server e
seven-Writable e decodes = let same : seven ≡ e = cc in subst (WritableEvent server) same (tt, tt)

arriving-Writable :
    All (Carries (postgres_sink server) one_event (codes "cdc") (WritableEvent server)) arriving
arriving-Writable = (
  tt,
  (
    (λ payload e has decodes. seven-Writable e decodes),
    ((λ payload e has decodes. seven-Writable e decodes), tt),
  ),
)

main-consumes_example :
    (c : Consumer (PostgresSink server)) × (main server replaying one_event
        (λ t. some tt)
        kafka
        postgres
      ≡ ok c)
    × (All (Taken (postgres_sink server) one_event (codes "cdc")) c.committed
        × Followed server c.sink)
main-consumes_example =
    main-consumes server replaying one_event (λ t. some tt) kafka postgres connected loaded
      ((1, users) ∷ []) tt (0 ∷ 1 ∷ [], codes "^cdc\\.events\\..*" ∷ codes "cdc.relations" ∷ [])
      connects loads refl refl arriving-Writable

-- A sink with a statement of an older form of the relation.
abbrev old_statement : Consumer (PostgresSink server)
old_statement = record {
  sink = record {
    client = tt;
    upserts = (1, codes "INSERT INTO users (uid) VALUES ($1)") ∷ [];
    deletes = [];
    relations = from_rels [];
  };
  committed = [];
}

consume-stale_example :
    (c' : Consumer (PostgresSink server)) × (consume
        (postgres_sink server)
        one_event
        (codes "cdc")
        old_statement
        arriving
      ≡ ok c')
    × (get_upsert server c'.sink 1 ≡ (c'.sink, ok (codes "INSERT INTO users (uid) VALUES ($1)")))
consume-stale_example =
    consume-stale server 1 (codes "INSERT INTO users (uid) VALUES ($1)") one_event (codes "cdc")
      old_statement arriving arriving-Writable tt ([], from_rels-Follows []) refl
