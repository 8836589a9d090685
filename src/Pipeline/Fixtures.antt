-- ===== src/Pipeline/Fixtures.antt =====
-- A connection with a relation and an insert, a codec, and a broker in memory, for the tests.
use cdc_connector.Prelude.{
  ◌≢◌, text_beq_iff, ◌≡◌, refl, true, false, List, [], ◌∷◌, ◌++◌, none, ok, inr, Bytes, codes,
}
use cdc_connector.Avro.Event.{Op, ChangeEvent}
use cdc_connector.Avro.Codec.{AvroCodec}
use cdc_connector.Decoder.Errors.{Utf8}
use cdc_connector.Decoder.Fixtures.{get_example_rel_data_keys}
use cdc_connector.Decoder.NullWord.{find_null_word}
use cdc_connector.Decoder.RelationData
use cdc_connector.Decoder.RelationData.{RelationData}
use cdc_connector.Decoder.TupleData
use cdc_connector.Decoder.Messages.{RelationMap, parse_insert, find_relation, get_new_tuple_data}
use cdc_connector.Wal.{Session, Received, event, begin, commit, keep_alive}
use cdc_connector.Wal.Delivery.{Decodes, inserted, Quiet}
use cdc_connector.Producer.{
  FutureRecord, FutureProducer, KafkaProducer, kafka_producer, event_record, relation_record,
  lsn_record,
}
use cdc_connector.Postgres.Replica.Fixtures.{users, ann}
use cdc_connector.Pipeline.Broker.{Broker, TakesTransactions}
use cdc_connector.Pipeline.Delivered.{Interleaved}
use cdc_connector.Producer.{event_topic}
use cdc_connector.Pipeline.Transaction.{Sends, Handed, changes}
use cdc_connector.Pipeline.Stream.{Arrives}

abbrev pub valid : Utf8
valid _ = true

abbrev pub users_data : RelationData
users_data = get_example_rel_data_keys

abbrev pub known : RelationMap
known = (1, users_data) ∷ []

-- The relation, as the server describes it.
abbrev pub relation_tail : Bytes
relation_tail =
    0
    ∷ 0
    ∷ 0
    ∷ 1
    ∷ (codes "public"
        ++ (0
            ∷ (codes "users"
                ++ (0
                    ∷ b'd'
                    ∷ 0
                    ∷ 2
                    ∷ 1
                    ∷ (codes "id"
                        ++ (0
                            ∷ 0
                            ∷ 0
                            ∷ 0
                            ∷ 23
                            ∷ 0
                            ∷ 0
                            ∷ 0
                            ∷ 0
                            ∷ 0
                            ∷ (codes "name" ++ (0 ∷ 0 ∷ 0 ∷ 0 ∷ 25 ∷ 0 ∷ 0 ∷ 0 ∷ 0 ∷ []))))))))

abbrev pub insert_tail : Bytes
insert_tail =
    0
    ∷ 0
    ∷ 0
    ∷ 1
    ∷ b'N'
    ∷ 0
    ∷ 2
    ∷ b'b'
    ∷ 0
    ∷ 0
    ∷ 0
    ∷ 4
    ∷ 0
    ∷ 0
    ∷ 0
    ∷ 1
    ∷ b't'
    ∷ 0
    ∷ 0
    ∷ 0
    ∷ 3
    ∷ codes "ann"

abbrev pub ann_inserted : ChangeEvent
ann_inserted = record { op = Op.insert ann; rel = 1 }

decodes_users : RelationData.parse valid (b'R' ∷ relation_tail) ≡ ok users_data
unfolding RelationData.parse RelationData.extract_string RelationData.parse_fields
    RelationData.parse_field RelationData.parse_physical RelationData.replica_kind
    RelationData.relation_data find_null_word
decodes_users = refl

decodes_ann : Decodes valid known ann_inserted users_data (b'I' ∷ insert_tail)
unfolding parse_insert find_relation get_new_tuple_data TupleData.parse TupleData.parse_each
    TupleData.parse_value TupleData.parse_binary_value TupleData.parse_binary
    TupleData.parse_text_value
decodes_ann = inserted insert_tail refl

abbrev pub one_event : AvroCodec
one_event = record {
  event_into_avro = λ e. inr (1 ∷ []);
  event_from_avro = λ bytes. ok ann_inserted;
  relation_into_avro = λ r. inr (2 ∷ []);
  relation_from_avro = λ bytes. ok users;
}

-- A broker that keeps the committed records and the pending ones.
abbrev pub Kept : Type 0
Kept = List FutureRecord × List FutureRecord

abbrev pub keeping : FutureProducer
keeping = record {
  State = Kept;
  begin_transaction = λ s. ((s.0, []), none);
  send = λ s r. ((s.0, s.1 ++ r ∷ []), none);
  commit_transaction = λ s. ((s.0 ++ s.1, []), none);
  abort_transaction = λ s. ((s.0, []), none);
}

abbrev pub broker : Broker keeping
broker = record {
  visible = λ s. s.0;
  pending = λ s. s.1;
  begin_visible = λ s. refl;
  begin_pending = λ s h. refl;
  send_visible = λ s r. refl;
  send_pending = λ s r h. refl;
  commit_visible = λ s h. refl;
  abort_visible = λ s. refl;
}

abbrev pub producer : KafkaProducer
producer = kafka_producer (codes "cdc") (codes "k")

abbrev pub outside : Session Kept
outside = record { producer = ([], []); relation_map = []; in_transaction = false; applied = [] }

abbrev pub ann_record : FutureRecord
ann_record = event_record producer users (1 ∷ [])

abbrev pub handed : List Handed
handed =
    Handed.relation users (relation_record producer users (2 ∷ []))
    ∷ Handed.event ann_inserted ann_record
    ∷ []

abbrev pub messages : List Bytes
messages = (b'R' ∷ relation_tail) ∷ (b'I' ∷ insert_tail) ∷ []

abbrev pub records : List FutureRecord
records = relation_record producer users (2 ∷ []) ∷ ann_record ∷ []

pub Sends-ann : Sends valid one_event producer [] known messages handed records
Sends-ann = Sends.describe decodes_users refl refl (Sends.cons decodes_ann refl refl Sends.nil)

abbrev pub connection : List Received
connection =
    event keep_alive ∷ event begin ∷ changes messages
    ++ event (commit 40 41) ∷ event keep_alive ∷ []

-- What is read of the connection, in the order of the transaction, and with the event first.
abbrev pub sent : List Handed
sent = handed ++ Handed.lsn_of (lsn_record producer 41) ∷ []

abbrev pub seen : List Handed
seen =
    Handed.event ann_inserted ann_record
    ∷ Handed.relation users (relation_record producer users (2 ∷ []))
    ∷ Handed.lsn_of (lsn_record producer 41)
    ∷ []

abbrev pub transactions : List (List FutureRecord × FutureRecord)
transactions = (records, lsn_record producer 41) ∷ []

pub taken : TakesTransactions keeping ([], []) transactions
taken = ((refl, (refl, (refl, tt)), refl, refl), tt)

relations_apart : (relation_record producer users (2 ∷ [])).topic ≢ ann_record.topic
unfolding relation_record event_record kafka_producer event_topic
relations_apart e =
    let same =
      (text_beq_iff (relation_record producer users (2 ∷ [])).topic ann_record.topic).1 e in
    cc

pub reordered : Interleaved sent seen
reordered = Interleaved.swap relations_apart

-- The LSN read in front of the event.
abbrev pub late : List Handed
late =
    Handed.relation users (relation_record producer users (2 ∷ []))
    ∷ Handed.lsn_of (lsn_record producer 41)
    ∷ Handed.event ann_inserted ann_record
    ∷ []

lsn_apart : ann_record.topic ≢ (lsn_record producer 41).topic
unfolding lsn_record event_record kafka_producer event_topic
lsn_apart e = let same = (text_beq_iff ann_record.topic (lsn_record producer 41).topic).1 e in cc

pub late_lsn : Interleaved sent late
late_lsn = Interleaved.keep (Interleaved.swap lsn_apart)

pub arrives : Arrives valid one_event producer [] known connection sent transactions (40 ∷ [])
arrives =
    Arrives.between Quiet.keep_alive_event
      (Arrives.transaction 40 41 Sends-ann (Arrives.between Quiet.keep_alive_event Arrives.closed))
