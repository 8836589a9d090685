-- ===== src/Pipeline/FeedingTests.antt =====
-- The lines that a connection with a relation and an insert feeds to a Feldera pipeline in memory.
use cdc_connector.Pipeline.Transaction.{record_of}
use cdc_connector.Prelude.{map, ◌≡◌, refl, [], ◌∷◌, ok, codes}
use cdc_connector.Feldera.{
  FelderaConnector, feldera_connector, feldera_sink, on_event, on_relation, insert_merged,
  insert_batch, convert_op_batches, convert_op, convert_row, zip_row, to_lines, to_sink_result,
  extract_names,
}
use cdc_connector.Avro.Event.{merge_toasted, merge_row}
use cdc_connector.Wal.{Session, wal_loop}
use cdc_connector.Sink.{Consumer, consume, table_names_of}
use cdc_connector.Producer.{cdc_producer}
use cdc_connector.Feldera
use cdc_connector.Feldera.Fed.{Knows}
use cdc_connector.Feldera.Collecting.{collecting, ingress}
use cdc_connector.Pipeline.Delivered.{stream_of, TakesHanded}
use cdc_connector.Pipeline.Feeding.{handed_lines, wal_loop-feeds}
use cdc_connector.Pipeline.Fixtures.{
  Kept, keeping, broker, producer, outside, valid, one_event, known, connection, sent, late,
  late_lsn, transactions, taken, arrives,
}

-- A sink that knows no relation yet.
abbrev start : FelderaConnector collecting
start = feldera_connector collecting (λ p t. []) (codes "cdc") []

abbrev empty_sink : Consumer (FelderaConnector collecting)
empty_sink = record { sink = start; committed = [] }

start-Knows : Knows collecting [] start
unfolding feldera_connector table_names_of
start-Knows = record { table_names = λ oid. refl; field_names = λ oid. refl }

takes_seen : TakesHanded (feldera_sink collecting) start late
unfolding on_event on_relation insert_merged merge_toasted merge_row insert_batch convert_op_batches
    convert_op convert_row zip_row to_lines Feldera.sent to_sink_result feldera_connector
    table_names_of extract_names
takes_seen = ((λ e. cc), (refl, tt))

wal_loop-feeds_example :
    (s' : Session Kept) × (c' : Consumer (FelderaConnector collecting)) × (wal_loop
        (cdc_producer one_event keeping producer)
        valid
        outside
        connection
      ≡ ok s')
    × (s'.producer.0 ≡ map record_of sent)
    × (consume
          (feldera_sink collecting)
          one_event
          (codes "cdc")
          empty_sink
          (stream_of (map record_of late))
        ≡ ok c')
    × (c'.sink.inner (codes "cdc") (codes "users")
        ≡ handed_lines collecting [] (codes "users") late)
unfolding feldera_connector
wal_loop-feeds_example =
    wal_loop-feeds collecting ingress [] one_event (codes "cdc") (codes "k") valid keeping broker
      outside known connection sent late transactions (40 ∷ []) empty_sink (codes "users") refl
      arrives taken late_lsn start-Knows takes_seen

-- The new row, as a line.
users_lines : handed_lines collecting [] (codes "users") late ≡ codes "+.." ∷ []
unfolding zip_row extract_names
users_lines = refl
