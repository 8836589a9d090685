-- ===== src/Avro/Codec.antt =====
-- `into_avro` and `from_avro` of cdc-avro/src/lib.rs: the crate serde_avro_fast with the two schemas
-- is a parameter, given here as the functions that the rest of the program calls.
use cdc_connector.Prelude.{Bytes, Text, Outcome, ◌⊎◌}
use cdc_connector.Avro.Relation.{Relation}
use cdc_connector.Avro.Event.{ChangeEvent}

pub data FromAvroError : Type 0 where
  no_events avro : FromAvroError

-- The error of writing is its text: it is only passed on as one.
pub record AvroCodec : Type 0 where
  pub event_into_avro : ChangeEvent → Text ⊎ Bytes
  pub event_from_avro : Bytes → Outcome FromAvroError ChangeEvent
  pub relation_into_avro : Relation → Text ⊎ Bytes
  pub relation_from_avro : Bytes → Outcome FromAvroError Relation
