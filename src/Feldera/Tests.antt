-- ===== src/Feldera/Tests.antt =====
-- The repository's own test of the events of Feldera, up to the text that a crate writes, and the
-- theorems about the Feldera sink at concrete batches.
use cdc_connector.Prelude.{
  ℕ, suc, inr, err, ◌≡◌, refl, List, [], ◌∷◌, some, none, ok, Text, codes, pos, text_eq, nat_eq,
}
use cdc_connector.HashMap.{HashMap}
use cdc_connector.Avro.Value.{PgValue}
use cdc_connector.Avro.Json.{FormatMicros, to_json_value, string, number}
use cdc_connector.Avro.Event.{Op, ChangeEvent}
use cdc_connector.Avro.Codec.{AvroCodec, no_events}
use cdc_connector.Sink.{Consumer, Streamed, message, kafka_error}
use cdc_connector.Feldera.{
  Api, FelderaConnector, FelderaEvent, convert_row, zip_row, convert_op, convert_op_batches,
}

abbrev no_date : FormatMicros
no_date t = none

abbrev two_names : List Text
two_names = codes "id" ∷ codes "name" ∷ []

abbrev names : HashMap ℕ (List Text)
names = (1, two_names) ∷ []

abbrev ann : List PgValue
ann = PgValue.int4 (pos 7) ∷ PgValue.text (codes "ann") ∷ []

abbrev inserted : ChangeEvent
inserted = record { op = Op.insert ann; rel = 1 }

-- The order within the map is that of its list.
feldera_event_json_shape :
    convert_op_batches no_date ((16386, two_names) ∷ []) (
      record {
        op = Op.insert (PgValue.int4 (pos 1) ∷ PgValue.text (codes "Ada") ∷ []);
        rel = 16386;
      }
      ∷ [])
    ≡ ok (
        FelderaEvent.insert
          ((codes "name", string (codes "Ada")) ∷ (codes "id", number (pos 1)) ∷ [])
        ∷ [])
unfolding convert_op_batches convert_op convert_row zip_row to_json_value
feldera_event_json_shape = refl

-- A pipeline that refuses every request.
abbrev refusing : Api
refusing = record {
  State = ℕ;
  format = no_date;
  to_json = λ e. inr [];
  http_input = λ n pipeline table body. (suc n, some (codes "busy"));
}

abbrev one_event : AvroCodec
one_event = record {
  event_into_avro = λ e. inr [];
  event_from_avro = λ bytes. ok inserted;
  relation_into_avro = λ r. inr [];
  relation_from_avro = λ bytes. err no_events;
}

abbrev start : Consumer (FelderaConnector refusing)
start = record {
  sink = record {
    inner = 0;
    pipeline = codes "cdc";
    table_names = (1, codes "users") ∷ [];
    field_names = names;
  };
  committed = [];
}

abbrev arriving : List Streamed
arriving =
    kafka_error
    ∷ message (record { topic = codes "cdc.events.public.users"; payload = some [] })
    ∷ message (record { topic = codes "cdc.relations"; payload = some [] })
    ∷ []
