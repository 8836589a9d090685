-- ===== src/Sink/Tests.antt =====
-- The theorems about the loops of cdc-sink/src/lib.rs at concrete streams.
use cdc_connector.Prelude.{
  ℕ, zero, suc, ◌≡◌, ◌≢◌, List, [], ◌∷◌, some, none, ok, err, panic, Text, codes, inr, arith, map,
  All, nat_eq,
}
use cdc_connector.HashMap.{HashMap, lookup}
use cdc_connector.Avro.Kind.{ReplicaKind}
use cdc_connector.Avro.Relation.{Relation}
use cdc_connector.Avro.Event.{Op, ChangeEvent}
use cdc_connector.Avro.Codec.{AvroCodec}
use cdc_connector.Sink.{
  KafkaSink, Message, message, kafka_error, Streamed, Consumer, toasted_in_key_only, load_relations,
  consume,
}
use cdc_connector.Sink.Relations.{decoded, latest, load_relations-latest}
use cdc_connector.Sink.Dispatch.{Taken, consume-Taken}

abbrev users : Relation
users = record {
  relation_oid = 1;
  name = codes "users";
  namespace = codes "public";
  fields = [];
  replica_id = ReplicaKind.keys;
}

abbrev one_event : AvroCodec
one_event = record {
  event_into_avro = λ e. inr [];
  event_from_avro = λ bytes. ok (record { op = Op.insert []; rel = 1 });
  relation_into_avro = λ r. inr [];
  relation_from_avro = λ bytes. ok users;
}

abbrev on_events : Text → Message
on_events topic = record { topic = topic; payload = some [] }

load_relations-latest_example :
    (loaded : HashMap ℕ Relation) × (load_relations one_event []
        (map message (on_events (codes "cdc.relations") ∷ []))
      ≡ ok loaded)
    × (lookup 1 loaded ≡ latest 1 none (decoded one_event (on_events (codes "cdc.relations") ∷ [])))
load_relations-latest_example =
    load_relations-latest one_event [] (on_events (codes "cdc.relations") ∷ []) 1

-- A sink that refuses its first event.
abbrev refuses_first : KafkaSink
refuses_first = record {
  State = ℕ;
  on_event = λ n e. (suc n, elim n [ zero ↦ err toasted_in_key_only | suc k ↦ ok tt ]);
  on_relation = λ n r. (n, ok tt);
}

event_calm :
    (n : ℕ) (e : ChangeEvent) → Unit {0} → ((refuses_first.on_event n e).1 ≢ panic) × Unit {0}
event_calm zero e u = ((λ h. ground (arith, h)), tt)
event_calm (suc n) e u = ((λ h. ground (arith, h)), tt)

relation_calm :
    (n : ℕ) (r : Relation) → Unit {0} → ((refuses_first.on_relation n r).1 ≢ panic) × Unit {0}
relation_calm n r u = ((λ h. ground (arith, h)), tt)

abbrev start : Consumer ℕ
start = record { sink = 0; committed = [] }

abbrev arriving : List Streamed
arriving =
    message (on_events (codes "cdc.events.public.users"))
    ∷ kafka_error
    ∷ message (on_events (codes "cdc.events.public.users"))
    ∷ []

consume-Taken_example :
    (c' : Consumer ℕ) × (consume refuses_first one_event (codes "cdc") start arriving ≡ ok c')
    × (All (Taken refuses_first one_event (codes "cdc")) c'.committed × Unit {0})
consume-Taken_example =
    consume-Taken refuses_first one_event (codes "cdc") (λ n. Unit {0}) event_calm relation_calm
      start arriving tt tt
