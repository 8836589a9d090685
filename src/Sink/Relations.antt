-- ===== src/Sink/Relations.antt =====
-- `load_relations` of cdc-sink/src/lib.rs: of the messages about one relation, the latest counts.
use cdc_connector.Prelude.{
  ℕ, ◌≡◌, refl, List, [], ◌∷◌, Option, none, some, Bytes, Outcome, ok, ◌==◌, ◌++◌, ◌∙◌,
  if◌then◌else◌, map, nat_eq, Outcome-Cases, is_ok, is_err, is_panic,
}
use cdc_connector.HashMap.{HashMap, lookup, lookup-insert}
use cdc_connector.Avro.Relation.{Relation}
use cdc_connector.Avro.Codec.{AvroCodec, FromAvroError}
use cdc_connector.Sink.{Message, message, load_relations, take_payload}

abbrev decoded_result : Outcome FromAvroError Relation → List Relation
decoded_result (ok r) = r ∷ []
decoded_result _ = []

-- The relation of a payload.
abbrev decoded_one : AvroCodec → Option Bytes → List Relation
decoded_one avro none = []
decoded_one avro (some payload) = decoded_result (avro.relation_from_avro payload)

-- The relations that the messages carry, in their order.
unfoldable pub decoded : AvroCodec → List Message → List Relation
decoded avro [] = []
decoded avro (m ∷ ms) = decoded_one avro m.payload ++ decoded avro ms

-- The last relation with a number, or else the given one.
unfoldable pub latest : ℕ → Option Relation → List Relation → Option Relation
latest oid found [] = found
latest oid found (r ∷ rs) = latest oid (if r.relation_oid == oid then some r else found) rs

take_payload-latest :
    (avro : AvroCodec) (relations : HashMap ℕ Relation) (payload : Option Bytes)
    (rs : List Relation) (oid : ℕ)
    → latest oid (lookup oid (take_payload avro relations payload)) rs
      ≡ latest oid (lookup oid relations) (decoded_one avro payload ++ rs)
unfolding latest
take_payload-latest avro relations none rs oid = refl
take_payload-latest avro relations (some payload) rs oid =
    elim (Outcome-Cases (avro.relation_from_avro payload)) [
      | is_ok r e ↦ rw (e, lookup-insert r.relation_oid oid r relations) refl
      | is_err x e ↦ rw e refl
      | is_panic e ↦ rw e refl
    ]

-- Without an error of the stream, `load_relations` returns a map that holds, for every number, the
-- last decoded relation with that number, or else what the given map holds.
pub load_relations-latest :
    (avro : AvroCodec) (relations : HashMap ℕ Relation) (ms : List Message) (oid : ℕ)
    → (loaded : HashMap ℕ Relation) × (load_relations avro relations (map message ms) ≡ ok loaded)
      × (lookup oid loaded ≡ latest oid (lookup oid relations) (decoded avro ms))
unfolding load_relations decoded latest
load_relations-latest avro relations [] oid = (relations, refl, refl)
load_relations-latest avro relations (m ∷ ms) oid =
    let (loaded, e, l) =
      load_relations-latest avro (take_payload avro relations m.payload) ms oid in
    (loaded, e, l ∙ take_payload-latest avro relations m.payload (decoded avro ms) oid)
