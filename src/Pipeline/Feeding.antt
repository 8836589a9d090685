-- ===== src/Pipeline/Feeding.antt =====
-- The changes of the source in the pipeline of Feldera: the loop of cdc-wal-reader/src/lib.rs, the
-- producer of cdc-producer/src/main.rs and the sink of feldera-connector/src/main.rs together.
use cdc_connector.Prelude.{
  ℕ, ◌≡◌, refl, sym, ap, map, ◌∙◌, false, List, [], ◌∷◌, ◌++◌, Bytes, Text, ok, ◌==◌, nat_eq,
  Bool-cases, inl, inr, append-nil, append_assoc,
}
use cdc_connector.HashMap.{HashMap, lookup, insert, map_option, lookup-insert}
use cdc_connector.Avro.Relation.{Relation}
use cdc_connector.Avro.Codec.{AvroCodec}
use cdc_connector.Decoder.Errors.{Utf8}
use cdc_connector.Decoder.Messages.{RelationMap}
use cdc_connector.Wal.{Session, Received, wal_loop}
use cdc_connector.Sink.{Consumer, consume}
use cdc_connector.Producer.{FutureRecord, FutureProducer, kafka_producer, cdc_producer}
use cdc_connector.Feldera.{Api, FelderaConnector, feldera_sink, on_relation, extract_names}
use cdc_connector.Feldera.Ingress.{Ingress}
use cdc_connector.Feldera.Fed.{Knows, lines_for}
use cdc_connector.Feldera.Feeds.{on_event-Feeds}
use cdc_connector.Pipeline.Broker.{Broker, TakesTransactions}
use cdc_connector.Pipeline.Transaction.{Handed, event, relation, lsn_of, record_of}
use cdc_connector.Pipeline.Stream.{Arrives, reported_onto}
use cdc_connector.Pipeline.Delivered.{
  stream_of, after_handed, behind, TakesHanded, Interleaved, wal_loop-consume,
}

-- The changes to one table among what a sink is handed, read with the relations of the moment.
abbrev pub handed_lines : (A : Api) → HashMap ℕ Relation → Text → List Handed → List Bytes
handed_lines A rels table [] = []
handed_lines A rels table (event e r ∷ hs) =
    lines_for A rels table e ++ handed_lines A rels table hs
handed_lines A rels table (relation q r ∷ hs) =
    handed_lines A (insert q.relation_oid q rels) table hs
handed_lines A rels table (lsn_of r ∷ hs) = handed_lines A rels table hs

map_option-insert :
    {V : Type 0} (f : Relation → V) (rels : HashMap ℕ Relation) (named : HashMap ℕ V) (r : Relation)
    (oid : ℕ)
    → lookup oid named ≡ map_option f (lookup oid rels)
    → lookup oid (insert r.relation_oid (f r) named)
      ≡ map_option f (lookup oid (insert r.relation_oid r rels))
map_option-insert f rels named r oid h = elim (Bool-cases (r.relation_oid == oid)) [
  | inl same ↦
      rw
        (
          lookup-insert r.relation_oid oid (f r) named,
          lookup-insert r.relation_oid oid r rels,
          same,
        )
        refl
  | inr differ ↦
      rw
        (
          lookup-insert r.relation_oid oid (f r) named,
          lookup-insert r.relation_oid oid r rels,
          differ,
        )
        h
]

module _ (A : Api) (I : Ingress A) where
  on_relation-Knows :
      (rels : HashMap ℕ Relation) (s : FelderaConnector A) (r : Relation)
      → Knows A rels s
      → Knows A (insert r.relation_oid r rels) (on_relation A s r).0
  unfolding on_relation
  on_relation-Knows rels s r h = record {
    table_names =
        λ oid. map_option-insert (λ r. r.name) rels s.table_names r oid (h.table_names oid);
    field_names = λ oid.
        map_option-insert (λ r. extract_names r.fields) rels s.field_names r oid
          (h.field_names oid);
  }

  after_handed-fed :
      (rels : HashMap ℕ Relation) (s : FelderaConnector A) (hs : List Handed) (table : Text)
      → Knows A rels s
      → TakesHanded (feldera_sink A) s hs
      → I.fed (after_handed (feldera_sink A) s hs).inner s.pipeline table
        ≡ I.fed s.inner s.pipeline table ++ handed_lines A rels table hs
  unfolding on_relation
  after_handed-fed rels s [] table h took = sym (append-nil (I.fed s.inner s.pipeline table))
  after_handed-fed rels s (event e r ∷ hs) table h (took, more) =
      let one = on_event-Feeds A I rels s e.rel e.op h in
      let next = ((feldera_sink A).on_event s e).0 in
      let rest : I.fed (after_handed (feldera_sink A) next hs).inner s.pipeline table
          ≡ I.fed next.inner s.pipeline table ++ handed_lines A rels table hs =
        rw one.pipeline at (after_handed-fed rels next hs table one.knows more) in
      rest
      ∙ ap (λ (xs : List Bytes). xs ++ handed_lines A rels table hs) (one.fed took table)
      ∙ append_assoc (I.fed s.inner s.pipeline table) (lines_for A rels table e)
          (handed_lines A rels table hs)
  after_handed-fed rels s (relation q r ∷ hs) table h (calm, more) =
      after_handed-fed (insert q.relation_oid q rels) (on_relation A s q).0 hs table
        (on_relation-Knows rels s q h) more
  after_handed-fed rels s (lsn_of r ∷ hs) table h took = after_handed-fed rels s hs table h took

  -- The program feeds: where the server sends transactions of messages that are decoded and written,
  -- and the broker takes the calls of the run, the loop comes to its end and its records become
  -- visible in order; a sink that reads them in any order that keeps the order within each topic, and
  -- takes the events in that order, comes to its end; then each table of the sink's pipeline is fed,
  -- behind what it was fed before, the lines of the events of the relations with its name, in the
  -- order in which they were read, and nothing else, where a relation that is read goes for the
  -- events behind it.
  pub wal_loop-feeds :
      (rels : HashMap ℕ Relation) (avro : AvroCodec) (topic key : Text) (valid : Utf8)
      (B : FutureProducer) (broker : Broker B) (s : Session B.State) (later : RelationMap)
      (received : List Received) (hs seen : List Handed)
      (rs : List (List FutureRecord × FutureRecord)) (lsns : List ℕ)
      (c : Consumer (FelderaConnector A)) (table : Text)
      → s.in_transaction ≡ false
      → Arrives valid avro (kafka_producer topic key) s.relation_map later received hs rs lsns
      → TakesTransactions B s.producer rs
      → Interleaved hs seen
      → Knows A rels c.sink
      → TakesHanded (feldera_sink A) c.sink seen
      → (s' : Session B.State) × (c' : Consumer (FelderaConnector A)) × (wal_loop
            (cdc_producer avro B (kafka_producer topic key))
            valid
            s
            received
          ≡ ok s')
        × (broker.visible s'.producer ≡ broker.visible s.producer ++ map record_of hs)
        × (consume (feldera_sink A) avro topic c (stream_of (map record_of seen)) ≡ ok c')
        × (I.fed c'.sink.inner c.sink.pipeline table
            ≡ I.fed c.sink.inner c.sink.pipeline table ++ handed_lines A rels table seen)
  wal_loop-feeds rels avro topic key valid B broker s later received hs seen rs lsns c table f
        arrives taken order h took =
      let (k, runs, grown, consumed) =
        wal_loop-consume (feldera_sink A) avro topic key valid B broker s later received hs seen rs
          lsns c f arrives taken order took in
      (
        record {
          producer = k;
          relation_map = later;
          in_transaction = false;
          applied = reported_onto lsns s.applied;
        },
        behind (feldera_sink A) c seen,
        runs,
        grown,
        consumed,
        after_handed-fed rels c.sink seen table h took,
      )
