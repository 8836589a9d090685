-- ===== src/Pipeline/Stream.antt =====
-- What a whole connection becomes for the readers of the broker: many transactions, with what the
-- server sends between them (`start_wal_input` of cdc-wal-reader/src/lib.rs over the producer of
-- cdc-producer/src/main.rs).
use cdc_connector.Prelude.{
  ℕ, ◌≡◌, refl, false, List, [], ◌∷◌, ◌++◌, Bytes, ok, arith, ap, sym, ◌∙◌, append_assoc,
  append-nil,
}
use cdc_connector.Avro.Codec.{AvroCodec}
use cdc_connector.Decoder.Errors.{Utf8}
use cdc_connector.Decoder.Messages.{RelationMap}
use cdc_connector.Wal.{Session, Received, event, ReplicationEvent, begin, commit, wal_loop, close}
use cdc_connector.Wal.Delivery.{Quiet, handle-Quiet}
use cdc_connector.Producer.{FutureRecord, FutureProducer, KafkaProducer, lsn_record, cdc_producer}
use cdc_connector.Pipeline.Broker.{Broker, after_transaction, TakesTransactions, flatten}
use cdc_connector.Pipeline.Transaction.{Sends, Handed, changes, wal_loop-visible}

-- What is received, up to the end of the connection: transactions of messages that are decoded and
-- written, and between them what the loop passes over; what it is decoded to, the records, and the
-- LSNs of the commits.
pub data Arrives (valid : Utf8) (avro : AvroCodec) (p : KafkaProducer)
    : RelationMap
      → RelationMap
      → List Received
      → List Handed
      → List (List FutureRecord × FutureRecord)
      → List ℕ
      → Type 0 where
  closed : {known : RelationMap} → Arrives valid avro p known known [] [] [] []
  between :
      {known later : RelationMap} {e : ReplicationEvent} {rest : List Received} {hs : List Handed}
      {rs : List (List FutureRecord × FutureRecord)} {lsns : List ℕ}
      → Quiet e
      → Arrives valid avro p known later rest hs rs lsns
      → Arrives valid avro p known later (event e ∷ rest) hs rs lsns
  transaction :
      {known middle later : RelationMap} {ms : List Bytes} {hs hs' : List Handed}
      {rs : List FutureRecord} {rs' : List (List FutureRecord × FutureRecord)} {lsns : List ℕ}
      {rest : List Received} (lsn end_lsn : ℕ)
      → Sends valid avro p known middle ms hs rs
      → Arrives valid avro p middle later rest hs' rs' lsns
      → Arrives valid avro p known later
          (event begin ∷ changes ms ++ event (commit lsn end_lsn) ∷ rest)
          (hs ++ Handed.lsn_of (lsn_record p end_lsn) ∷ hs')
          ((rs, lsn_record p end_lsn) ∷ rs')
          (lsn ∷ lsns)

-- LSNs that are reported one after the other, the latest first.
abbrev pub reported_onto : List ℕ → List ℕ → List ℕ
reported_onto [] applied = applied
reported_onto (lsn ∷ lsns) applied = reported_onto lsns (lsn ∷ applied)

module _ (valid : Utf8) (avro : AvroCodec) (K : FutureProducer) (p : KafkaProducer)
    (broker : Broker K) where
  -- The loop comes to the end of such a connection outside a transaction, with every commit
  -- reported, and adds exactly the records of its transactions to those that are visible, in order.
  pub wal_loop-Arrives :
      (known later : RelationMap) (s : Session K.State) (received : List Received)
      (hs : List Handed) (rs : List (List FutureRecord × FutureRecord)) (lsns : List ℕ)
      → Arrives valid avro p known later received hs rs lsns
      → s.relation_map ≡ known
      → s.in_transaction ≡ false
      → TakesTransactions K s.producer rs
      → (k : K.State) × (wal_loop (cdc_producer avro K p) valid s received
          ≡ ok (record {
            producer = k;
            relation_map = later;
            in_transaction = false;
            applied = reported_onto lsns s.applied;
          }))
        × (broker.visible k ≡ broker.visible s.producer ++ flatten rs)
  unfolding wal_loop
  wal_loop-Arrives known later s received hs rs lsns closed same f taken = (
    s.producer,
    (unfold close in ground (arith, same, f)),
    sym (append-nil (broker.visible s.producer)),
  )
  wal_loop-Arrives known later s received hs rs lsns (between {e = e} {rest = rest} q more) same f
        taken =
      let (k, runs, seen) = wal_loop-Arrives known later s rest hs rs lsns more same f taken in
      (k, rw (handle-Quiet (cdc_producer avro K p) valid s e f q) runs, seen)
  wal_loop-Arrives known later s received hs rs lsns
        (transaction {middle = middle} {ms = ms} {hs = now} {hs' = hs'} {rs = sent} {rs' = rs'}
          {lsns = lsns'} {rest = rest} lsn end_lsn ds more)
        same f (one, taken) =
      let (runs, seen) =
        wal_loop-visible valid avro K p broker s middle ms now sent lsn end_lsn rest f (rw same ds)
          one in
      let behind : Session K.State = record {
        producer = after_transaction K s.producer (sent, lsn_record p end_lsn);
        relation_map = middle;
        in_transaction = false;
        applied = lsn ∷ s.applied;
      } in
      let (k', runs', seen') =
        wal_loop-Arrives middle later behind rest hs' rs' lsns' more refl refl taken in
      (
        k',
        runs ∙ runs',
        seen'
            ∙ ap (λ (xs : List FutureRecord). xs ++ flatten rs') seen
            ∙ append_assoc (broker.visible s.producer) (sent ++ lsn_record p end_lsn ∷ [])
                (flatten rs'),
      )
