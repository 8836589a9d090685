-- ===== src/Wal/Recorded.antt =====
-- A producer that keeps the calls made of it, around any producer: what the loop asks for can then
-- be stated for every producer at once.
use cdc_connector.Prelude.{ℕ, List, ◌∷◌}
use cdc_connector.Avro.Relation.{Relation}
use cdc_connector.Avro.Event.{ChangeEvent}
use cdc_connector.Wal.{Reply, Producer}

-- A call, with the reply where it matters.
pub data Call : Type 0 where
  start : Call
  send : ChangeEvent → Reply → Call
  relation : Relation → Call
  commit : ℕ → Reply → Call
  abort : Call

-- A state of the inner producer and the calls so far, the latest first.
pub record Log (S : Type 0) : Type 0 where
  pub inner : S
  pub calls : List Call

abbrev pub recorded : Producer → Producer
recorded P = record {
  State = Log P.State;
  start_transaction = λ l.
      let (p, r) = P.start_transaction l.inner in
      (record { inner = p; calls = start ∷ l.calls }, r);
  send = λ l rel e.
      let (p, r) = P.send l.inner rel e in (record { inner = p; calls = send e r ∷ l.calls }, r);
  on_relation = λ l rel.
      let (p, r) = P.on_relation l.inner rel in
      (record { inner = p; calls = relation rel ∷ l.calls }, r);
  commit_transaction = λ l n.
      let (p, r) = P.commit_transaction l.inner n in
      (record { inner = p; calls = commit n r ∷ l.calls }, r);
  abort_transaction = λ l.
      let (p, r) = P.abort_transaction l.inner in
      (record { inner = p; calls = abort ∷ l.calls }, r);
}
