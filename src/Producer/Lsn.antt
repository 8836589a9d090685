-- ===== src/Producer/Lsn.antt =====
-- `read_lsn` of cdc-producer/src/main.rs against the record that `commit_transaction` writes.
use cdc_connector.Prelude.{
  ℕ, ◌^◌, ◌<◌, ◌≡◌, ◌≢◌, refl, ap, ◌∙◌, List, [], ◌∷◌, ◌++◌, Option, none, some, Bytes, ok, arith,
  map, length, All,
}
use cdc_connector.Bytes.{from_be-to_be_64}
use cdc_connector.Sink.{Message, message}
use cdc_connector.Producer.{KafkaProducer, lsn_record, take_lsn, read_lsn}
use cdc_connector.Producer.Topics.{delivered}

-- A message that does not carry eight bytes.
abbrev pub NoLsn : Option Bytes → Type 0
NoLsn none = Unit
NoLsn (some bytes) = length bytes ≢ 8

take_lsn-NoLsn : (latest : ℕ) (p : Option Bytes) → NoLsn p → take_lsn latest p ≡ latest
unfolding take_lsn
take_lsn-NoLsn latest none h = refl
take_lsn-NoLsn latest (some bytes) h = ground (arith, h)

read_lsn-NoLsn :
    (latest : ℕ) (ms : List Message)
    → All (λ m. NoLsn m.payload) ms
    → read_lsn latest (map message ms) ≡ ok latest
unfolding read_lsn
read_lsn-NoLsn latest [] h = refl
read_lsn-NoLsn latest (m ∷ ms) h =
    ap (λ x. read_lsn x (map message ms)) (take_lsn-NoLsn latest m.payload h.0)
    ∙ read_lsn-NoLsn latest ms h.1

-- Whatever messages came before, and wherever those that follow carry no LSN, `read_lsn` returns the
-- LSN of the last record that a commit wrote.
pub read_lsn-lsn_record :
    (p : KafkaProducer) (latest lsn : ℕ) (before after : List Message)
    → lsn < 2 ^ 64
    → All (λ m. NoLsn m.payload) after
    → read_lsn latest (map message (before ++ delivered (lsn_record p lsn) ∷ after)) ≡ ok lsn
unfolding read_lsn
read_lsn-lsn_record p latest lsn [] after small h =
    ap (λ x. read_lsn x (map message after)) taken ∙ read_lsn-NoLsn lsn after h
  where
    taken : take_lsn latest (delivered (lsn_record p lsn)).payload ≡ lsn
    taken = unfold take_lsn delivered lsn_record in from_be-to_be_64 lsn small
read_lsn-lsn_record p latest lsn (m ∷ before) after small h =
    read_lsn-lsn_record p (take_lsn latest m.payload) lsn before after small h
