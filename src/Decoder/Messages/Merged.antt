-- ===== src/Decoder/Messages/Merged.antt =====
-- From the replication messages to the rows that the sinks write: no toasted value gets through.
use cdc_connector.Prelude.{◌≡◌, ◌⊎◌, inl, inr, Bytes, ok, All}
use cdc_connector.Avro.Event.{Op, ChangeEvent, merge_toasted}
use cdc_connector.Avro.Merge.{Settled, written, merge_toasted-Settled}
use cdc_connector.Decoder.Errors.{Utf8}
use cdc_connector.Decoder.RelationData.{RelationData}
use cdc_connector.Decoder.Messages.{RelationMap, parse_insert, parse_update, parse_delete}
use cdc_connector.Decoder.Messages.Rows.{
  OpSettled, FewFields, parse_insert-OpSettled, parse_update-OpSettled, parse_delete-OpSettled,
}

merged-Settled :
    (op : Op)
    → OpSettled op
    → (merge_toasted op).1 ≡ ok tt
    → All Settled (written (merge_toasted op).0)
unfolding merge_toasted
merged-Settled (Op.insert row) h e = h
merged-Settled (Op.update old row) h e = merge_toasted-Settled old row h e
merged-Settled (Op.delete old) h e = tt

-- The event of a message of any of the three kinds, where `merge_toasted` succeeds on it, has no
-- toasted value left in the row that is to be written.
pub merge_toasted-decoded :
    (valid : Utf8) (xs : Bytes) (relation_map : RelationMap) (event : ChangeEvent)
    (relation : RelationData)
    → FewFields relation_map
    → ((parse_insert valid xs relation_map ≡ ok (event, relation))
        ⊎ ((parse_update valid xs relation_map ≡ ok (event, relation))
            ⊎ (parse_delete valid xs relation_map ≡ ok (event, relation))))
    → (merge_toasted event.op).1 ≡ ok tt
    → All Settled (written (merge_toasted event.op).0)
merge_toasted-decoded valid xs relation_map event relation few (inl i) e =
    merged-Settled event.op (parse_insert-OpSettled valid xs relation_map few event relation i) e
merge_toasted-decoded valid xs relation_map event relation few (inr (inl u)) e =
    merged-Settled event.op (parse_update-OpSettled valid xs relation_map few event relation u) e
merge_toasted-decoded valid xs relation_map event relation few (inr (inr d)) e =
    merged-Settled event.op (parse_delete-OpSettled valid xs relation_map few event relation d) e
