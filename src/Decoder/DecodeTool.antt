-- ===== src/Decoder/DecodeTool.antt =====
-- cdc-wal-reader/src/bin/relation_decode.rs: the message that the tool decodes. Its later rounds
-- repeat the call for a measurement.
use cdc_connector.Prelude.{[], ◌∷◌, ◌++◌, Bytes, codes, Outcome, expect_ok}
use cdc_connector.Decoder.Errors.{DecoderError, Utf8}
use cdc_connector.Decoder.RelationData
use cdc_connector.Decoder.RelationData.{RelationData}

-- `RELATION_DATA`
abbrev pub relation_data_bytes : Bytes
relation_data_bytes =
    b'R'
    ∷ 0
    ∷ 0
    ∷ 40
    ∷ 1
    ∷ (codes "public"
        ++ (0
            ∷ (codes "orders"
                ++ (0
                    ∷ 2
                    ∷ 0
                    ∷ 10
                    ∷ 1
                    ∷ (codes "order_id"
                        ++ (0
                            ∷ 0
                            ∷ 0
                            ∷ 0
                            ∷ 23
                            ∷ 255
                            ∷ 255
                            ∷ 255
                            ∷ 255
                            ∷ 1
                            ∷ (codes "customer_id"
                                ++ (0
                                    ∷ 0
                                    ∷ 0
                                    ∷ 0
                                    ∷ 23
                                    ∷ 255
                                    ∷ 255
                                    ∷ 255
                                    ∷ 255
                                    ∷ 0
                                    ∷ (codes "status"
                                        ++ (0
                                            ∷ 0
                                            ∷ 0
                                            ∷ 0
                                            ∷ 25
                                            ∷ 255
                                            ∷ 255
                                            ∷ 255
                                            ∷ 255
                                            ∷ 0
                                            ∷ (codes "total_cents"
                                                ++ (0
                                                    ∷ 0
                                                    ∷ 0
                                                    ∷ 0
                                                    ∷ 23
                                                    ∷ 255
                                                    ∷ 255
                                                    ∷ 255
                                                    ∷ 255
                                                    ∷ 0
                                                    ∷ (codes "currency"
                                                        ++ (0
                                                            ∷ 0
                                                            ∷ 0
                                                            ∷ 0
                                                            ∷ 25
                                                            ∷ 255
                                                            ∷ 255
                                                            ∷ 255
                                                            ∷ 255
                                                            ∷ 0
                                                            ∷ (codes "shipping_address"
                                                            ++ (0
                                                            ∷ 0
                                                            ∷ 0
                                                            ∷ 0
                                                            ∷ 25
                                                            ∷ 255
                                                            ∷ 255
                                                            ∷ 255
                                                            ∷ 255
                                                            ∷ 0
                                                            ∷ (codes "billing_address"
                                                            ++ (0
                                                            ∷ 0
                                                            ∷ 0
                                                            ∷ 0
                                                            ∷ 25
                                                            ∷ 255
                                                            ∷ 255
                                                            ∷ 255
                                                            ∷ 255
                                                            ∷ 0
                                                            ∷ (codes "created_at"
                                                            ++ (0
                                                            ∷ 0
                                                            ∷ 0
                                                            ∷ 0
                                                            ∷ 25
                                                            ∷ 255
                                                            ∷ 255
                                                            ∷ 255
                                                            ∷ 255
                                                            ∷ 0
                                                            ∷ (codes "updated_at"
                                                            ++ (0
                                                            ∷ 0
                                                            ∷ 0
                                                            ∷ 0
                                                            ∷ 25
                                                            ∷ 255
                                                            ∷ 255
                                                            ∷ 255
                                                            ∷ 255
                                                            ∷ 0
                                                            ∷ (codes "metadata"
                                                            ++ (0 ∷ 0 ∷ 0 ∷ 0 ∷ 25 ∷ 255 ∷ 255 ∷ 255
                                                            ∷ 255 ∷ []))))))))))))))))))))))))

-- `RelationData::parse(..).expect("parse failed")`
unfoldable pub decode_once : Utf8 → Outcome DecoderError RelationData
decode_once valid = expect_ok (RelationData.parse valid relation_data_bytes)
