-- ===== src/Tests/ObjectId.antt =====
-- An id in an array of 25 bytes.
use mini_pubsub_broker.Base.{◌%◌, ◌≡◌, refl, [], ◌∷◌, ◌++◌, Bytes, length, replicate, pos, codes}
use mini_pubsub_broker.Client.{ok}
use mini_pubsub_broker.ObjectId.{int32_max, int16_max, in_range, create_objectid}
use mini_pubsub_broker.ObjectId.Hex.{hex_value}
use mini_pubsub_broker.ObjectId.Parts.{create_objectid-parts}

abbrev oid : Bytes
oid = replicate 25 7

create_objectid-parts_example :
    (a : Bytes) × (b : Bytes) × (c : Bytes) × (create_objectid 1700000000 4242 (pos 99) oid
      ≡ ok (a ++ (codes "ffffff" ++ (b ++ (c ++ (0 ∷ []))))))
    × ((length a ≡ 8) × (length b ≡ 4) × (length c ≡ 6))
    × ((hex_value a ≡ 1700000000 % int32_max)
        × (hex_value b ≡ 4242 % int16_max)
        × (hex_value c ≡ in_range (pos 99)))
create_objectid-parts_example = create_objectid-parts 1700000000 4242 (pos 99) oid refl
