-- ===== src/Tests/BitMagic.antt =====
-- include/besm-666/util/bit-magic.hpp at concrete masks and fields.
use besm.Prelude.{◌≡◌, arith}
use besm.BitMagic.{extract_masked, insert_masked}
use besm.BitMagic.Reference.{gather, scatter}
use besm.BitMagic.Masked.{extract_masked_lem, insert_masked_lem}

extract_masked_lem_example : extract_masked 16 0b1010011000 0x3F7 ≡ gather 16 0b1010011000 0x3F7
extract_masked_lem_example = extract_masked_lem 16 0b1010011000 0x3F7 (omega arith) (omega arith)

insert_masked_lem_example :
    insert_masked 16 0b1010011000 0b1101 0x147 ≡ scatter 16 0b1010011000 0b1101 0x147
insert_masked_lem_example =
    insert_masked_lem 16 0b1010011000 0b1101 0x147 (omega arith) (omega arith) (omega arith)
