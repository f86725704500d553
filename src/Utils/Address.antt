-- ===== src/Utils/Address.antt =====
-- Word and byte addresses (simulation/ranger_console/utils.cpp).
use risc_v_rv32i_multi_cycle.Prelude.{◌<◌, ◌≡◌, arith, ℤ, pos, negsuc, neg_part, pos_part}
use risc_v_rv32i_multi_cycle.Utils.{word_to_byte_addr, byte_to_word_addr}

-- A word address that fits, so that its byte address is an `int`, comes back from its byte
-- address, negative ones too.
byte_to_word_addr-word_to_byte_addr :
    (wa : ℤ)
    → pos_part wa < 536870912
    → neg_part wa < 536870913
    → byte_to_word_addr (word_to_byte_addr wa) ≡ wa
unfolding byte_to_word_addr word_to_byte_addr
byte_to_word_addr-word_to_byte_addr (pos n) h k = ground arith
byte_to_word_addr-word_to_byte_addr (negsuc n) h k = ground arith
