-- ===== src/Sbf/Crc.antt =====
-- `crc16_ccitt` of main/sbf_parser.c.
use tab5_client.Prelude.{
  ℕ, zero, suc, ◌+◌, bit_and, bit_xor, not, ◌==◌, if◌then◌else◌, Bytes, u16, ◌<<<◌,
}
use tab5_client.Sbf.Fields.{byte}

-- One round of the inner loop.
unfoldable pub crc_bit : ℕ → ℕ
crc_bit crc =
    if not (bit_and crc 0x8000 == 0) then u16 (bit_xor (crc <<< 1) 0x1021) else u16 (crc <<< 1)

-- The inner loop, `k` rounds.
unfoldable pub crc_bits : ℕ → ℕ → ℕ
crc_bits zero crc = crc
crc_bits (suc k) crc = crc_bits k (crc_bit crc)

unfoldable pub crc_byte : ℕ → ℕ → ℕ
unfolding crc_bits crc_bit
crc_byte crc c = crc_bits 8 (bit_xor crc (u16 (c <<< 8)))

-- The outer loop, over the `n` bytes from index `i` on.
unfoldable pub crc_loop : ℕ → Bytes → ℕ → ℕ → ℕ
unfolding crc_byte
crc_loop zero buf i crc = crc
crc_loop (suc n) buf i crc = crc_loop n buf (i + 1) (crc_byte crc (byte buf i))

unfoldable pub crc16_ccitt : Bytes → ℕ → ℕ → ℕ
unfolding crc_loop
crc16_ccitt buf off len = crc_loop len buf off 0
