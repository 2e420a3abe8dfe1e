-- ===== src/Swap.antt =====
-- `swap_byte_order` of src/header_parser/header_parser.c.
pub mod Bytes
use net_math.Base.{ℕ, ◌*◌, ◌/◌, ◌^◌, bit_and, bit_or, u64}

unfoldable pub swap_byte_order : ℕ → ℕ
swap_byte_order val =
    let v =
      bit_or (bit_and (u64 (val * 2 ^ 8)) 0xff00_ff00_ff00_ff00)
        (bit_and (val / 2 ^ 8) 0x00ff_00ff_00ff_00ff) in
    let u =
      bit_or (bit_and (u64 (v * 2 ^ 16)) 0xffff_0000_ffff_0000)
        (bit_and (v / 2 ^ 16) 0x0000_ffff_0000_ffff) in
    bit_or (u64 (u * 2 ^ 32)) (u / 2 ^ 32)
