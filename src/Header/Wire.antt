-- ===== src/Header/Wire.antt =====
-- A header survives the wire.
use mathlib.Core.List.{reverse}
use net_math.Base.{
  ℕ, ◌+◌, ◌<◌, ◌^◌, ◌≡◌, refl, sym, ap, ◌∙◌, List, [], ◌++◌, length, le_value, le_bytes,
  le_value-le_bytes,
}
use net_math.Io.{World, done, alloc}
use net_math.Swap.{swap_byte_order}
use net_math.Swap.Bytes.{swap_byte_order-swap_byte_order, swap_byte_order-lt}
use net_math.Stream.Laws.{at_input, read_stream-done}
use net_math.Header.{NetHeader, Host, IsLittleEndian, read_header, serialize_header}

-- The fields fit their C types.
pub record IsHeader (header : NetHeader) : Type 0 where
  pub size_fits : header.header_size < 2 ^ 32
  pub len_fits : header.name_len < 2 ^ 32
  pub total_fits : header.total_payload_size < 2 ^ 64
  pub name_fits : length header.file_name ≡ 32

module _ (host : Host) (order : IsLittleEndian host) where
  le_bytes_injective : (a b : ℕ) → a < 2 ^ 32 → b < 2 ^ 32 → le_bytes 4 a ≡ le_bytes 4 b → a ≡ b
  le_bytes_injective a b ha hb e =
      sym (le_value-le_bytes 4 a ha) ∙ ap le_value e ∙ le_value-le_bytes 4 b hb

  ntohl-htonl : (w : ℕ) → w < 2 ^ 32 → host.ntohl (host.htonl w) ≡ w
  ntohl-htonl w h =
      le_bytes_injective (host.ntohl (host.htonl w)) w (order.ntohl-lt (host.htonl w)) h
        (order.ntohl-bytes (host.htonl w) ∙ ap reverse (order.htonl-bytes w))

  ntohl-le_bytes : (w : ℕ) → w < 2 ^ 32 → host.ntohl (le_value (le_bytes 4 (host.htonl w))) ≡ w
  ntohl-le_bytes w h =
      ap host.ntohl (le_value-le_bytes 4 (host.htonl w) (order.htonl-lt w)) ∙ ntohl-htonl w h

  swap-le_bytes :
      (w : ℕ) → w < 2 ^ 64 → swap_byte_order (le_value (le_bytes 8 (swap_byte_order w))) ≡ w
  swap-le_bytes w h =
      ap swap_byte_order (le_value-le_bytes 8 (swap_byte_order w) (swap_byte_order-lt w h))
      ∙ swap_byte_order-swap_byte_order w h

  -- On a little-endian host with memory, a header whose fields fit their C types is read from the
  -- bytes that it was serialized to as it was. What follows the header is left to read, and the
  -- header is the one block that stays allocated.
  pub read_header-serialize_header :
      (header : NetHeader) (rest : List ℕ) (w : World)
      → IsHeader header
      → w.input ≡ serialize_header host header ++ rest
      → w.allocs ≡ []
      → read_header host w ≡ done header (record w { input = rest; live = w.live + 1 })
  unfolding read_header serialize_header alloc
  read_header-serialize_header header rest w fits e m =
      let size = host.htonl header.header_size in
      let len = host.htonl header.name_len in
      let total = swap_byte_order header.total_payload_size in
      let w₀ : World = record w { allocs = []; live = w.live + 1 } in
      let rest₃ = header.file_name ++ rest in
      let rest₂ = le_bytes 8 total ++ rest₃ in
      let rest₁ = le_bytes 4 len ++ rest₂ in
      rw
        (
          m,
          read_stream-done 1 3 (le_bytes 4 size) rest₁ w₀ e refl refl,
          read_stream-done 1 3 (le_bytes 4 len) rest₂ (at_input w₀ rest₁) refl refl refl,
          read_stream-done 1 7 (le_bytes 8 total) rest₃ (at_input w₀ rest₂) refl refl refl,
          read_stream-done 1 31 header.file_name rest (at_input w₀ rest₃) refl refl fits.name_fits,
        )
        λ i.
          done
            (record {
              header_size = ntohl-le_bytes header.header_size fits.size_fits i;
              name_len = ntohl-le_bytes header.name_len fits.len_fits i;
              total_payload_size = swap-le_bytes header.total_payload_size fits.total_fits i;
              file_name = header.file_name;
            })
            (at_input w₀ rest)
