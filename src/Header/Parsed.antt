-- ===== src/Header/Parsed.antt =====
-- Every 48 bytes are a header.
use net_math.Base.{
  ℕ, zero, suc, ◌<◌, ◌≤◌, ◌^◌, ◌≡◌, sym, ap, ap₂, ◌∙◌, List, [], ◌∷◌, ◌++◌, arith, length, take,
  drop, IsBytes, le_value, le_bytes, le_bytes-le_value, take-drop, length-take, length-drop,
}
use mathlib.Core.List.{reverse}
use native.Mathlib.Nat.{pow-suc}
use net_math.Swap.{swap_byte_order}
use net_math.Swap.Bytes.{swap_byte_order-bytes, swap_byte_order-lt}
use net_math.Header.{NetHeader, Host, IsLittleEndian, serialize_header}
use net_math.Header.Wire.{IsHeader}

pub IsBytes-take : (n : ℕ) (bs : List ℕ) → IsBytes bs → IsBytes (take n bs)
IsBytes-take zero bs h = tt
IsBytes-take (suc n) [] h = tt
IsBytes-take (suc n) (b ∷ bs) h = (h.0, IsBytes-take n bs h.1)

pub IsBytes-drop : (n : ℕ) (bs : List ℕ) → IsBytes bs → IsBytes (drop n bs)
IsBytes-drop zero bs h = h
IsBytes-drop (suc n) [] h = tt
IsBytes-drop (suc n) (b ∷ bs) h = IsBytes-drop n bs h.1

le_value-lt : (n : ℕ) (bs : List ℕ) → IsBytes bs → length bs ≡ n → le_value bs < 256 ^ n
le_value-lt zero [] h e = omega arith
le_value-lt zero (b ∷ bs) h e = absurd (omega arith)
le_value-lt (suc n) [] h e = absurd (omega arith)
le_value-lt (suc n) (b ∷ bs) h e =
    omega (arith, h.0, le_value-lt n bs h.1 (omega arith), pow-suc 256 n)

-- The bytes of a word that was read from bytes.
le_bytes-exact : (n : ℕ) (bs : List ℕ) → IsBytes bs → length bs ≡ n → le_bytes n (le_value bs) ≡ bs
le_bytes-exact n bs h e = ap (λ (k : ℕ). le_bytes k (le_value bs)) (sym e) ∙ le_bytes-le_value bs h

-- A list from its first part and the rest of it.
split :
    (n : ℕ) (bs : List ℕ) {front back : List ℕ}
    → front ≡ take n bs
    → drop n bs ≡ back
    → bs ≡ front ++ back
split n bs ef eb = sym (take-drop n bs) ∙ ap₂ ◌++◌ (sym ef) eb

-- What `read_header` makes of the first 48 bytes, and what it leaves.
abbrev pub header_of : Host → List ℕ → NetHeader
header_of host bs = record {
  header_size = host.ntohl (le_value (take 4 bs));
  name_len = host.ntohl (le_value (take 4 (drop 4 bs)));
  total_payload_size = swap_byte_order (le_value (take 8 (drop 4 (drop 4 bs))));
  file_name = take 32 (drop 8 (drop 4 (drop 4 bs)));
}

abbrev pub after_header : List ℕ → List ℕ
after_header bs = drop 32 (drop 8 (drop 4 (drop 4 bs)))

module _ (host : Host) (order : IsLittleEndian host) where
  htonl-ntohl-bytes :
      (bs : List ℕ)
      → IsBytes bs
      → length bs ≡ 4
      → le_bytes 4 (host.htonl (host.ntohl (le_value bs))) ≡ bs
  htonl-ntohl-bytes bs h e =
      order.htonl-bytes (host.ntohl (le_value bs))
      ∙ ap reverse (order.ntohl-bytes (le_value bs))
      ∙ le_bytes-exact 4 bs h e

  swap-swap-bytes :
      (bs : List ℕ)
      → IsBytes bs
      → length bs ≡ 8
      → le_bytes 8 (swap_byte_order (swap_byte_order (le_value bs))) ≡ bs
  swap-swap-bytes bs h e =
      let small : le_value bs < 2 ^ 64 = le_value-lt 8 bs h e in
      swap_byte_order-bytes (swap_byte_order (le_value bs)) (swap_byte_order-lt (le_value bs) small)
      ∙ ap reverse (swap_byte_order-bytes (le_value bs) small)
      ∙ le_bytes-exact 8 bs h e

  module _ (bs : List ℕ) (bytes : IsBytes bs) (enough : 48 ≤ length bs) where
    abbrev rest₁ : List ℕ
    rest₁ = drop 4 bs

    abbrev rest₂ : List ℕ
    rest₂ = drop 4 rest₁

    abbrev rest₃ : List ℕ
    rest₃ = drop 8 rest₂

    length-rest₁ : 44 ≤ length rest₁
    length-rest₁ = omega (arith, enough, length-drop 4 bs)

    length-rest₂ : 40 ≤ length rest₂
    length-rest₂ = omega (arith, length-rest₁, length-drop 4 rest₁)

    length-rest₃ : 32 ≤ length rest₃
    length-rest₃ = omega (arith, length-rest₂, length-drop 8 rest₂)

    bytes₁ : IsBytes rest₁
    bytes₁ = IsBytes-drop 4 bs bytes

    bytes₂ : IsBytes rest₂
    bytes₂ = IsBytes-drop 4 rest₁ bytes₁

    pub header_of-IsHeader : IsHeader (header_of host bs)
    header_of-IsHeader = record {
      size_fits = order.ntohl-lt (le_value (take 4 bs));
      len_fits = order.ntohl-lt (le_value (take 4 rest₁));
      total_fits = swap_byte_order-lt (le_value (take 8 rest₂)) (
          le_value-lt 8 (take 8 rest₂) (IsBytes-take 8 rest₂ bytes₂)
            (length-take 8 rest₂ (omega (arith, length-rest₂))));
      name_fits = length-take 32 rest₃ length-rest₃;
    }

    -- At least 48 bytes are those of a header, and what follows it.
    pub serialize_header-header_of :
        bs ≡ serialize_header host (header_of host bs) ++ after_header bs
    unfolding serialize_header
    serialize_header-header_of =
        split 4 bs
          (htonl-ntohl-bytes (take 4 bs) (IsBytes-take 4 bs bytes)
            (length-take 4 bs (omega (arith, enough))))
          (split 4 rest₁
            (htonl-ntohl-bytes (take 4 rest₁) (IsBytes-take 4 rest₁ bytes₁)
              (length-take 4 rest₁ (omega (arith, length-rest₁))))
            (split 8 rest₂
              (swap-swap-bytes (take 8 rest₂) (IsBytes-take 8 rest₂ bytes₂)
                (length-take 8 rest₂ (omega (arith, length-rest₂))))
              (sym (take-drop 32 rest₃))))
