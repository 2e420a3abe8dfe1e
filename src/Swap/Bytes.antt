-- ===== src/Swap/Bytes.antt =====
-- `swap_byte_order` reverses the eight bytes of a word.
use mathlib.Core.List.{reverse}
use net_math.Base.{
  ℕ, suc, ◌+◌, ◌*◌, ◌/◌, ◌^◌, ◌<◌, ◌≡◌, refl, sym, ap, ap₂, ◌∙◌, List, [], ◌∷◌, bit_and, bit_or,
  u64, arith, IsBytes, le_value, le_bytes, le_value-le_bytes, le_bytes-le_value, le_bytes-IsBytes,
  length,
}
use net_math.Bits.{
  bit_and-lt, bit_and_split, bit_or_split, bit_and_ones, bit_and-zero, bit_or-zero, zero-bit_or,
}
use net_math.Swap.{swap_byte_order}

-- Byte by byte, on two lists of one length.
zip_with : (ℕ → ℕ → ℕ) → List ℕ → List ℕ → List ℕ
zip_with f [] bs = []
zip_with f (a ∷ as') [] = []
zip_with f (a ∷ as') (b ∷ bs) = f a b ∷ zip_with f as' bs

bit_and-le_value :
    (xs ys : List ℕ)
    → IsBytes xs
    → IsBytes ys
    → length xs ≡ length ys
    → bit_and (le_value xs) (le_value ys) ≡ le_value (zip_with bit_and xs ys)
unfolding zip_with
bit_and-le_value [] [] hx hy e = refl
bit_and-le_value [] (y ∷ ys) hx hy e = absurd (omega arith)
bit_and-le_value (x ∷ xs) [] hx hy e = absurd (omega arith)
bit_and-le_value (x ∷ xs) (y ∷ ys) hx hy e =
    bit_and_split 8 (le_value xs) x (le_value ys) y hx.0 hy.0
    ∙ ap (λ (t : ℕ). t * 256 + bit_and x y) (bit_and-le_value xs ys hx.1 hy.1 (omega arith))

bit_or-le_value :
    (xs ys : List ℕ)
    → IsBytes xs
    → IsBytes ys
    → length xs ≡ length ys
    → bit_or (le_value xs) (le_value ys) ≡ le_value (zip_with bit_or xs ys)
unfolding zip_with
bit_or-le_value [] [] hx hy e = refl
bit_or-le_value [] (y ∷ ys) hx hy e = absurd (omega arith)
bit_or-le_value (x ∷ xs) [] hx hy e = absurd (omega arith)
bit_or-le_value (x ∷ xs) (y ∷ ys) hx hy e =
    bit_or_split 8 (le_value xs) x (le_value ys) y hx.0 hy.0
    ∙ ap (λ (t : ℕ). t * 256 + bit_or x y) (bit_or-le_value xs ys hx.1 hy.1 (omega arith))

zip_with-IsBytes : (xs ms : List ℕ) → IsBytes xs → IsBytes (zip_with bit_and xs ms)
unfolding zip_with
zip_with-IsBytes [] ms hx = tt
zip_with-IsBytes (x ∷ xs) [] hx = tt
zip_with-IsBytes (x ∷ xs) (m ∷ ms) hx = (bit_and-lt 8 x m hx.0, zip_with-IsBytes xs ms hx.1)

length-zip_with :
    (f : ℕ → ℕ → ℕ) (xs ms : List ℕ) → length xs ≡ length ms → length (zip_with f xs ms) ≡ length xs
unfolding zip_with
length-zip_with f [] ms e = refl
length-zip_with f (x ∷ xs) [] e = absurd (omega arith)
length-zip_with f (x ∷ xs) (m ∷ ms) e = ap suc (length-zip_with f xs ms (omega arith))

-- The form of the first two lines of the function: two words, masked and joined.
masked :
    (xs ms ys ns : List ℕ)
    → IsBytes xs
    → IsBytes ms
    → IsBytes ys
    → IsBytes ns
    → length xs ≡ length ms
    → length ys ≡ length ns
    → length xs ≡ length ys
    → bit_or (bit_and (le_value xs) (le_value ms)) (bit_and (le_value ys) (le_value ns))
      ≡ le_value (zip_with bit_or (zip_with bit_and xs ms) (zip_with bit_and ys ns))
masked xs ms ys ns hx hm hy hn e1 e2 e3 =
    ap₂ bit_or (bit_and-le_value xs ms hx hm e1) (bit_and-le_value ys ns hy hn e2)
    ∙ bit_or-le_value (zip_with bit_and xs ms) (zip_with bit_and ys ns) (zip_with-IsBytes xs ms hx)
        (zip_with-IsBytes ys ns hy)
        (length-zip_with bit_and xs ms e1 ∙ e3 ∙ sym (length-zip_with bit_and ys ns e2))

ones : (x : ℕ) → x < 256 → bit_and x 255 ≡ x
ones x lt = bit_and_ones 8 x lt

module _ (a b c d e f g h : ℕ) (bytes : IsBytes (a ∷ b ∷ c ∷ d ∷ e ∷ f ∷ g ∷ h ∷ [])) where
  abbrev word : ℕ
  word = le_value (a ∷ b ∷ c ∷ d ∷ e ∷ f ∷ g ∷ h ∷ [])

  swap_pairs :
      bit_or
        (bit_and (u64 (word * 2 ^ 8)) 0xff00_ff00_ff00_ff00)
        (bit_and (word / 2 ^ 8) 0x00ff_00ff_00ff_00ff)
      ≡ le_value (b ∷ a ∷ d ∷ c ∷ f ∷ e ∷ h ∷ g ∷ [])
  unfolding zip_with
  swap_pairs =
      let up : u64 (word * 2 ^ 8) ≡ le_value (0 ∷ a ∷ b ∷ c ∷ d ∷ e ∷ f ∷ g ∷ []) = omega arith in
      let down : word / 2 ^ 8 ≡ le_value (b ∷ c ∷ d ∷ e ∷ f ∷ g ∷ h ∷ 0 ∷ []) = omega arith in
      ap₂ (λ x y. bit_or (bit_and x 0xff00_ff00_ff00_ff00) (bit_and y 0x00ff_00ff_00ff_00ff)) up
        down
      ∙ masked (0 ∷ a ∷ b ∷ c ∷ d ∷ e ∷ f ∷ g ∷ []) (0 ∷ 255 ∷ 0 ∷ 255 ∷ 0 ∷ 255 ∷ 0 ∷ 255 ∷ [])
          (b ∷ c ∷ d ∷ e ∷ f ∷ g ∷ h ∷ 0 ∷ []) (255 ∷ 0 ∷ 255 ∷ 0 ∷ 255 ∷ 0 ∷ 255 ∷ 0 ∷ [])
          (omega arith) (omega arith) (omega arith) (omega arith) refl refl refl
      ∙ simp
          (
            bit_and-zero,
            bit_or-zero,
            zero-bit_or,
            ones a bytes.0,
            ones b (omega arith),
            ones c (omega arith),
            ones d (omega arith),
            ones e (omega arith),
            ones f (omega arith),
            ones g (omega arith),
            ones h (omega arith),
          )
          refl

  swap_quads :
      bit_or
        (bit_and (u64 (word * 2 ^ 16)) 0xffff_0000_ffff_0000)
        (bit_and (word / 2 ^ 16) 0x0000_ffff_0000_ffff)
      ≡ le_value (c ∷ d ∷ a ∷ b ∷ g ∷ h ∷ e ∷ f ∷ [])
  unfolding zip_with
  swap_quads =
      let up : u64 (word * 2 ^ 16) ≡ le_value (0 ∷ 0 ∷ a ∷ b ∷ c ∷ d ∷ e ∷ f ∷ []) = omega arith in
      let down : word / 2 ^ 16 ≡ le_value (c ∷ d ∷ e ∷ f ∷ g ∷ h ∷ 0 ∷ 0 ∷ []) = omega arith in
      ap₂ (λ x y. bit_or (bit_and x 0xffff_0000_ffff_0000) (bit_and y 0x0000_ffff_0000_ffff)) up
        down
      ∙ masked (0 ∷ 0 ∷ a ∷ b ∷ c ∷ d ∷ e ∷ f ∷ []) (0 ∷ 0 ∷ 255 ∷ 255 ∷ 0 ∷ 0 ∷ 255 ∷ 255 ∷ [])
          (c ∷ d ∷ e ∷ f ∷ g ∷ h ∷ 0 ∷ 0 ∷ []) (255 ∷ 255 ∷ 0 ∷ 0 ∷ 255 ∷ 255 ∷ 0 ∷ 0 ∷ [])
          (omega arith) (omega arith) (omega arith) (omega arith) refl refl refl
      ∙ simp
          (
            bit_and-zero,
            bit_or-zero,
            zero-bit_or,
            ones a bytes.0,
            ones b (omega arith),
            ones c (omega arith),
            ones d (omega arith),
            ones e (omega arith),
            ones f (omega arith),
            ones g (omega arith),
            ones h (omega arith),
          )
          refl

  swap_halves :
      bit_or (u64 (word * 2 ^ 32)) (word / 2 ^ 32) ≡ le_value (e ∷ f ∷ g ∷ h ∷ a ∷ b ∷ c ∷ d ∷ [])
  unfolding zip_with
  swap_halves =
      let up : u64 (word * 2 ^ 32) ≡ le_value (0 ∷ 0 ∷ 0 ∷ 0 ∷ a ∷ b ∷ c ∷ d ∷ []) = omega arith in
      let down : word / 2 ^ 32 ≡ le_value (e ∷ f ∷ g ∷ h ∷ 0 ∷ 0 ∷ 0 ∷ 0 ∷ []) = omega arith in
      ap₂ bit_or up down
      ∙ bit_or-le_value (0 ∷ 0 ∷ 0 ∷ 0 ∷ a ∷ b ∷ c ∷ d ∷ []) (e ∷ f ∷ g ∷ h ∷ 0 ∷ 0 ∷ 0 ∷ 0 ∷ [])
          (omega arith) (omega arith) refl
      ∙ simp (bit_or-zero, zero-bit_or) refl

-- The eight bytes of the word, in the opposite order.
pub swap_byte_order-reverse :
    (bs : List ℕ)
    → IsBytes bs
    → length bs ≡ 8
    → swap_byte_order (le_value bs) ≡ le_value (reverse bs)
unfolding swap_byte_order
swap_byte_order-reverse (a ∷ b ∷ c ∷ d ∷ e ∷ f ∷ g ∷ h ∷ []) bytes len = rw (
  swap_pairs a b c d e f g h bytes,
  swap_quads b a d c f e h g (omega arith),
  swap_halves d c b a h g f e (omega arith),
)
swap_byte_order-reverse bs bytes len = absurd (omega arith)

swap_byte_order-word : (w : ℕ) → w < 2 ^ 64 → swap_byte_order w ≡ le_value (reverse (le_bytes 8 w))
swap_byte_order-word w h =
    ap swap_byte_order (sym (le_value-le_bytes 8 w h))
    ∙ swap_byte_order-reverse (le_bytes 8 w) (le_bytes-IsBytes 8 w) refl

pub swap_byte_order-lt : (w : ℕ) → w < 2 ^ 64 → swap_byte_order w < 2 ^ 64
swap_byte_order-lt w h = rw (swap_byte_order-word w h) (omega arith)

-- The eight bytes of the result of a 64-bit word are those of the word in the opposite order.
pub swap_byte_order-bytes :
    (w : ℕ) → w < 2 ^ 64 → le_bytes 8 (swap_byte_order w) ≡ reverse (le_bytes 8 w)
swap_byte_order-bytes w h =
    ap (le_bytes 8) (swap_byte_order-word w h)
    ∙ le_bytes-le_value (reverse (le_bytes 8 w)) (omega arith)

-- Swapping a 64-bit word twice gives the word back.
pub swap_byte_order-swap_byte_order : (w : ℕ) → w < 2 ^ 64 → swap_byte_order (swap_byte_order w) ≡ w
swap_byte_order-swap_byte_order w h =
    ap swap_byte_order (swap_byte_order-word w h)
    ∙ swap_byte_order-reverse (reverse (le_bytes 8 w)) (omega arith) refl
    ∙ le_value-le_bytes 8 w h
