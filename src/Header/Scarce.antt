-- ===== src/Header/Scarce.antt =====
-- `read_header` whatever the allocator answers.
use net_math.Base.{ℕ, ◌≡◌, refl, List, arith, Bool-cases, inl, inr, le_value}
use net_math.Io.{World, take_block, alloc}
use net_math.Swap.{swap_byte_order}
use net_math.Stream.Scarce.{
  Leaves, Split, later_blocks-is_scarce, read_stream-Leaves, and_next-Leaves, opened, opened-Leaves,
}
use net_math.Header.{NetHeader, Host, read_header}
use net_math.Header.Parsed.{header_of, after_header}

-- The header in the first 48 bytes, and what follows them.
abbrev pub HeaderSplit : Host → (input : List ℕ) → NetHeader → (rest : List ℕ) → Type 0
HeaderSplit host input header rest = (header ≡ header_of host input) × (rest ≡ after_header input)

assembled :
    (host : Host) (input size rest₁ len rest₂ total rest₃ name rest₄ : List ℕ)
    → Split 4 input size rest₁
    → Split 4 rest₁ len rest₂
    → Split 8 rest₂ total rest₃
    → Split 32 rest₃ name rest₄
    → HeaderSplit host input
        (record {
          header_size = host.ntohl (le_value size);
          name_len = host.ntohl (le_value len);
          total_payload_size = swap_byte_order (le_value total);
          file_name = name;
        })
        rest₄
assembled host input size rest₁ len rest₂ total rest₃ name rest₄ s₁ s₂ s₃ s₄ = (cc, cc)

pub read_header-Leaves :
    (host : Host) (w : World) → Leaves ⊥ (HeaderSplit host w.input) 0 1 w (read_header host w)
unfolding read_header alloc
read_header-Leaves host w = elim (Bool-cases (take_block w.allocs)) [
  | inr refused ↦
      rw refused ((refl, refl, later_blocks-is_scarce w.allocs), omega arith, omega arith)
  | inl taken ↦
      let Whole = HeaderSplit host w.input in
      let w₀ = opened w in
      rw taken (
        opened-Leaves ⊥ Whole 0 1 0 1 w _ refl refl (
          and_next-Leaves ⊥ (Split 4 w.input) Whole 1 0 w₀ _ _
            (read_stream-Leaves ⊥ 1 3 w₀ (omega arith))
            λ size w₁ l₁ s₁.
              and_next-Leaves ⊥ (Split 4 w₁.input) Whole 1 0 w₁ _ _
                (read_stream-Leaves ⊥ 1 3 w₁ (omega (arith, l₁)))
                λ len w₂ l₂ s₂.
                  and_next-Leaves ⊥ (Split 8 w₂.input) Whole 1 0 w₂ _ _
                    (read_stream-Leaves ⊥ 1 7 w₂ (omega (arith, l₁, l₂)))
                    λ total w₃ l₃ s₃.
                      and_next-Leaves ⊥ (Split 32 w₃.input) Whole 1 0 w₃ _ _
                        (read_stream-Leaves ⊥ 1 31 w₃ (omega (arith, l₁, l₂, l₃)))
                        λ name w₄ l₄ s₄. (
                          (refl, refl, λ h. h),
                          omega arith,
                          assembled host w.input size w₁.input len w₂.input total w₃.input name
                              w₄.input s₁ s₂ s₃ s₄,
                        )))
]
