-- ===== src/Equ/Format.antt =====
-- The file format as a sequence of bytes, and `parse_stream` on it.
use net_math.Base.{
  ℕ, suc, ◌+◌, ◌-◌, ◌^◌, ◌<◌, ◌≤◌, ◌≡◌, refl, sym, ap, ◌∙◌, List, [], ◌∷◌, ◌++◌, true, false, none,
  arith, length, le_bytes, le_value, le_value-le_bytes, ◌==◌, min, replicate,
}
use mathlib.Core.List.{append_assoc, append-nil}
use net_math.Io.{World, done, alloc, read, skip}
use net_math.Stream.Laws.{at_input, read_stream-done}
use net_math.Equ.{UnsolvedEq, Equations, magic_value, read_node, read_nodes, parse_stream}

-- One equation of the file, with its ten bytes of padding.
abbrev pub eq_bytes : UnsolvedEq → List ℕ
eq_bytes eq =
    le_bytes 4 eq.eq_id
    ++ (le_bytes 1 eq.flags
        ++ (le_bytes 8 eq.l_operand
            ++ (le_bytes 1 eq.opt ++ (le_bytes 8 eq.r_operand ++ replicate 10 0))))

abbrev pub eqs_bytes : List UnsolvedEq → List ℕ
eqs_bytes [] = []
eqs_bytes (eq ∷ eqs) = eq_bytes eq ++ eqs_bytes eqs

-- A file whose equations stand after `gap`.
abbrev pub gap_bytes : (gap : List ℕ) → Equations → List ℕ
gap_bytes gap file =
    le_bytes 4 file.magic_id
    ++ (le_bytes 8 file.file_id
        ++ (le_bytes 8 file.number_of_eq
            ++ (le_bytes 1 file.flags
                ++ (le_bytes 4 file.offset
                    ++ (le_bytes 2 file.num_of_opts ++ (gap ++ eqs_bytes file.eqs))))))

-- With the equations next to the header, whatever the offset says.
abbrev pub file_bytes : Equations → List ℕ
file_bytes = gap_bytes []

-- The fields fit their C types, and no equation is evaluated yet.
pub record IsUnsolved (eq : UnsolvedEq) : Type 0 where
  pub id_fits : eq.eq_id < 2 ^ 32
  pub flags_fits : eq.flags < 2 ^ 8
  pub l_fits : eq.l_operand < 2 ^ 64
  pub opt_fits : eq.opt < 2 ^ 8
  pub r_fits : eq.r_operand < 2 ^ 64
  pub not_solved : eq.solution ≡ none

abbrev pub AllUnsolved : List UnsolvedEq → Type 0
AllUnsolved [] = Unit
AllUnsolved (eq ∷ eqs) = IsUnsolved eq × AllUnsolved eqs

pub record IsFile (file : Equations) : Type 0 where
  pub magic : file.magic_id ≡ magic_value
  pub id_fits : file.file_id < 2 ^ 64
  pub counted : file.number_of_eq ≡ length file.eqs
  pub few : file.number_of_eq < 2 ^ 31
  pub flags_fits : file.flags < 2 ^ 8
  pub offset_fits : file.offset < 2 ^ 32
  pub opts_fit : file.num_of_opts < 2 ^ 16
  pub unsolved : AllUnsolved file.eqs

-- A regular file, all of whose system calls succeed.
pub record IsRegular (w : World) : Type 0 where
  pub memory : w.allocs ≡ []
  pub seeks : w.seekable ≡ true
  pub whole : 4 ≤ w.burst

read_node-eq_bytes :
    (count : ℕ) (eq : UnsolvedEq) (rest : List ℕ) (w : World)
    → IsUnsolved eq
    → IsRegular w
    → w.input ≡ eq_bytes eq ++ rest
    → read_node count w ≡ done eq (at_input w rest)
unfolding read_node skip
read_node-eq_bytes count eq rest w fits ok e =
    let rest₅ = replicate 10 0 ++ rest in
    let rest₄ = le_bytes 8 eq.r_operand ++ rest₅ in
    let rest₃ = le_bytes 1 eq.opt ++ rest₄ in
    let rest₂ = le_bytes 8 eq.l_operand ++ rest₃ in
    let rest₁ = le_bytes 1 eq.flags ++ rest₂ in
    rw
      (
        read_stream-done (count + 2) 3 (le_bytes 4 eq.eq_id) rest₁ w e ok.memory refl,
        read_stream-done (count + 2) 0 (le_bytes 1 eq.flags) rest₂ (at_input w rest₁) refl ok.memory
            refl,
        read_stream-done (count + 2) 7 (le_bytes 8 eq.l_operand) rest₃ (at_input w rest₂) refl
            ok.memory refl,
        read_stream-done (count + 2) 0 (le_bytes 1 eq.opt) rest₄ (at_input w rest₃) refl ok.memory
            refl,
        read_stream-done (count + 2) 7 (le_bytes 8 eq.r_operand) rest₅ (at_input w rest₄) refl
            ok.memory refl,
        ok.seeks,
      )
      λ i.
        done
          (record {
            eq_id = le_value-le_bytes 4 eq.eq_id fits.id_fits i;
            flags = le_value-le_bytes 1 eq.flags fits.flags_fits i;
            l_operand = le_value-le_bytes 8 eq.l_operand fits.l_fits i;
            opt = le_value-le_bytes 1 eq.opt fits.opt_fits i;
            r_operand = le_value-le_bytes 8 eq.r_operand fits.r_fits i;
            solution = sym fits.not_solved i;
          })
          (record w { input = rest; seekable = true })

read_nodes-eqs_bytes :
    (eqs have : List UnsolvedEq) (i : ℕ) (rest : List ℕ) (w : World)
    → AllUnsolved eqs
    → IsRegular w
    → w.input ≡ eqs_bytes eqs ++ rest
    → i + length eqs < 2 ^ 31
    → read_nodes (length eqs) i have w
      ≡ done (have ++ eqs) (record w { input = rest; live = w.live + length eqs })
unfolding read_nodes alloc
read_nodes-eqs_bytes [] have i rest w all ok e few =
    let same_live : w.live ≡ w.live + 0 = omega arith in
    λ j. done (sym (append-nil have) j) (record w { input = e j; live = same_live j })
read_nodes-eqs_bytes (eq ∷ eqs) have i rest w all ok e few =
    let w₁ : World = record w { allocs = []; live = w.live + 1 } in
    let ok₁ : IsRegular w₁ = record { memory = refl; seeks = ok.seeks; whole = ok.whole } in
    let rest₁ = eqs_bytes eqs ++ rest in
    let same_live : w.live + 1 + length eqs ≡ w.live + suc (length eqs) = omega arith in
    let inside : (i == 2 ^ 31 - 1) ≡ false = ground arith in
    rw
      (
        ok.memory,
        read_node-eq_bytes i eq rest₁ w₁ all.0 ok₁ e,
        inside,
        read_nodes-eqs_bytes eqs (have ++ eq ∷ []) (i + 1) rest (at_input w₁ rest₁) all.1
            (record { memory = refl; seeks = ok.seeks; whole = ok.whole }) refl (omega arith),
      )
      λ j.
        done (append_assoc have (eq ∷ []) eqs j)
          (record w { input = rest; allocs = []; live = same_live j })

-- The equations are looked for next to the header, whatever the offset says.
pub parse_stream-file_bytes :
    (file : Equations) (rest : List ℕ) (w : World)
    → IsFile file
    → IsRegular w
    → w.input ≡ file_bytes file ++ rest
    → parse_stream w ≡ done file (record w { input = rest; live = w.live + 1 + length file.eqs })
unfolding parse_stream alloc read
parse_stream-file_bytes file rest w is ok e =
    let w₀ : World = record w { allocs = []; live = w.live + 1 } in
    let rest₆ = eqs_bytes file.eqs ++ rest in
    let rest₅ = le_bytes 2 file.num_of_opts ++ rest₆ in
    let rest₄ = le_bytes 4 file.offset ++ rest₅ in
    let rest₃ = le_bytes 1 file.flags ++ rest₄ in
    let rest₂ = le_bytes 8 file.number_of_eq ++ rest₃ in
    let rest₁ = le_bytes 8 file.file_id ++ rest₂ in
    let four : min 4 w.burst ≡ 4 = omega (arith, ok.whole) in
    let magic : le_value (le_bytes 4 file.magic_id) ≡ magic_value =
      le_value-le_bytes 4 file.magic_id (omega (arith, is.magic)) ∙ is.magic in
    let number : le_value (le_bytes 8 file.number_of_eq) ≡ length file.eqs =
      le_value-le_bytes 8 file.number_of_eq (omega (arith, is.few)) ∙ is.counted in
    rw
      (
        four,
        e,
        magic,
        ok.memory,
        read_stream-done 1 7 (le_bytes 8 file.file_id) rest₂ (at_input w₀ rest₁) refl refl refl,
        read_stream-done 1 7 (le_bytes 8 file.number_of_eq) rest₃ (at_input w₀ rest₂) refl refl
            refl,
        read_stream-done 1 0 (le_bytes 1 file.flags) rest₄ (at_input w₀ rest₃) refl refl refl,
        read_stream-done 1 3 (le_bytes 4 file.offset) rest₅ (at_input w₀ rest₄) refl refl refl,
        read_stream-done 1 1 (le_bytes 2 file.num_of_opts) rest₆ (at_input w₀ rest₅) refl refl refl,
        number,
        read_nodes-eqs_bytes file.eqs [] 0 rest (at_input w₀ rest₆) is.unsolved
            (record { memory = refl; seeks = ok.seeks; whole = ok.whole }) refl
            (omega (arith, is.few, is.counted)),
      )
      λ i.
        done
          (record {
            magic_id = sym is.magic i;
            file_id = le_value-le_bytes 8 file.file_id is.id_fits i;
            number_of_eq = sym is.counted i;
            flags = le_value-le_bytes 1 file.flags is.flags_fits i;
            offset = le_value-le_bytes 4 file.offset is.offset_fits i;
            num_of_opts = le_value-le_bytes 2 file.num_of_opts is.opts_fit i;
            eqs = file.eqs;
          })
          (record w { input = rest; allocs = []; live = w.live + 1 + length file.eqs })

-- The number of bytes in the header of a file.
abbrev pub header_size : ℕ
header_size = 27

-- With its equations at the offset that it gives, which is where its header ends.
pub record IsAtOffset (file : Equations) (gap : List ℕ) : Type 0 where
  pub placed : header_size + length gap ≡ file.offset
  pub next : file.offset ≡ header_size

no_gap : (file : Equations) (gap : List ℕ) → IsAtOffset file gap → gap ≡ []
no_gap file [] h = refl
no_gap file (b ∷ gap) h = absurd (omega (arith, h.placed, h.next))

-- From a regular file, with memory, a file of fewer than 2 ^ 31 equations whose fields fit their C
-- types, and whose equations stand at the offset that its header gives, is read as it was written,
-- its equations in their order, if that offset is 27, where the header ends. What follows the file
-- is left to read, and the blocks that stay are one for the file and one for each equation.
pub parse_stream-gap_bytes :
    (file : Equations) (gap rest : List ℕ) (w : World)
    → IsFile file
    → IsAtOffset file gap
    → IsRegular w
    → w.input ≡ gap_bytes gap file ++ rest
    → parse_stream w ≡ done file (record w { input = rest; live = w.live + 1 + length file.eqs })
parse_stream-gap_bytes file gap rest w is at ok e =
    parse_stream-file_bytes file rest w is ok
      (e ∙ ap (λ (l : List ℕ). gap_bytes l file ++ rest) (no_gap file gap at))
