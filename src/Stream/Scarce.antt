-- ===== src/Stream/Scarce.antt =====
-- `read_stream` whatever the allocator answers.
use net_math.Base.{
  ℕ, zero, suc, ◌+◌, ◌-◌, ◌≤◌, ◌≡◌, ◌⊎◌, refl, sym, ◌∙◌, Bool, true, false, not, ◌||◌, List, [],
  ◌∷◌, ◌++◌, arith, take, drop, Bool-cases, inl, inr, if◌then◌else◌,
}
use mathlib.Core.List.{append_assoc}
use net_math.Io.{
  World, Peer, Outcome, done, null, fault, and_next, alloc, pure, ◌>>◌, free, read_byte, take_block,
  later_blocks,
}
use net_math.Stream.Laws.{at_input, suc-ne-zero}
use net_math.Stream.{read_loop, read_stream}

-- Whether an allocation is to fail.
abbrev pub is_scarce : List Bool → Bool
is_scarce [] = false
is_scarce (b ∷ bs) = not b || is_scarce bs

-- What was sent, and what the peer does.
abbrev pub line : World → List ℕ × Peer
line w = (w.output, w.peer)

-- The sockets are the same, as is what was sent and the peer, and no allocation fails later that
-- was not to.
abbrev pub Quiet : (w w' : World) → Type 0
Quiet w w' =
    (w'.open_sockets ≡ w.open_sockets)
    × (line w' ≡ line w)
    × (is_scarce w'.allocs ≡ true → is_scarce w.allocs ≡ true)

pub Quiet-trans : (a b c : World) → Quiet a b → Quiet b c → Quiet a c
Quiet-trans a b c q r = (r.0 ∙ q.0, r.1 ∙ q.1, λ h. q.2 (r.2 h))

-- A call that frees `owned` blocks where it fails, and where it does not, keeps `kept` more and has
-- a result that fits what is left to read. `F` holds if it is undefined and no allocation fails.
abbrev pub Leaves :
    {A : Type 0} (F : Type 0)
    → (A → List ℕ → Type 0)
    → (owned kept : ℕ) → World
    → Outcome A
    → Type 0
Leaves F P owned kept w (done a w') = Quiet w w' × (w'.live ≡ w.live + kept) × P a w'.input
Leaves F P owned kept w (null w') =
    Quiet w w' × (w.live ≤ w'.live + owned) × (w'.live + owned ≤ w.live + 2)
Leaves F P owned kept w fault = (is_scarce w.allocs ≡ true) ⊎ F

-- The first `n` bytes, and the rest.
abbrev pub Split : (n : ℕ) (input bytes rest : List ℕ) → Type 0
Split n input bytes rest = (bytes ≡ take n input) × (rest ≡ drop n input)

abbrev LoopLeaves :
    (P : List ℕ → List ℕ → Type 0) (owned : ℕ) (payload_ok : Bool) (w : World)
    → Outcome (List ℕ)
    → Type 0
LoopLeaves P owned payload_ok w (done a w') =
    Quiet w w' × (w'.live ≡ w.live) × (payload_ok ≡ true) × P a w'.input
LoopLeaves P owned payload_ok w (null w') = Quiet w w' × (w'.live ≡ w.live - owned)
LoopLeaves P owned payload_ok w fault = payload_ok ≡ false

-- `have` and the first of the bytes that are to come, and the rest of those.
abbrev Added : (n : ℕ) (have input bytes rest : List ℕ) → Type 0
Added n have input bytes rest = (bytes ≡ have ++ take n input) × (rest ≡ drop n input)

read_loop-LoopLeaves :
    (owned left : ℕ) (payload_ok : Bool) (have input : List ℕ) (w : World)
    → w.input ≡ input
    → LoopLeaves
        (Added (suc left) have input)
        owned
        payload_ok
        w
        (read_loop owned payload_ok (suc left) have w)
unfolding read_loop read_byte free
read_loop-LoopLeaves owned left payload_ok have [] w e = rw e ((refl, refl, λ h. h), refl)
read_loop-LoopLeaves owned left false have (b ∷ bs) w e = rw e refl
read_loop-LoopLeaves owned zero true have (b ∷ bs) w e =
    rw e ((refl, refl, λ h. h), refl, refl, (refl, refl))
read_loop-LoopLeaves owned (suc left) true have (b ∷ bs) w e =
    rw (e, suc-ne-zero left)
      (moved (read_loop owned true (suc left) (have ++ b ∷ []) (at_input w bs))
        (read_loop-LoopLeaves owned left true (have ++ b ∷ []) bs (at_input w bs) refl))
  where
    moved :
        (o : Outcome (List ℕ))
        → LoopLeaves (Added (suc left) (have ++ b ∷ []) bs) owned true w o
        → LoopLeaves (Added (suc (suc left)) have (b ∷ bs)) owned true w o
    moved (done a w') l =
        (l.0, l.1, l.2, (l.3.0 ∙ append_assoc have (b ∷ []) (take (suc left) bs), l.3.1))
    moved (null w') l = l
    moved fault l = l

pub later_blocks-is_scarce :
    (l : List Bool) → is_scarce (later_blocks l) ≡ true → is_scarce l ≡ true
later_blocks-is_scarce [] h = h
later_blocks-is_scarce (false ∷ l) h = refl
later_blocks-is_scarce (true ∷ l) h = h

both_later : (l : List Bool) → is_scarce (later_blocks (later_blocks l)) ≡ true → is_scarce l ≡ true
both_later l h = later_blocks-is_scarce l (later_blocks-is_scarce (later_blocks l) h)

pub take_block-is_scarce : (l : List Bool) → take_block l ≡ false → is_scarce l ≡ true
take_block-is_scarce [] h = cc
take_block-is_scarce (b ∷ l) h = rw h

-- With one or two buffers, which a loop that ends well gives back.
abbrev buffered : (payload_ok : Bool) → World → World
buffered payload_ok w = record w {
  allocs = later_blocks (later_blocks w.allocs);
  live = if payload_ok then w.live + 1 + 1 else w.live + 1;
}

loop_end-Leaves :
    (F : Type 0) (P : List ℕ → List ℕ → Type 0) (owned : ℕ) (payload_ok : Bool) (w : World)
    (o : Outcome (List ℕ))
    → owned ≤ w.live
    → payload_ok ≡ take_block (later_blocks w.allocs)
    → LoopLeaves P owned payload_ok (buffered payload_ok w) o
    → Leaves F P owned 0 w (and_next o (λ bytes. free 2 >> pure bytes))
unfolding free
loop_end-Leaves F P owned true w (done bytes w') h e l =
    ((l.0.0, l.0.1, λ s. both_later w.allocs (l.0.2 s)), omega (arith, l.1), l.3)
loop_end-Leaves F P owned false w (done bytes w') h e l = cc l.2
loop_end-Leaves F P owned true w (null w') h e l =
    ((l.0.0, l.0.1, λ s. both_later w.allocs (l.0.2 s)), omega (arith, l.1), omega (arith, l.1))
loop_end-Leaves F P owned false w (null w') h e l =
    ((l.0.0, l.0.1, λ s. both_later w.allocs (l.0.2 s)), omega (arith, l.1), omega (arith, l.1))
loop_end-Leaves F P owned payload_ok w fault h e l =
    inl (later_blocks-is_scarce w.allocs (take_block-is_scarce (later_blocks w.allocs) (sym e ∙ l)))

pub read_stream-Leaves :
    (F : Type 0) (owned n : ℕ) (w : World)
    → owned ≤ w.live
    → Leaves F (Split (suc n) w.input) owned 0 w (read_stream owned (suc n) w)
unfolding read_stream alloc free
read_stream-Leaves F owned n w h = elim (Bool-cases (take_block w.allocs)) [
  | inr refused ↦ elim (Bool-cases (take_block (later_blocks w.allocs))) [
    | inl ok ↦ rw (refused, ok) ((refl, refl, both_later w.allocs), omega arith, omega arith)
    | inr not_ok ↦
        rw (refused, not_ok) ((refl, refl, both_later w.allocs), omega arith, omega arith)
  ]
  | inl taken ↦
      let payload_ok = take_block (later_blocks w.allocs) in
      rw taken (
        loop_end-Leaves F (Split (suc n) w.input) owned payload_ok w
          (read_loop owned payload_ok (suc n) [] (buffered payload_ok w)) h refl
          (read_loop-LoopLeaves owned n payload_ok [] w.input (buffered payload_ok w) refl))
]

later-Leaves :
    {B : Type 0} (F : Type 0) (Q : B → List ℕ → Type 0) (owned kept : ℕ) (w w' : World)
    (o : Outcome B)
    → Quiet w w'
    → w'.live ≡ w.live
    → Leaves F Q owned kept w' o
    → Leaves F Q owned kept w o
later-Leaves F Q owned kept w w' (done b w₂) q same k =
    (Quiet-trans w w' w₂ q k.0, omega (arith, k.1, same), k.2)
later-Leaves F Q owned kept w w' (null w₂) q same k =
    (Quiet-trans w w' w₂ q k.0, omega (arith, k.1, same), omega (arith, k.2, same))
later-Leaves F Q owned kept w w' fault q same (inl scarce) = inl (q.2 scarce)
later-Leaves F Q owned kept w w' fault q same (inr f) = inr f

-- A call after one that left the blocks as they were.
pub and_next-Leaves :
    {A B : Type 0} (F : Type 0) (P : A → List ℕ → Type 0) (Q : B → List ℕ → Type 0) (owned kept : ℕ)
    (w : World) (o : Outcome A) (f : A → World → Outcome B)
    → Leaves F P owned 0 w o
    → ((a : A) (w' : World) → w'.live ≡ w.live → P a w'.input → Leaves F Q owned kept w' (f a w'))
    → Leaves F Q owned kept w (and_next o f)
and_next-Leaves F P Q owned kept w (done a w') f l next =
    let same : w'.live ≡ w.live = omega (arith, l.1) in
    later-Leaves F Q owned kept w w' (f a w') l.0 same (next a w' same l.2)
and_next-Leaves F P Q owned kept w (null w') f l next = l
and_next-Leaves F P Q owned kept w fault f l next = l

-- With a block that is freed with the others if a later call fails.
abbrev pub opened : World → World
opened w = record w { allocs = later_blocks w.allocs; live = w.live + 1 }

pub opened-Leaves :
    {A : Type 0} (F : Type 0) (P : A → List ℕ → Type 0) (owned owned' kept kept' : ℕ) (w : World)
    (o : Outcome A)
    → owned' ≡ owned + 1
    → kept' ≡ kept + 1
    → Leaves F P owned' kept (opened w) o
    → Leaves F P owned kept' w o
opened-Leaves F P owned owned' kept kept' w (done a w') e e' l =
    ((l.0.0, l.0.1, λ h. later_blocks-is_scarce w.allocs (l.0.2 h)), omega (arith, l.1), l.2)
opened-Leaves F P owned owned' kept kept' w (null w') e e' l = (
  (l.0.0, l.0.1, λ h. later_blocks-is_scarce w.allocs (l.0.2 h)),
  omega (arith, l.1),
  omega (arith, l.2),
)
opened-Leaves F P owned owned' kept kept' w fault e e' (inl scarce) =
    inl (later_blocks-is_scarce w.allocs scarce)
opened-Leaves F P owned owned' kept kept' w fault e e' (inr f) = inr f
