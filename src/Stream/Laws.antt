-- ===== src/Stream/Laws.antt =====
-- `read_stream` returns exactly the bytes that it was asked for, or fails at the end of the input.
use net_math.Base.{
  ℕ, zero, suc, ◌+◌, ◌-◌, ◌<◌, ◌≤◌, ◌≡◌, refl, sym, ap, ◌∙◌, take, drop, take-drop, drop-drop,
  length-take, length-drop, dec_lt, true, false, List, [], ◌∷◌, ◌++◌, arith, length, ◌==◌,
}
use mathlib.Core.List.{append_assoc}
use net_math.Io.{World, done, null, M, ◌>>=◌, alloc, free, read_byte}
use net_math.Stream.{read_loop, read_stream}

-- The world with its input moved on.
abbrev pub at_input : World → List ℕ → World
at_input w input = record w { input = input }

pub suc-ne-zero : (n : ℕ) → (suc n == 0) ≡ false
suc-ne-zero n = ground arith

read_loop-done :
    (owned : ℕ) (b : ℕ) (bs have rest : List ℕ) (w : World)
    → w.input ≡ b ∷ (bs ++ rest)
    → read_loop owned true (suc (length bs)) have w ≡ done (have ++ b ∷ bs) (at_input w rest)
unfolding read_loop read_byte
read_loop-done owned b [] have rest w e = rw e
read_loop-done owned b (c ∷ bs) have rest w e =
    rw (e, suc-ne-zero (length bs))
      (read_loop-done owned c bs (have ++ b ∷ []) rest (at_input w (c ∷ (bs ++ rest))) refl
        ∙ ap (λ t. done t (at_input w rest)) (append_assoc have (b ∷ []) (c ∷ bs)))

read_loop-short :
    (owned left : ℕ) (xs have : List ℕ) (w : World)
    → w.input ≡ xs
    → length xs < left
    → read_loop owned true left have w ≡ null (record w { input = []; live = w.live - owned })
unfolding read_loop read_byte free
read_loop-short owned zero xs have w e h = absurd (omega arith)
read_loop-short owned (suc left) [] have w e h = rw e
read_loop-short owned (suc left) (x ∷ xs) have w e h =
    let more : (left == 0) ≡ false = ground arith in
    rw (e, more) (read_loop-short owned left xs (have ++ x ∷ []) (at_input w xs) refl (omega arith))

-- With memory, and at least as many bytes to come: the next bytes of the input, and no block is
-- left behind.
pub read_stream-done :
    (owned n : ℕ) (bs rest : List ℕ) (w : World)
    → w.input ≡ bs ++ rest
    → w.allocs ≡ []
    → length bs ≡ suc n
    → read_stream owned (suc n) w ≡ done bs (at_input w rest)
unfolding read_stream alloc free
read_stream-done owned n [] rest w e m l = absurd (omega arith)
read_stream-done owned n (b ∷ bs) rest w e m l =
    let same : n ≡ length bs = omega arith in
    rw
      (
        m,
        same,
        read_loop-done owned b bs [] rest (record w { allocs = []; live = w.live + 1 + 1 }) e,
      )
      (ap (λ (k : ℕ). done (b ∷ bs) (record w { input = rest; allocs = []; live = k }))
        (omega arith))

-- With memory, and fewer bytes to come: the call fails, the payload is freed, the two buffers
-- are not.
pub read_stream-short :
    (owned n : ℕ) (w : World)
    → w.allocs ≡ []
    → length w.input < n
    → read_stream owned n w ≡ null (record w { input = []; live = w.live + 2 - owned })
unfolding read_stream alloc free
read_stream-short owned n w m h =
    rw
      (
        m,
        read_loop-short owned n w.input [] (record w { allocs = []; live = w.live + 1 + 1 }) refl h,
      )
      (ap (λ (k : ℕ). null (record w { input = []; allocs = []; live = k })) (omega arith))

-- With memory, in the middle of bytes of which enough are left.
pub read_stream-at :
    (owned offset n : ℕ) (xs : List ℕ) (w : World)
    → w.input ≡ drop offset xs
    → w.allocs ≡ []
    → offset + suc n ≤ length xs
    → read_stream owned (suc n) w
      ≡ done (take (suc n) (drop offset xs)) (at_input w (drop (offset + suc n) xs))
read_stream-at owned offset n xs w e m h =
    read_stream-done owned n (take (suc n) (drop offset xs)) (drop (offset + suc n) xs) w
      (e
        ∙ sym (take-drop (suc n) (drop offset xs))
        ∙ ap (λ t. take (suc n) (drop offset xs) ++ t) (drop-drop offset (suc n) xs))
      m (length-take (suc n) (drop offset xs) (omega (arith, length-drop offset xs)))

-- A chain of reads whose sum the input does not reach ends as its first short read does.
pub read_stream-then_short :
    {B : Type 0} (owned n k : ℕ) (f : List ℕ → M B) (w : World)
    → w.allocs ≡ []
    → length w.input < suc n + k
    → ((bs rest : List ℕ)
        → length rest < k
        → f bs (at_input w rest) ≡ null (record w { input = []; live = w.live + 2 - owned }))
    → (read_stream owned (suc n) >>= f) w
      ≡ null (record w { input = []; live = w.live + 2 - owned })
read_stream-then_short owned n k f w m h next = elim (dec_lt (length w.input) (suc n)) [
  | yes short ↦ rw (read_stream-short owned (suc n) w m short)
  | no enough ↦
      let now = take (suc n) w.input in
      let later = drop (suc n) w.input in
      rw
        (read_stream-done owned n now later w (sym (take-drop (suc n) w.input)) m
          (length-take (suc n) w.input (omega arith)))
        (next now later (omega (arith, length-drop {0} (suc n) w.input)))
]
