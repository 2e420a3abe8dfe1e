-- ===== src/Header/Memory.antt =====
-- What `read_header` leaves in memory when the input is too short for a header.
use net_math.Base.{ℕ, ◌+◌, ◌<◌, ◌≡◌, refl, ap, ◌∙◌, [], arith, length}
use net_math.Io.{World, null, alloc}
use net_math.Stream.Laws.{at_input, read_stream-short, read_stream-then_short}
use net_math.Header.{Host, read_header}

-- With memory, `read_header` returns NULL for fewer than 48 bytes, whatever they are. It consumes
-- them, and leaves two blocks allocated.
pub read_header-short :
    (host : Host) (w : World)
    → w.allocs ≡ []
    → length w.input < 48
    → read_header host w ≡ null (record w { input = []; live = w.live + 2 })
unfolding read_header alloc
read_header-short host w m h =
    let w₀ : World = record w { allocs = []; live = w.live + 1 } in
    rw m (
      read_stream-then_short 1 3 44 _ w₀ refl h (λ size rest₁ h₁.
        read_stream-then_short 1 3 40 _ (at_input w₀ rest₁) refl h₁ λ len rest₂ h₂.
          read_stream-then_short 1 7 32 _ (at_input w₀ rest₂) refl h₂
            λ total rest₃ h₃. rw (read_stream-short 1 32 (at_input w₀ rest₃) refl h₃))
      ∙ ap (λ (k : ℕ). null (record w { input = []; allocs = []; live = k })) (omega arith))
