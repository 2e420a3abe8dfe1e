-- ===== src/Session/Scarce.antt =====
-- What a session leaves, whatever the allocator answers.
use net_math.Base.{
  ℕ, ◌+◌, ◌-◌, ◌≤◌, ◌≡◌, ◌⊎◌, true, false, not, ◌++◌, if◌then◌else◌, ltb, ◌==◌, take,
}
use net_math.Io.{World, Outcome, done, null, fault, M, undefined, ◌>>◌, free, close}
use net_math.Stream.Scarce.{is_scarce}
use net_math.Header.{
  NetHeader, Host, serialize_header, free_header, net_max_header_size, net_max_file_name,
}
use net_math.Session.{cleared, is_terminated, error_reply}
use net_math.Session.Laws.{accepts, is_survived}

-- The socket is closed, the block of the descriptor is freed, and at most two others are kept.
abbrev pub Closed : Host → NetHeader → (w w' : World) → Type 0
Closed host header w w' =
    (w'.open_sockets ≡ w.open_sockets - 1)
    × (w.live ≤ w'.live + 1)
    × (w'.live ≤ w.live + 1)
    × ((w'.output ≡ w.output)
        ⊎ ((accepts header ≡ false)
            × (n : ℕ) × (w'.output ≡ w.output ++ take n (serialize_header host (cleared header)))))

-- Without memory for the reply: the socket stays open, and the header stays allocated.
abbrev pub Abandoned : NetHeader → (w w' : World) → Type 0
Abandoned header w w' =
    (is_scarce w.allocs ≡ true)
    × (accepts header ≡ false)
    × (w'.open_sockets ≡ w.open_sockets)
    × (w'.live ≡ w.live + 1)
    × (w'.output ≡ w.output)

abbrev pub Ends : Host → NetHeader → World → Outcome (Unit {0}) → Type 0
Ends host header w (done u w') = Closed host header w w' ⊎ Abandoned header w w'
Ends host header w (null w') = ⊥
Ends host header w fault = (is_scarce w.allocs ≡ true) ⊎ (is_survived header w.peer ≡ false)

-- `serve_client` after `read_header`.
abbrev with_header : Host → NetHeader → M (Unit {0})
with_header host header =
    if not (is_terminated header.file_name)
    then undefined
    else if not (net_max_header_size == header.header_size)
    then error_reply host header
    else if ltb net_max_file_name header.name_len
    then error_reply host header
    else (do close; free 1; free_header header)
