-- ===== src/Network/Receive.antt =====
-- `recvn`: the pieces in which bytes arrive do not matter, and a connection that closes too early
-- keeps the loop running.
use domq.Prelude.{
  true, ℕ, zero, suc, ◌+◌, ◌-◌, ◌<◌, ◌≤◌, ltb, leb, List, [], ◌∷◌, ◌++◌, length, take, drop, All,
  Result, ok, diverge, ◌≡◌, refl, sym, ◌∙◌, ap, arith, length-append, length-take, length-drop,
  take-append, drop-append, take-append-drop, append_assoc, append-nil, lt→ltb, Bool-cases, inl,
  inr,
}
use domq.Wire.{Bytes}
use domq.Network.{recv, recvn_loop, recvn}

-- The bytes that are still to arrive.
abbrev pub stream : List Bytes → Bytes
stream [] = []
stream (piece ∷ more) = piece ++ stream more

-- No piece is empty: `recv` returns no byte only when the peer has closed.
abbrev pub IsOpen : List Bytes → Type 0
IsOpen incoming = All (λ (piece : Bytes). 0 < length piece) incoming

pub recv_lem :
    (k : ℕ) (incoming : List Bytes)
    → (((recv k incoming).0 ++ stream (recv k incoming).1) ≡ stream incoming)
      × (length (recv k incoming).0 ≤ k)
      × (IsOpen incoming → 0 < k → IsOpen (recv k incoming).1)
      × (IsOpen incoming → 0 < k → 0 < length (stream incoming) → 0 < length (recv k incoming).0)
unfolding recv
recv_lem k [] = (refl, omega arith, λ h p. tt, λ h p q. omega arith)
recv_lem k (piece ∷ more) = elim (Bool-cases (leb (length piece) k)) [
  | inl fits ↦ rw fits (refl, ground arith, λ h p. h.1, λ h p q. h.0)
  | inr cut ↦ rw cut (
    sym (append_assoc (take k piece) _ _) ∙ ap (λ l. l ++ stream more) (take-append-drop k piece),
    ground (arith, length-take k piece),
    λ h p. (ground (arith, length-drop k piece), h.1),
    λ h p q. ground (arith, length-take k piece),
  )
]

recv-stream :
    (k : ℕ) (incoming : List Bytes)
    → (take k (stream incoming)
        ≡ (recv k incoming).0 ++ take (k - length (recv k incoming).0) (stream (recv k incoming).1))
      × (drop k (stream incoming)
          ≡ drop (k - length (recv k incoming).0) (stream (recv k incoming).1))
      × (length (stream incoming)
          ≡ length (recv k incoming).0 + length (stream (recv k incoming).1))
recv-stream k incoming =
    let (whole, short, _, _) = recv_lem k incoming in
    let piece : Bytes = (recv k incoming).0 in
    let later : Bytes = stream (recv k incoming).1 in
    (
      rw (← whole) (take-append k piece later short),
      rw (← whole) (drop-append k piece later short),
      rw (← whole) (length-append piece later),
    )

-- What a run of `recvn` that has k bytes to go ends with.
abbrev Reads : ℕ → Bytes → List Bytes → Result (Bytes × List Bytes) → Type 0
Reads k buffer incoming result =
    (after : List Bytes) × (result ≡ ok (buffer ++ take k (stream incoming), after))
    × (stream after ≡ drop k (stream incoming))
    × IsOpen after

-- A run that goes on behind a piece, seen from before the piece.
Reads-recv :
    (k : ℕ) (buffer : Bytes) (incoming : List Bytes) (result : Result (Bytes × List Bytes))
    → Reads
        (k - length (recv k incoming).0)
        (buffer ++ (recv k incoming).0)
        (recv k incoming).1
        result
    → Reads k buffer incoming result
Reads-recv k buffer incoming result (after, returned, left, still) =
    let (taken, dropped, _) = recv-stream k incoming in
    (
      after,
      returned
          ∙ ap (λ l. ok (l, after))
              (append_assoc buffer (recv k incoming).0 _ ∙ ap (λ l. buffer ++ l) (sym taken)),
      left ∙ sym dropped,
      still,
    )

recvn_loop-Reads :
    (fuel n offset k : ℕ) (buffer : Bytes) (incoming : List Bytes)
    → offset + k ≡ n
    → k ≤ fuel
    → IsOpen incoming
    → k ≤ length (stream incoming)
    → Reads k buffer incoming (recvn_loop fuel n offset buffer incoming)
unfolding recvn_loop
recvn_loop-Reads zero n offset k buffer incoming e hf open_ hl =
    let k0 : k ≡ 0 = omega arith in rw (k0, append-nil) (incoming, ground arith, refl, open_)
recvn_loop-Reads (suc fuel) n offset zero buffer incoming e hf open_ hl =
    (incoming, ground (arith, append-nil buffer), refl, open_)
recvn_loop-Reads (suc fuel) n offset (suc k) buffer incoming e hf open_ hl =
    let to_go : n - offset ≡ suc k = omega arith in
    let (_, short, stays, some_byte) = recv_lem (suc k) incoming in
    let (_, _, counted) = recv-stream (suc k) incoming in
    let got : 0 < length (recv (suc k) incoming).0 = some_byte open_ (omega arith) (omega arith) in
    rw (lt→ltb offset n (omega arith), to_go)
      (Reads-recv (suc k) buffer incoming _ (
        recvn_loop-Reads fuel n _ (suc k - length (recv (suc k) incoming).0) _ _ (omega arith)
          (omega arith) (stays open_ (omega arith)) (omega arith)))

recvn_loop-diverge :
    (fuel n offset : ℕ) (buffer : Bytes) (incoming : List Bytes)
    → offset + length (stream incoming) < n
    → recvn_loop fuel n offset buffer incoming ≡ diverge
unfolding recvn_loop
recvn_loop-diverge zero n offset buffer incoming h = ground arith
recvn_loop-diverge (suc fuel) n offset buffer incoming h =
    let more : ltb offset n ≡ true = lt→ltb offset n (omega arith) in
    let (_, _, counted) = recv-stream (n - offset) incoming in
    rw more (recvn_loop-diverge fuel n _ _ _ (omega arith))

-- As long as n bytes are to come before the peer closes, `recvn` returns the next n of them, and
-- leaves the bytes behind these to later calls, however the stream is cut into pieces.
pub recvn-reads :
    (n : ℕ) (incoming : List Bytes)
    → IsOpen incoming
    → n ≤ length (stream incoming)
    → (after : List Bytes) × (recvn n incoming ≡ ok (take n (stream incoming), after))
      × (stream after ≡ drop n (stream incoming))
      × IsOpen after
unfolding recvn
recvn-reads n incoming h enough =
    recvn_loop-Reads n n 0 n [] incoming (omega arith) (omega arith) h enough

-- A call of `recvn` has read `offset` of its n bytes, in whatever buffer, and less than the missing
-- bytes are to come before the peer closes. Then its loop is still running after any number of
-- rounds, and so is a call that asks for just the missing bytes.
pub recvn-diverge :
    (n fuel offset : ℕ) (buffer : Bytes) (incoming : List Bytes)
    → offset + length (stream incoming) < n
    → (recvn_loop fuel n offset buffer incoming ≡ diverge) × (recvn (n - offset) incoming ≡ diverge)
unfolding recvn
recvn-diverge n fuel offset buffer incoming h = (
  recvn_loop-diverge fuel n offset buffer incoming h,
  recvn_loop-diverge (n - offset) (n - offset) 0 [] incoming (omega arith),
)
