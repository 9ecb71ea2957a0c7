-- ===== src/Fetch/Bounds.antt =====
-- The size cap of `read_capped_body`, src/util/fetch.rs.
use serica.Prelude.{
  ℕ, ◌≤◌, ◌<◌, ◌≡◌, refl, ap, ◌∙◌, ◌↔◌, inl, inr, true, List, [], ◌∷◌, ◌++◌, append-nil,
  append_assoc, arith, ltb, leb→le, le→leb, Option, none, some, Bool-cases, length, length-append,
}
use serica.Error.{ok, err, content_too_large}
use serica.Ssrf.Fetch.{Response, Chunk, received, broken}
use serica.Fetch.{Printer, too_large, read_chunks, length_ok, read_capped_bytes}

abbrev pub Stream : Type 0
Stream = List Chunk

-- The stream ends, with no failure, after these bytes.
abbrev pub Carries : List ℕ → Stream → Type 0
Carries bytes [] = bytes ≡ []
Carries bytes (broken e ∷ stream) = ⊥
Carries bytes (received chunk ∷ stream) =
    (rest : List ℕ) × (bytes ≡ chunk ++ rest) × Carries rest stream

module _ (printer : Printer) (max_bytes : ℕ) where
  read_chunks_sound :
      (buf : List ℕ) (stream : Stream) {bytes : List ℕ}
      → length buf ≤ max_bytes
      → read_chunks printer max_bytes buf stream ≡ ok bytes
      → (rest : List ℕ) × (bytes ≡ buf ++ rest) × Carries rest stream × (length bytes ≤ max_bytes)
  unfolding read_chunks
  read_chunks_sound buf [] le h = ([], ground (arith, append-nil buf), refl, ground arith)
  read_chunks_sound buf (broken e ∷ stream) le h = absurd (cc h)
  read_chunks_sound buf (received chunk ∷ stream) {bytes} le h =
      let (rest, is_append, carries, bound) =
        read_chunks_sound (buf ++ chunk) stream {bytes = bytes} (ground arith) (ground arith) in
      (chunk ++ rest, is_append ∙ append_assoc buf chunk rest, (rest, refl, carries), bound)

  read_chunks_complete :
      (buf bytes : List ℕ) (stream : Stream)
      → Carries bytes stream
      → length (buf ++ bytes) ≤ max_bytes
      → read_chunks printer max_bytes buf stream ≡ ok (buf ++ bytes)
  unfolding read_chunks
  read_chunks_complete buf bytes [] c le = rw (c, append-nil)
  read_chunks_complete buf bytes (broken e ∷ stream) c le = absurd c
  read_chunks_complete buf bytes (received chunk ∷ stream) (rest, e, c) le = ground (
    arith,
    read_chunks_complete (buf ++ chunk) rest stream c,
    append_assoc buf chunk rest,
    length-append (buf ++ chunk) rest,
  )

  -- A stated length is within the cap.
  abbrev pub StatedWithin : Option ℕ → Type 0
  StatedWithin none = Unit
  StatedWithin (some n) = n ≤ max_bytes

  length_ok_iff :
      (stated : Option ℕ) → (length_ok printer max_bytes stated ≡ true) ↔ StatedWithin stated
  unfolding length_ok
  length_ok_iff none = (λ h. tt, λ h. refl)
  length_ok_iff (some n) = (λ h. leb→le _ _ h, λ h. le→leb _ _ h)

  -- The body is read exactly when the stream ends with no failure, and neither the stated length nor
  -- the bytes that came exceed the cap; what is read is then all the bytes that came.
  pub read_capped_bytes_iff :
      (response : Response) (bytes : List ℕ)
      → (read_capped_bytes printer max_bytes response ≡ ok bytes) ↔ (
          StatedWithin response.content_length
          × Carries bytes response.chunks
          × (length bytes ≤ max_bytes))
  unfolding read_capped_bytes
  read_capped_bytes_iff response bytes =
      elim (Bool-cases (length_ok printer max_bytes response.content_length)) [
        | inr too_long ↦ rw too_long (
          λ h. absurd (cc h),
          λ h.
              let fits = (length_ok_iff response.content_length).1 h.0 in
              absurd (cc (fits, too_long)),
        )
        | inl fits ↦ rw fits (
          λ h.
              let (rest, same, carries, bound) =
                read_chunks_sound [] response.chunks {bytes = bytes} (omega arith) h in
              ((length_ok_iff response.content_length).0 fits, rw same carries, bound),
          λ h. read_chunks_complete [] bytes response.chunks h.1 h.2,
        )
      ]

  read_chunks_stops :
      (buf bytes : List ℕ) (stream later : Stream)
      → Carries bytes stream
      → length buf ≤ max_bytes
      → max_bytes < length (buf ++ bytes)
      → read_chunks printer max_bytes buf (stream ++ later)
        ≡ err (content_too_large (too_large printer max_bytes))
  unfolding read_chunks
  read_chunks_stops buf bytes [] later c le lt =
      let same : buf ++ bytes ≡ buf = rw c (append-nil buf) in
      absurd (omega (arith, ap length same))
  read_chunks_stops buf bytes (broken e ∷ stream) later c le lt = absurd c
  read_chunks_stops buf bytes (received chunk ∷ stream) later (rest, e, c) le lt =
      elim (Bool-cases (ltb max_bytes (length (buf ++ chunk)))) [
        | inl over ↦ rw over
        | inr under ↦ rw under (
            read_chunks_stops (buf ++ chunk) rest stream later c (ground arith)
              (rw append_assoc (rw (← e) lt)))
      ]

  -- Once the chunks that came carry more bytes than the cap, the body is refused as too large,
  -- whatever comes behind them, and if the stream never ends.
  pub read_capped_bytes_stops :
      (response : Response) (bytes : List ℕ) (stream later : Stream)
      → response.chunks ≡ stream ++ later
      → Carries bytes stream
      → max_bytes < length bytes
      → read_capped_bytes printer max_bytes response
        ≡ err (content_too_large (too_large printer max_bytes))
  unfolding read_capped_bytes
  read_capped_bytes_stops response bytes stream later e c lt =
      elim (Bool-cases (length_ok printer max_bytes response.content_length)) [
        | inr too_long ↦ rw too_long
        | inl fits ↦ rw (fits, e) (read_chunks_stops [] bytes stream later c (omega arith) lt)
      ]
