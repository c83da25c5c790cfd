-- ===== src/Documents/Spans.antt =====
-- What `chunk_document_text` of chunking.py returns: every word, in order, in chunks that are no
-- longer than the limit.
use llama_pack.Prelude.{
  ℕ, zero, suc, ◌≤◌, ◌<◌, ◌≡◌, refl, sym, ◌∙◌, List, [], ◌∷◌, length, arith, ltb, Bool-cases, inl,
  inr, ltb→lt, lt→ltb,
}
use llama_pack.Prelude.Text.{Text}
use llama_pack.Documents.Chunking.{
  Outcome, done, raised, running, and_then, chunk_end_index, chunk_loop, slice, join,
}
use llama_pack.Documents.Lengths.{Words, grow-join, not_above, Chunk, chunk_end_index-Chunk}
use llama_pack.Documents.Overlaps.{overlap_start-Back, slice-Words}
use llama_pack.Documents.Endless.{chunk_loop-round, chunk_loop-last}

-- The chunks are the words from one index to another, joined. Each starts where the words so far
-- end or before, none is empty, none is longer than the limit, and the last one ends with the words.
pub data Covers (words : List Text) (max_chars : ℕ) : ℕ → List Text → Type 0 where
  all_words : Covers words max_chars (length words) []
  next_chunk :
      {so_far : ℕ} {chunks : List Text} (start end_index : ℕ)
      → start ≤ so_far
      → start < end_index
      → end_index ≤ length words
      → length (join (slice words start end_index)) ≤ max_chars
      → Covers words max_chars end_index chunks
      → Covers words max_chars so_far (join (slice words start end_index) ∷ chunks)

Chunk-fits :
    (words : List Text) (m i e : ℕ)
    → Words words
    → Chunk words m i e
    → length (join (slice words i e)) ≤ m
Chunk-fits words m i e h chunk =
    omega (arith, grow-join (slice words i e) (slice-Words words i e h), chunk.fits)

chunk_loop-inv :
    (fuel : ℕ) (words : List Text) (m o i : ℕ) (chunks : List Text)
    → i < length words
    → chunk_loop (suc fuel) words m o i ≡ done chunks
    → (e : ℕ) × chunk_end_index words i m ≡ done e
unfolding chunk_loop
chunk_loop-inv fuel words m o i chunks l d = go (chunk_end_index words i m) refl
  where
    go :
        (r : Outcome ℕ)
        → chunk_end_index words i m ≡ r
        → (e : ℕ) × chunk_end_index words i m ≡ done e
    go (done e) q = (e, q)
    go (raised x) q = let d' = rw (chunk_loop, lt→ltb i (length words) l, and_then, q) at d in cc
    go running q = let d' = rw (chunk_loop, lt→ltb i (length words) l, and_then, q) at d in cc

cons-inv :
    (r : Outcome (List Text)) (chunk : Text) (chunks : List Text)
    → and_then r (λ rest. done (chunk ∷ rest)) ≡ done chunks
    → (rest : List Text) × (r ≡ done rest) × (chunks ≡ chunk ∷ rest)
cons-inv (done rest) chunk chunks q = (rest, refl, cc)
cons-inv (raised x) chunk chunks q = cc
cons-inv running chunk chunks q = cc

ends-Covers : (words : List Text) (m e : ℕ) → e ≡ length words → Covers words m e []
ends-Covers words m e h = rw h all_words

chunk_loop-Covers_from :
    (fuel : ℕ) (words : List Text) (m o i so_far : ℕ) (chunks : List Text)
    → Words words
    → i ≤ so_far
    → i < length words
    → chunk_loop fuel words m o i ≡ done chunks
    → Covers words m so_far chunks
unfolding chunk_loop
chunk_loop-Covers_from zero words m o i so_far chunks h p l d = cc
chunk_loop-Covers_from (suc fuel) words m o i so_far chunks h p l d =
    let (e, c) = chunk_loop-inv fuel words m o i chunks l d in
    let chunk = chunk_end_index-Chunk words m i e (omega (arith, l)) c in
    let fits = Chunk-fits words m i e h chunk in
    elim (Bool-cases (ltb e (length words))) [
      | inl more ↦
          let back =
            overlap_start-Back words i e o h (omega (arith, chunk.grows)) chunk.inside
              chunk.grows in
          let (rest, got, same) =
            cons-inv _ _ chunks
              (sym (chunk_loop-round fuel words m o i e l c (ltb→lt _ _ more)) ∙ d) in
          rw same (
            next_chunk i e p chunk.grows chunk.inside fits (
              chunk_loop-Covers_from fuel words m o _ e rest h
                (omega (arith, back.before, chunk.grows))
                (omega (arith, back.before, chunk.grows, ltb→lt _ _ more)) got))
      | inr end' ↦
          let whole : e ≡ length words = omega (arith, chunk.inside, not_above _ _ end') in
          let got = sym (chunk_loop-last fuel words m o i e l c (not_above _ _ end')) ∙ d in
          let same : chunks ≡ join (slice words i e) ∷ [] = cc in
          rw same (next_chunk i e p chunk.grows chunk.inside fits (ends-Covers words m e whole))
    ]

-- If the loop returns chunks, they cover the words.
pub chunk_loop-Covers :
    (fuel : ℕ) (words : List Text) (max_chars overlap_chars : ℕ) (chunks : List Text)
    → Words words
    → 0 < length words
    → chunk_loop fuel words max_chars overlap_chars 0 ≡ done chunks
    → Covers words max_chars 0 chunks
chunk_loop-Covers fuel words m o chunks h p d =
    chunk_loop-Covers_from fuel words m o 0 0 chunks h (omega arith) p d
