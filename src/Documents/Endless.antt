-- ===== src/Documents/Endless.antt =====
-- When `chunk_document_text` of chunking.py ends. It does if no chunk can lie within the overlap,
-- and it does not if one does that is not the last.
use llama_pack.Prelude.{
  ℕ, zero, suc, ◌≤◌, ◌<◌, true, false, ◌≡◌, refl, List, [], ◌∷◌, length, arith, leb, lt→ltb,
}
use llama_pack.Prelude.Text.{Text}
use llama_pack.Documents.Chunking.{
  done, running, and_then, chunk_end_index, chunk_loop, overlap_start_index, slice, join,
}
use llama_pack.Documents.Lengths.{Words, grow, chunk_end_index-Chunk}
use llama_pack.Documents.Overlaps.{overlap_start-Back}

not_last : (m n : ℕ) → n < m → leb m n ≡ false
not_last m n h = ground (arith, h)

le→leb : (m n : ℕ) → m ≤ n → leb m n ≡ true
le→leb m n h = ground (arith, h)

-- One round of the loop, if it is not the last one.
pub chunk_loop-round :
    (fuel : ℕ) (words : List Text) (m o i e : ℕ)
    → i < length words
    → chunk_end_index words i m ≡ done e
    → e < length words
    → chunk_loop (suc fuel) words m o i
      ≡ and_then
          (chunk_loop fuel words m o (overlap_start_index words i e o))
          λ rest. done (join (slice words i e) ∷ rest)
unfolding chunk_loop
chunk_loop-round fuel words m o i e l c l' =
    rw (chunk_loop, lt→ltb i (length words) l, and_then, c, not_last _ _ l') refl

-- The last round.
pub chunk_loop-last :
    (fuel : ℕ) (words : List Text) (m o i e : ℕ)
    → i < length words
    → chunk_end_index words i m ≡ done e
    → length words ≤ e
    → chunk_loop (suc fuel) words m o i ≡ done (join (slice words i e) ∷ [])
unfolding chunk_loop
chunk_loop-last fuel words m o i e l c l' =
    rw (chunk_loop, lt→ltb i (length words) l, and_then, c, le→leb _ _ l') refl

-- Code bug: if the chunk that starts at a word lies within the overlap as a whole, and words are
-- left after it, the loop never ends.
pub chunk_loop-endless :
    (fuel : ℕ) (words : List Text) (max_chars overlap_chars i e : ℕ)
    → Words words
    → 0 < overlap_chars
    → i ≤ length words
    → chunk_end_index words i max_chars ≡ done e
    → e < length words
    → grow 0 (slice words i e) ≤ overlap_chars
    → chunk_loop fuel words max_chars overlap_chars i ≡ running
unfolding chunk_loop
chunk_loop-endless zero words m o i e h p le c l short = refl
chunk_loop-endless (suc fuel) words m o i e h p le c l short =
    let chunk = chunk_end_index-Chunk words m i e le c in
    let back =
      overlap_start-Back words i e o h (omega (arith, chunk.grows)) (omega (arith, l))
        chunk.grows in
    let again = back.whole p short in
    let rest = chunk_loop-endless fuel words m o i e h p le c l short in
    rw (chunk_loop-round fuel words m o i e (omega (arith, l, chunk.grows)) c l, again, rest) refl
