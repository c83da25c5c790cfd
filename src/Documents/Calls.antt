-- ===== src/Documents/Calls.antt =====
-- `chunk_document_text` of chunking.py as a whole, from the text to its chunks.
use mathlib.Core.List.{reverse_aux}
use llama_pack.Prelude.{
  ℕ, ◌≤◌, ◌<◌, ◌≡◌, refl, ◌∙◌, List, [], ◌∷◌, length, arith, Bool-cases, inl, inr,
}
use llama_pack.Prelude.Int.{ℤ, pos, pos_part, ltb_ℤ}
use llama_pack.Prelude.Text.{Text, is_space}
use llama_pack.Documents.Chunking.{
  done, running, emit, split_from, split, chunk_loop, chunk_words, chunk_document_text,
  chunk_end_index, slice, join,
}
use llama_pack.Documents.Lengths.{Words, grow, grow-join}
use llama_pack.Documents.Overlaps.{slice-Words}
use llama_pack.Documents.Endless.{chunk_loop-endless}
use llama_pack.Documents.Ending.{Fitting, chunk_loop-ends}
use llama_pack.Documents.Spans.{Covers, chunk_loop-Covers}

reverse_aux-length : (s t : Text) → length t ≤ length (reverse_aux s t)
reverse_aux-length [] t = omega arith
reverse_aux-length (c ∷ s) t = omega (arith, reverse_aux-length s (c ∷ t))

emit-Words : (w : Text) (ws : List Text) → Words ws → Words (emit w ws)
emit-Words [] ws h = h
emit-Words (c ∷ w) ws h = (omega (arith, reverse_aux-length w (c ∷ [])), h)

-- str.split() gives no empty word.
split_from-Words : (s w : Text) → Words (split_from w s)
unfolding split_from
split_from-Words [] w = emit-Words w [] tt
split_from-Words (c ∷ s) w = elim (Bool-cases (is_space c)) [
  | inl space ↦ rw (split_from, space) (emit-Words w (split_from [] s) (split_from-Words s []))
  | inr letter ↦ rw (split_from, letter) (split_from-Words s (c ∷ w))
]

split-Words : (s : Text) → Words (split s)
unfolding split
split-Words s = split_from-Words s []

-- The tests at the start of the call.
chunk_document_text-words :
    (fuel : ℕ) (text : Text) (m o : ℕ)
    → o < m
    → chunk_document_text fuel text (pos m) (pos o) ≡ chunk_words fuel m o (split text)
unfolding chunk_document_text
chunk_document_text-words fuel text m o h = ground (arith, h)

-- They hold where the call returns.
chunk_document_text-inv :
    (fuel : ℕ) (text : Text) (m o : ℤ) (chunks : List Text)
    → chunk_document_text fuel text m o ≡ done chunks
    → chunk_words fuel (pos_part m) (pos_part o) (split text) ≡ done chunks
unfolding chunk_document_text
chunk_document_text-inv fuel text m o chunks h = elim (Bool-cases (ltb_ℤ (pos 0) m)) [
  | inr bad ↦ let h' = rw bad at h in cc
  | inl a ↦ elim (Bool-cases (ltb_ℤ o (pos 0))) [
    | inl bad ↦ let h' = rw (a, bad) at h in cc
    | inr b ↦ elim (Bool-cases (ltb_ℤ o m)) [
      | inl c ↦ rw (a, b, c) at h
      | inr bad ↦ let h' = rw (a, b, bad) at h in cc
    ]
  ]
]

chunk_words-loop :
    (fuel m o : ℕ) (words : List Text)
    → 0 < length words
    → chunk_words fuel m o words ≡ chunk_loop fuel words m o 0
unfolding chunk_words
chunk_words-loop fuel m o [] h = absurd (omega arith)
chunk_words-loop fuel m o (w ∷ words) h = refl

chunk_words-Covers :
    (fuel m o : ℕ) (words chunks : List Text)
    → Words words
    → chunk_words fuel m o words ≡ done chunks
    → Covers words m 0 chunks
unfolding chunk_words
chunk_words-Covers fuel m o [] chunks h d = cc
chunk_words-Covers fuel m o (w ∷ words) chunks h d =
    chunk_loop-Covers fuel (w ∷ words) m o chunks h (omega arith) d

-- If `chunk_document_text` returns, the chunks that it returns cover the words of the text: each
-- chunk joins one or more words that follow each other and is no longer than `max_chars`, the first
-- starts at the first word, each next one where the one before ends or earlier, and the last one
-- ends with the text.
pub chunk_document_text-Covers :
    (fuel : ℕ) (text : Text) (max_chars overlap_chars : ℤ) (chunks : List Text)
    → chunk_document_text fuel text max_chars overlap_chars ≡ done chunks
    → Covers (split text) (pos_part max_chars) 0 chunks
chunk_document_text-Covers fuel text m o chunks h =
    chunk_words-Covers fuel (pos_part m) (pos_part o) (split text) chunks (split-Words text)
      (chunk_document_text-inv fuel text m o chunks h)

-- If the text has a word and each of its words fits in a chunk together with the overlap and a
-- space, `chunk_document_text` returns within as many rounds as there are words, and the chunks
-- cover the words.
pub chunk_document_text-returns :
    (text : Text) (max_chars overlap_chars : ℕ)
    → overlap_chars < max_chars
    → 0 < length (split text)
    → Fitting overlap_chars max_chars (split text)
    → (chunks : List Text) × (chunk_document_text
          (length (split text))
          text
          (pos max_chars)
          (pos overlap_chars)
        ≡ done chunks)
      × Covers (split text) max_chars 0 chunks
chunk_document_text-returns text m o l p f =
    let (chunks, d) = chunk_loop-ends o m (split text) (split-Words text) f l p in
    let d' =
      chunk_document_text-words (length (split text)) text m o l
      ∙ chunk_words-loop (length (split text)) m o (split text) p
      ∙ d in
    (chunks, d', chunk_document_text-Covers (length (split text)) text (pos m) (pos o) chunks d')

-- If the first chunk is not the whole text and is no longer than the overlap,
-- `chunk_document_text` never returns: it starts the next chunk where the first one started, and
-- is still running after any number of rounds.
pub chunk_document_text-never_returns :
    (fuel : ℕ) (text : Text) (max_chars overlap_chars end_index : ℕ)
    → overlap_chars < max_chars
    → 0 < overlap_chars
    → chunk_end_index (split text) 0 max_chars ≡ done end_index
    → end_index < length (split text)
    → length (join (slice (split text) 0 end_index)) ≤ overlap_chars
    → chunk_document_text fuel text (pos max_chars) (pos overlap_chars) ≡ running
chunk_document_text-never_returns fuel text m o e l p c q short =
    let joined =
      grow-join (slice (split text) 0 e) (slice-Words (split text) 0 e (split-Words text)) in
    let short' : grow 0 (slice (split text) 0 e) ≤ o = omega (arith, short, joined) in
    chunk_document_text-words fuel text m o l
    ∙ chunk_words-loop fuel m o (split text) (omega (arith, q))
    ∙ chunk_loop-endless fuel (split text) m o 0 e (split-Words text) p (omega arith) c q short'
