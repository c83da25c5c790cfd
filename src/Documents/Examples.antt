-- ===== src/Documents/Examples.antt =====
-- The theorems on `chunk_document_text` at short texts.
use llama_pack.Prelude.{◌≡◌, refl, List, [], ◌∷◌, length, arith}
use llama_pack.Prelude.Int.{pos}
use llama_pack.Prelude.Text.{Text, codes, is_space}
use llama_pack.Documents.Chunking.{
  done, running, split, split_from, join, end_loop, chunk_end_index, overlap_loop,
  overlap_start_index, chunk_loop, chunk_words, chunk_document_text,
}
use llama_pack.Documents.Spans.{Covers}
use llama_pack.Documents.Calls.{
  chunk_document_text-Covers, chunk_document_text-returns, chunk_document_text-never_returns,
}

abbrev four_words : Text
four_words = codes "ab cd  ef gh"

-- The last word of a chunk starts the next one.
abbrev their_chunks : List Text
their_chunks = codes "ab cd" ∷ codes "cd ef" ∷ codes "ef gh" ∷ []

chunked : chunk_document_text 4 four_words (pos 5) (pos 2) ≡ done their_chunks
unfolding chunk_document_text chunk_words chunk_loop split is_space chunk_end_index end_loop
    overlap_start_index overlap_loop join
chunked = refl

chunk_document_text-Covers_example : Covers (split four_words) 5 0 their_chunks
chunk_document_text-Covers_example =
    chunk_document_text-Covers 4 four_words (pos 5) (pos 2) their_chunks chunked

chunk_document_text-returns_example :
    (chunks : List Text) × (chunk_document_text
        (length (split four_words))
        four_words
        (pos 5)
        (pos 2)
      ≡ done chunks)
    × Covers (split four_words) 5 0 chunks
unfolding split split_from is_space
chunk_document_text-returns_example =
    chunk_document_text-returns four_words 5 2 (omega arith) (omega arith)
      (omega arith, (omega arith, (omega arith, (omega arith, tt))))

-- A short word within the overlap, and a long one that does not fit behind it.
chunk_document_text-never_returns_example :
    chunk_document_text 100 (codes "ab cdefghijk") (pos 10) (pos 5) ≡ running
unfolding split split_from is_space chunk_end_index end_loop join
chunk_document_text-never_returns_example =
    chunk_document_text-never_returns 100 (codes "ab cdefghijk") 10 5 1 (omega arith) (omega arith)
      refl (omega arith) (omega arith)
