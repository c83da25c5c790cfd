-- ===== src/Documents/Ending.antt =====
-- `chunk_document_text` of chunking.py ends if each word, a space and the overlap fit in a chunk.
use llama_pack.Prelude.{
  ℕ, zero, suc, ◌+◌, ◌-◌, ◌≤◌, ◌<◌, false, ◌≡◌, refl, ◌∙◌, List, [], ◌∷◌, length, take, drop, arith,
  All, nat_eq, ltb, Bool-cases, inl, inr, ltb→lt, ◌≢◌, length-drop,
}
use llama_pack.Prelude.Text.{Text}
use llama_pack.Documents.Chunking.{
  done, candidate_length, and_then, chunk_end_index, chunk_loop, overlap_start_index, slice, join,
  end_loop,
}
use llama_pack.Documents.Lengths.{Words, grow, not_above, end_loop-Ends, chunk_end_index-Chunk}
use llama_pack.Documents.Overlaps.{overlap_start-Back, All-drop}
use llama_pack.Documents.Endless.{chunk_loop-round, chunk_loop-last}

-- With the overlap and a space in front, the word fits.
abbrev pub Fitting : ℕ → ℕ → List Text → Type 0
Fitting overlap_chars max_chars = All (λ w. overlap_chars + 1 + length w ≤ max_chars)

above-false : (m n : ℕ) → n ≤ m → ltb m n ≡ false
above-false m n h = ground (arith, h)

nat_eq_no : (a b : ℕ) → a ≢ b → nat_eq a b ≡ false
nat_eq_no a b h = ground (arith, h)

end_loop-done :
    (o m : ℕ) (ws : List Text) (current i : ℕ)
    → Fitting o m ws
    → (e : ℕ) × end_loop m ws current i ≡ done e
unfolding end_loop
end_loop-done o m [] current i h = (i, refl)
end_loop-done o m (w ∷ ws) current i h =
    let ok' = above-false m (length w) (omega (arith, h.0)) in
    elim (Bool-cases (ltb m (candidate_length current w))) [
      | inl full ↦ (i, rw (ok', full) refl)
      | inr more ↦
          let (e, ends) = end_loop-done o m ws (candidate_length current w) (suc i) h.1 in
          (e, rw (ok', more) ends)
    ]

end_loop-moves :
    (o m : ℕ) (ws : List Text) (i : ℕ)
    → Fitting o m ws
    → 0 < length ws
    → (e : ℕ) × (end_loop m ws 0 i ≡ done e) × (e ≢ i)
unfolding end_loop
end_loop-moves o m [] i h p = absurd (omega arith)
end_loop-moves o m (w ∷ ws) i h p =
    let ok' = above-false m (length w) (omega (arith, h.0)) in
    let (e, ends) = end_loop-done o m ws (length w) (suc i) h.1 in
    let r = end_loop-Ends m ws (length w) (suc i) e (omega (arith, h.0)) ends in
    (e, rw ok' ends, omega (arith, r.reached))

chunk_end_index-done :
    (o m : ℕ) (words : List Text) (i : ℕ)
    → Fitting o m words
    → i < length words
    → (e : ℕ) × chunk_end_index words i m ≡ done e
unfolding chunk_end_index
chunk_end_index-done o m words i h p =
    let (e, ends, ne) =
      end_loop-moves o m (drop i words) i (All-drop _ i words h)
        (omega (arith, p, length-drop i words)) in
    (e, rw (and_then, ends, nat_eq_no e i ne) refl)

-- One word more.
grow_one_more :
    (o m k : ℕ) (ws : List Text) (n : ℕ)
    → Fitting o m ws
    → o < m
    → grow n (take k ws) ≤ o
    → grow n (take (suc k) ws) ≤ m
unfolding grow
grow_one_more o m zero [] n h l p = omega (arith, l, p)
grow_one_more o m (suc k) [] n h l p = omega (arith, l, p)
grow_one_more o m zero (w ∷ ws) n h l p = ground (arith, h.0, p)
grow_one_more o m (suc k) (w ∷ ws) n h l p = grow_one_more o m k ws (candidate_length n w) h.1 l p

grow-above : (n : ℕ) (ws : List Text) → n ≤ grow n ws
unfolding grow
grow-above n [] = omega arith
grow-above n (w ∷ ws) = ground (arith, grow-above (candidate_length n w) ws)

grow-take_le : (a b : ℕ) (ws : List Text) (n : ℕ) → a ≤ b → grow n (take a ws) ≤ grow n (take b ws)
unfolding grow
grow-take_le zero b ws n h = grow-above n (take b ws)
grow-take_le (suc a) zero ws n h = absurd (omega arith)
grow-take_le (suc a) (suc b) [] n h = omega arith
grow-take_le (suc a) (suc b) (w ∷ ws) n h =
    grow-take_le a b ws (candidate_length n w) (omega (arith, h))

-- A chunk that starts within the overlap of the last one ends after it.
chunk_end_index-past :
    (o m : ℕ) (words : List Text) (i last e : ℕ)
    → Fitting o m words
    → o < m
    → i ≤ last
    → last < length words
    → grow 0 (slice words i last) ≤ o
    → chunk_end_index words i m ≡ done e
    → last < e
chunk_end_index-past o m words i last e h l p q within c =
    let chunk = chunk_end_index-Chunk words m i e (omega (arith, p, q)) c in
    let one : suc last - i ≡ suc (last - i) = omega (arith, p) in
    let fits : grow 0 (slice words i (suc last)) ≤ m =
      rw one (grow_one_more o m (last - i) (drop i words) 0 (All-drop _ i words h) l within) in
    elim (Bool-cases (ltb last e)) [
      | inl more ↦ ltb→lt _ _ more
      | inr less ↦ absurd (
          omega (
            arith,
            fits,
            not_above _ _ less,
            chunk.full (omega (arith, q, not_above _ _ less)),
            grow-take_le (suc e - i) (suc last - i) (drop i words) 0
                (omega (arith, not_above _ _ less)),
          ))
    ]

-- With one round for each word.
chunk_loop-ends_from :
    (fuel o m : ℕ) (words : List Text) (i last : ℕ)
    → Words words
    → Fitting o m words
    → o < m
    → i ≤ last
    → last < length words
    → length words ≤ last + fuel
    → grow 0 (slice words i last) ≤ o
    → (chunks : List Text) × chunk_loop fuel words m o i ≡ done chunks
chunk_loop-ends_from zero o m words i last h f l p q r within = absurd (omega (arith, q, r))
chunk_loop-ends_from (suc fuel) o m words i last h f l p q r within =
    let (e, c) = chunk_end_index-done o m words i f (omega (arith, p, q)) in
    let chunk = chunk_end_index-Chunk words m i e (omega (arith, p, q)) c in
    let past = chunk_end_index-past o m words i last e f l p q within c in
    elim (Bool-cases (ltb e (length words))) [
      | inl more ↦
          let start = overlap_start_index words i e o in
          let back =
            overlap_start-Back words i e o h (omega (arith, chunk.grows)) chunk.inside
              chunk.grows in
          let (rest, ends) =
            chunk_loop-ends_from fuel o m words start e h f l
              (omega (arith, back.before, chunk.grows)) (ltb→lt _ _ more) (omega (arith, past, r))
              back.within in
          (
            join (slice words i e) ∷ rest,
            chunk_loop-round fuel words m o i e (omega (arith, p, q)) c (ltb→lt _ _ more)
                ∙ rw ends refl,
          )
      | inr end' ↦ (
        join (slice words i e) ∷ [],
        chunk_loop-last fuel words m o i e (omega (arith, p, q)) c (not_above _ _ end'),
      )
    ]

-- Where each word fits with the overlap and a space in front, as many rounds as there are words
-- are enough: the loop returns chunks.
pub chunk_loop-ends :
    (o m : ℕ) (words : List Text)
    → Words words
    → Fitting o m words
    → o < m
    → 0 < length words
    → (chunks : List Text) × chunk_loop (length words) words m o 0 ≡ done chunks
unfolding grow
chunk_loop-ends o m words h f l p =
    chunk_loop-ends_from (length words) o m words 0 0 h f l (omega arith) p (omega arith)
      (omega arith)
