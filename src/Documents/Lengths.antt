-- ===== src/Documents/Lengths.antt =====
-- The lengths that the loops of chunking.py keep are those of the joined words.
use llama_pack.Prelude.{
  ℕ, suc, ◌+◌, ◌-◌, ◌≤◌, ◌<◌, false, ◌≡◌, refl, ◌∙◌, List, [], ◌∷◌, length, take, drop, arith, All,
  nat_eq, ltb, if◌then◌else◌, Bool-cases, inl, inr, length-append, length-drop, ◌≢◌, ltb→lt,
}
use llama_pack.Prelude.Text.{Text}
use llama_pack.Documents.Chunking.{
  Outcome, done, raised, running, no_chunk, and_then, candidate_length, end_loop, chunk_end_index,
  join, slice,
}

-- A list of words, none of them empty.
abbrev pub Words : List Text → Type 0
Words = All (λ w. 0 < length w)

-- `current_length` after the words that follow.
unfoldable pub grow : ℕ → List Text → ℕ
grow current [] = current
grow current (w ∷ ws) = grow (candidate_length current w) ws

length-join_from :
    (n : ℕ) (w : Text) (ws : List Text) → 0 < n → grow n (w ∷ ws) ≡ n + 1 + length (join (w ∷ ws))
unfolding grow join
length-join_from n w [] p = ground arith
length-join_from n w (v ∷ ws) p = ground (
  arith,
  p,
  length-join_from (n + 1 + length w) v ws (omega arith),
  length-append w (32 ∷ join (v ∷ ws)),
)

-- From 0, the words' joined length.
pub grow-join : (ws : List Text) → Words ws → grow 0 ws ≡ length (join ws)
unfolding grow join
grow-join [] h = refl
grow-join (w ∷ []) h = refl
grow-join (w ∷ v ∷ ws) h =
    length-join_from (length w) v ws h.0 ∙ omega (arith, length-append w (32 ∷ join (v ∷ ws)))

-- What the loop returns: so many words more, whose joined length still fits.
pub record Ends (max_chars current end_index : ℕ) (ws : List Text) (e : ℕ) : Type 0 where
  pub steps : ℕ
  pub reached : e ≡ end_index + steps
  pub inside : steps ≤ length ws
  pub fits : grow current (take steps ws) ≤ max_chars
  pub stopped : (steps < length ws) → max_chars < grow current (take (suc steps) ws)

pub not_above : (m n : ℕ) → ltb m n ≡ false → n ≤ m
not_above m n h = ground (arith, h)

continues :
    (m : ℕ) (w : Text) (ws : List Text) (current i e : ℕ)
    → ltb m (length w) ≡ false
    → ltb m (candidate_length current w) ≡ false
    → end_loop m (w ∷ ws) current i ≡ done e
    → end_loop m ws (candidate_length current w) (suc i) ≡ done e
unfolding end_loop
continues m w ws current i e a b h = rw (a, b) at h

pub end_loop-Ends :
    (max_chars : ℕ) (ws : List Text) (current end_index : ℕ) (e : ℕ)
    → current ≤ max_chars
    → end_loop max_chars ws current end_index ≡ done e
    → Ends max_chars current end_index ws e
unfolding end_loop grow
end_loop-Ends m [] current i e c h = record {
  steps = 0;
  reached = ground arith;
  inside = omega arith;
  fits = c;
  stopped = λ q. absurd (omega arith);
}
end_loop-Ends m (w ∷ ws) current i e c h = elim (Bool-cases (ltb m (length w))) [
  | inl long ↦ absurd (ground (arith, long, h))
  | inr ok' ↦ elim (Bool-cases (ltb m (candidate_length current w))) [
    | inl full ↦ record {
      steps = 0;
      reached = ground (arith, ok', full, h);
      inside = omega arith;
      fits = c;
      stopped = λ _. ltb→lt _ _ full;
    }
    | inr more ↦
        let r =
          end_loop-Ends m ws (candidate_length current w) (suc i) e (not_above _ _ more)
            (continues m w ws current i e ok' more h) in
        record {
          steps = suc r.steps;
          reached = omega (arith, r.reached);
          inside = omega (arith, r.inside);
          fits = r.fits;
          stopped = λ q. r.stopped (omega (arith, q));
        }
  ]
]

chunk_end-inv :
    (words : List Text) (m i e : ℕ)
    → chunk_end_index words i m ≡ done e
    → (end_loop m (drop i words) 0 i ≡ done e) × (e ≢ i)
unfolding chunk_end_index
chunk_end-inv words m i e h = go (end_loop m (drop i words) 0 i) refl h
  where
    go :
        (o : Outcome ℕ)
        → end_loop m (drop i words) 0 i ≡ o
        → and_then o (λ end_index. if nat_eq end_index i then raised no_chunk else done end_index)
          ≡ done e
        → (end_loop m (drop i words) 0 i ≡ done e) × (e ≢ i)
    go (done x) q h' = ground (arith, q, h')
    go (raised x) q h' = cc
    go running q h' = cc

-- The end of a chunk: after its start, and the joined words between are no longer than the limit.
-- Where words are left, the next one would not have fitted.
pub record Chunk (words : List Text) (max_chars i e : ℕ) : Type 0 where
  pub grows : i < e
  pub inside : e ≤ length words
  pub fits : grow 0 (slice words i e) ≤ max_chars
  pub full : e < length words → max_chars < grow 0 (slice words i (suc e))

pub chunk_end_index-Chunk :
    (words : List Text) (max_chars i e : ℕ)
    → i ≤ length words
    → chunk_end_index words i max_chars ≡ done e
    → Chunk words max_chars i e
chunk_end_index-Chunk words m i e le h =
    let (ends, ne) = chunk_end-inv words m i e h in
    let r = end_loop-Ends m (drop i words) 0 i e (omega arith) ends in
    let here : e - i ≡ r.steps = omega (arith, r.reached) in
    let next : suc e - i ≡ suc r.steps = omega (arith, r.reached) in
    record {
      grows = omega (arith, r.reached, ne);
      inside = omega (arith, r.reached, r.inside, length-drop i words);
      fits = rw here r.fits;
      full = λ q. rw next (r.stopped (omega (arith, q, r.reached, length-drop i words)));
    }
