-- ===== src/Documents/Overlaps.antt =====
-- How far `_overlap_start_index` of chunking.py goes back: as far as the joined words stay within
-- the overlap.
use llama_pack.Prelude.{
  ℕ, zero, suc, ◌+◌, ◌-◌, ◌≤◌, ◌<◌, ◌≡◌, refl, sym, ◌∙◌, ap, List, [], ◌∷◌, length, take, drop,
  arith, All, nat_eq, ltb, Bool-cases, inl, inr, ltb→lt,
}
use llama_pack.Prelude.Text.{Text}
use llama_pack.Documents.Chunking.{
  candidate_length, word_at, overlap_loop, overlap_start_index, slice,
}
use llama_pack.Documents.Lengths.{Words, grow, not_above}

-- Each word with one space.
sep_sum : List Text → ℕ
sep_sum [] = 0
sep_sum (w ∷ ws) = length w + 1 + sep_sum ws

grow-sep_sum : (n : ℕ) (ws : List Text) → 0 < n → grow n ws ≡ n + sep_sum ws
unfolding grow sep_sum
grow-sep_sum n [] p = omega arith
grow-sep_sum n (w ∷ ws) p = ground (arith, p, grow-sep_sum (n + 1 + length w) ws (omega arith))

-- A word in front counts like a word behind.
pub grow-cons :
    (w : Text) (ws : List Text)
    → 0 < length w
    → Words ws
    → grow 0 (w ∷ ws) ≡ candidate_length (grow 0 ws) w
unfolding grow sep_sum
grow-cons w [] p h = refl
grow-cons w (v ∷ ws) p h =
    ground (arith, p, h.0, grow-sep_sum (length w) (v ∷ ws) p, grow-sep_sum (length v) ws h.0)

pub All-drop {ℓ κ} :
    {A : Type ℓ} (P : A → Type κ) (i : ℕ) (xs : List A) → All P xs → All P (drop i xs)
All-drop P zero xs h = h
All-drop P (suc i) [] h = h
All-drop P (suc i) (x ∷ xs) h = All-drop P i xs h.1

pub All-take {ℓ κ} :
    {A : Type ℓ} (P : A → Type κ) (i : ℕ) (xs : List A) → All P xs → All P (take i xs)
All-take P zero xs h = tt
All-take P (suc i) [] h = h
All-take P (suc i) (x ∷ xs) h = (h.0, All-take P i xs h.1)

drop-word_at :
    (j : ℕ) (words : List Text)
    → j < length words
    → drop j words ≡ word_at words j ∷ drop (suc j) words
drop-word_at zero [] h = absurd (omega arith)
drop-word_at zero (w ∷ words) h = refl
drop-word_at (suc j) [] h = absurd (omega arith)
drop-word_at (suc j) (w ∷ words) h = drop-word_at j words (omega arith)

word_at-Words :
    (j : ℕ) (words : List Text) → Words words → j < length words → 0 < length (word_at words j)
word_at-Words zero [] h p = absurd (omega arith)
word_at-Words (suc j) [] h p = absurd (omega arith)
word_at-Words zero (w ∷ words) h p = h.0
word_at-Words (suc j) (w ∷ words) h p = word_at-Words j words h.1 (omega arith)

-- From `j` on, the word at `j` comes first.
slice-step :
    (words : List Text) (j e : ℕ)
    → j < e
    → e ≤ length words
    → slice words j e ≡ word_at words j ∷ slice words (suc j) e
slice-step words j e p q =
    let one : e - j ≡ suc (e - suc j) = omega (arith, p) in
    rw (drop-word_at j words (omega (arith, p, q)), one) refl

pub slice-Words : (words : List Text) (i e : ℕ) → Words words → Words (slice words i e)
slice-Words words i e h = All-take _ (e - i) (drop i words) (All-drop _ i words h)

grow-slice :
    (words : List Text) (j e : ℕ)
    → Words words
    → j < e
    → e ≤ length words
    → grow 0 (slice words j e) ≡ candidate_length (grow 0 (slice words (suc j) e)) (word_at words j)
grow-slice words j e h p q =
    ap (grow 0) (slice-step words j e p q)
    ∙ grow-cons (word_at words j) (slice words (suc j) e)
        (word_at-Words j words h (omega (arith, p, q))) (slice-Words words (suc j) e h)

-- The fewer words, the shorter.
pub slice-shorter :
    (words : List Text) (d i e : ℕ)
    → Words words
    → i + d ≤ e
    → e ≤ length words
    → grow 0 (slice words (i + d) e) ≤ grow 0 (slice words i e)
slice-shorter words zero i e h p q = let same : i + 0 ≡ i = omega arith in rw same (omega arith)
slice-shorter words (suc d) i e h p q =
    let rest = slice-shorter words d (suc i) e h (omega (arith, p)) q in
    let first = grow-slice words i e h (omega (arith, p)) q in
    let same : i + suc d ≡ suc i + d = omega arith in rw same (ground (arith, rest, first))

-- Where the next chunk starts, for a chunk from `s` to `e`: the words from there to `e` are within
-- the overlap, and if the whole chunk is, it is where this one starts.
pub record Back (words : List Text) (overlap_chars s k e i : ℕ) : Type 0 where
  pub after : s ≤ i
  pub before : i ≤ s + k
  pub within : grow 0 (slice words i e) ≤ overlap_chars
  pub whole : 0 < overlap_chars → grow 0 (slice words s e) ≤ overlap_chars → i ≡ s

wider : {words : List Text} {o s k e i : ℕ} → Back words o s k e i → Back words o s (suc k) e i
wider b = record {
  after = b.after;
  before = omega (arith, b.before);
  within = b.within;
  whole = b.whole;
}

overlap_loop-Back :
    (words : List Text) (s o k e current : ℕ)
    → Words words
    → s + k ≤ e
    → e ≤ length words
    → current ≡ grow 0 (slice words (s + k) e)
    → current ≤ o
    → Back words o s k e (overlap_loop words s o k current)
unfolding overlap_loop
overlap_loop-Back words s o zero e current h p q c le =
    let start : s + 0 ≡ s = omega arith in
    record {
      after = omega arith;
      before = omega arith;
      within = rw (sym start, sym c) le;
      whole = λ _ _. refl;
    }
overlap_loop-Back words s o (suc k) e current h p q c le =
    let next : s + suc k ≡ suc (s + k) = omega arith in
    let same : candidate_length current (word_at words (s + k)) ≡ grow 0 (slice words (s + k) e) =
      rw (c, next) (sym (grow-slice words (s + k) e h (omega (arith, p)) q)) in
    elim (Bool-cases (ltb o (candidate_length current (word_at words (s + k))))) [
      | inl stops ↦ rw stops record {
        after = omega arith;
        before = omega arith;
        within = rw (sym c) le;
        whole = λ _ short. absurd (
            omega (
              arith,
              short,
              same,
              ltb→lt _ _ stops,
              slice-shorter words k s e h (omega (arith, p)) q,
            ));
      }
      | inr more ↦ rw more (
          wider (
            overlap_loop-Back words s o k e (candidate_length current (word_at words (s + k))) h
              (omega (arith, p)) q same (not_above _ _ more)))
    ]

none_left : (words : List Text) (e : ℕ) → 0 ≡ grow 0 (slice words e e)
unfolding grow
none_left words e = let none' : e - e ≡ 0 = omega arith in rw none' refl

pub overlap_start-Back :
    (words : List Text) (s e o : ℕ)
    → Words words
    → s ≤ e
    → e ≤ length words
    → s < e
    → Back words o s (e - s) e (overlap_start_index words s e o)
unfolding overlap_start_index
overlap_start-Back words s e o h p q l = elim (Bool-cases (nat_eq o 0)) [
  | inl none' ↦ rw none' record {
    after = omega (arith, l);
    before = omega (arith, l);
    within = omega (arith, none_left words e);
    whole = λ r. absurd (ground (arith, none', r));
  }
  | inr some' ↦
      let all' : s + (e - s) ≡ e = omega (arith, p) in
      rw some' (
        overlap_loop-Back words s o (e - s) e 0 h (omega (arith, p)) q (rw all' (none_left words e))
          (omega arith))
]
