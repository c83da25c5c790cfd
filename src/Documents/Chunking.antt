-- ===== src/Documents/Chunking.antt =====
-- llama_pack/core/document_collections/chunking.py: a text is cut into chunks of whole words that
-- overlap. A word is the list of its code points.
use mathlib.Core.List.{reverse}
use llama_pack.Prelude.{
  ℕ, zero, suc, ◌+◌, ◌-◌, true, false, List, [], ◌∷◌, ◌++◌, none, some, length, take, drop,
  get_elem?, ltb, leb, nat_eq, if◌then◌else◌,
}
use llama_pack.Prelude.Int.{ℤ, pos, pos_part, ltb_ℤ}
use llama_pack.Prelude.Text.{Text, is_space}

pub data ChunkError : Type 0 where
  bad_max_chars negative_overlap overlap_too_large no_words word_too_long no_chunk : ChunkError

-- What a call returns or raises; `running` is a loop that has used up its fuel.
pub data Outcome {ℓ} (A : Type ℓ) : Type ℓ where
  done : A → Outcome A
  raised : ChunkError → Outcome A
  running : Outcome A

abbrev pub and_then {ℓ κ} : {A : Type ℓ} {B : Type κ} → Outcome A → (A → Outcome B) → Outcome B
and_then (done a) f = f a
and_then (raised e) f = raised e
and_then running f = running

-- text.split(): `word` is the word that is being read, backwards.
abbrev pub emit : Text → List Text → List Text
emit [] words = words
emit (c ∷ w) words = reverse (c ∷ w) ∷ words

unfoldable pub split_from : Text → Text → List Text
split_from word [] = emit word []
split_from word (c ∷ s) = elim (is_space c) [
  | true ↦ emit word (split_from [] s)
  | false ↦ split_from (c ∷ word) s
]

unfoldable pub split : Text → List Text
unfolding split_from
split = split_from []

-- " ".join(words)
unfoldable pub join : List Text → Text
join [] = []
join (w ∷ []) = w
join (w ∷ v ∷ rest) = w ++ 32 ∷ join (v ∷ rest)

-- len(word) if current_length == 0 else current_length + 1 + len(word)
abbrev pub candidate_length : ℕ → Text → ℕ
candidate_length current word = if nat_eq current 0 then length word else current + 1 + length word

-- The loop of `_chunk_end_index` over the words from `end_index` on.
unfoldable pub end_loop : ℕ → List Text → ℕ → ℕ → Outcome ℕ
end_loop max_chars [] current end_index = done end_index
end_loop max_chars (word ∷ rest) current end_index =
    if ltb max_chars (length word)
    then raised word_too_long
    else if ltb max_chars (candidate_length current word)
    then done end_index
    else end_loop max_chars rest (candidate_length current word) (suc end_index)

unfoldable pub chunk_end_index : List Text → ℕ → ℕ → Outcome ℕ
chunk_end_index words start_index max_chars =
    and_then (end_loop max_chars (drop start_index words) 0 start_index)
      λ end_index. if nat_eq end_index start_index then raised no_chunk else done end_index

abbrev pub word_at : List Text → ℕ → Text
word_at words i = elim (get_elem? words i) [ none ↦ [] | some w ↦ w ]

-- The loop of `_overlap_start_index`, `k` words above `start_index`.
unfoldable pub overlap_loop : List Text → ℕ → ℕ → ℕ → ℕ → ℕ
overlap_loop words start_index overlap_chars zero current = start_index
overlap_loop words start_index overlap_chars (suc k) current =
    let word = word_at words (start_index + k) in
    let further = overlap_loop words start_index overlap_chars k (candidate_length current word) in
    if ltb overlap_chars (candidate_length current word) then start_index + suc k else further

unfoldable pub overlap_start_index : List Text → ℕ → ℕ → ℕ → ℕ
overlap_start_index words start_index end_index overlap_chars =
    if nat_eq overlap_chars 0
    then end_index
    else overlap_loop words start_index overlap_chars (end_index - start_index) 0

-- words[start:end]
abbrev pub slice : List Text → ℕ → ℕ → List Text
slice words i j = take (j - i) (drop i words)

-- The loop of `chunk_document_text`, as the chunks that it appends from `index` on.
unfoldable pub chunk_loop : ℕ → List Text → ℕ → ℕ → ℕ → Outcome (List Text)
chunk_loop zero words max_chars overlap_chars index = running
chunk_loop (suc fuel) words max_chars overlap_chars index = elim (ltb index (length words)) [
  | false ↦ done []
  | true ↦ and_then (chunk_end_index words index max_chars) λ next_index.
      elim (leb (length words) next_index) [
        | true ↦ done (join (slice words index next_index) ∷ [])
        | false ↦
            and_then
              (chunk_loop fuel words max_chars overlap_chars
                (overlap_start_index words index next_index overlap_chars))
              λ rest. done (join (slice words index next_index) ∷ rest)
      ]
]

unfoldable pub chunk_words : ℕ → ℕ → ℕ → List Text → Outcome (List Text)
chunk_words fuel max_chars overlap_chars [] = raised no_words
chunk_words fuel max_chars overlap_chars (w ∷ ws) =
    chunk_loop fuel (w ∷ ws) max_chars overlap_chars 0

unfoldable pub chunk_document_text : ℕ → Text → ℤ → ℤ → Outcome (List Text)
chunk_document_text fuel text max_chars overlap_chars =
    if ltb_ℤ (pos 0) max_chars
    then (if ltb_ℤ overlap_chars (pos 0)
        then raised negative_overlap
        else if ltb_ℤ overlap_chars max_chars
        then chunk_words fuel (pos_part max_chars) (pos_part overlap_chars) (split text)
        else raised overlap_too_large)
    else raised bad_max_chars
