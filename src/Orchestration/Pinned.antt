-- ===== src/Orchestration/Pinned.antt =====
-- Jobs for one node: the target selector that `_job_matches_node` of repo.py reads.
use llama_pack.Prelude.{
  ℕ, ◌<◌, length, true, ◌≡◌, sym, ◌∙◌, Option, [], ◌∷◌, ◌++◌, arith, text_eq, text_eq_iff,
  Bool-cases, inl, inr,
}
use llama_pack.Prelude.Json.{Fields}
use llama_pack.Prelude.Text.{Text, codes, strip, strip_prefix}
use llama_pack.Orchestration.Rows.{Job}
use llama_pack.Orchestration.Matching.{target_allows, job_matches_node}

target_allows-named :
    (rest node : Text) (c : ℕ) (s : Text)
    → strip rest ≡ c ∷ s
    → target_allows (codes "node:" ++ rest) node ≡ text_eq (c ∷ s) node
unfolding target_allows strip_prefix
target_allows-named rest node c s h = rw (target_allows, h)

-- A job whose selector is `node:` and a name, blanks around the name aside, matches no node but the
-- one of that name, whatever its labels and its capacity are.
pub job_matches_node-pinned :
    (row : Job) (node rest name : Text) (capacity labels : Option Fields)
    → row.target_selector ≡ codes "node:" ++ rest
    → strip rest ≡ name
    → 0 < length name
    → job_matches_node row node capacity labels ≡ true
    → node ≡ name
unfolding job_matches_node
job_matches_node-pinned row node rest [] capacity labels target named p h = absurd (omega arith)
job_matches_node-pinned row node rest (c ∷ s) capacity labels target named p h =
    elim (Bool-cases (target_allows row.target_selector node)) [
      | inl e ↦
          let e' = rw target at e in
          sym ((text_eq_iff (c ∷ s) node).0 (sym (target_allows-named rest node c s named) ∙ e'))
      | inr e ↦ let h' = rw (job_matches_node, e) at h in cc
    ]
