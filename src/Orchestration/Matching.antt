-- ===== src/Orchestration/Matching.antt =====
-- `_job_matches_node` of llama_pack/core/orchestration/repo.py: may this node run this job?
use llama_pack.Prelude.{Bool, true, false, not, ◌&&◌, Option, none, some, [], ◌∷◌, text_eq}
use llama_pack.Prelude.Json.{Value, null, obj, Fields, end, field, get, number?, frac_lt, value_eq}
use llama_pack.Prelude.Text.{Text, codes, or_text, strip, strip_prefix}
use llama_pack.Orchestration.Rows.{Job}

-- `d.get(key)` where the missing key is None, the value of JSON's null.
abbrev pub get_or_null : Text → Fields → Value
get_or_null k fs = elim (get k fs) [ none ↦ null | some v ↦ v ]

-- `d or {}`
abbrev pub or_empty : Option Fields → Fields
or_empty none = end
or_empty (some fs) = fs

unfoldable pub target_allows : Text → Text → Bool
target_allows selector node_name =
    elim (strip_prefix (codes "node:") (or_text selector (codes "auto"))) [
      | none ↦ true
      | some rest ↦ elim (strip rest) [ [] ↦ true | c ∷ s ↦ text_eq (c ∷ s) node_name ]
    ]

unfoldable pub labels_match : Fields → Fields → Bool
labels_match end node_labels = true
labels_match (field key expected rest) node_labels =
    value_eq (get_or_null key node_labels) expected && labels_match rest node_labels

-- One capacity requirement: a number is a minimum, anything else must be equal.
unfoldable pub capacity_meets : Value → Value → Bool
capacity_meets node_value min_value = elim (number? min_value) [
  | none ↦ value_eq node_value min_value
  | some least ↦ elim (number? node_value) [ none ↦ false | some have ↦ not (frac_lt have least) ]
]

unfoldable pub capacities_match : Fields → Fields → Bool
unfolding capacity_meets
capacities_match end node_capacity = true
capacities_match (field key min_value rest) node_capacity =
    capacity_meets (get_or_null key node_capacity) min_value && capacities_match rest node_capacity

-- A section of the requirements that is missing, or no object, asks for nothing.
abbrev pub section_of : Text → Fields → Fields
section_of name requirements = elim (get name requirements) [ some (obj fs) ↦ fs | _ ↦ end ]

unfoldable pub job_matches_node : Job → Text → Option Fields → Option Fields → Bool
unfolding target_allows labels_match capacities_match
job_matches_node row node_name capacity labels =
    target_allows row.target_selector node_name && elim (get (codes "requirements") row.payload) [
      | some (obj requirements) ↦
          labels_match (section_of (codes "labels") requirements) (or_empty labels)
          && capacities_match (section_of (codes "capacity") requirements) (or_empty capacity)
      | _ ↦ true
    ]
