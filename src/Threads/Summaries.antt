-- ===== src/Threads/Summaries.antt =====
-- The prompts and the sizes of context summaries, llama_pack/core/chat/context_management.py, with the
-- token estimate of context_budget.py.
use llama_pack.Prelude.{
  ℕ, ◌/◌, max, Bool, false, not, ◌||◌, Option, none, some, List, [], ◌∷◌, ◌++◌, leb, length,
  text_eq, if◌then◌else◌,
}
use llama_pack.Prelude.Json.{Value, str, arr, obj, Fields, get}
use llama_pack.Prelude.Text.{Text, codes, strip}
use llama_pack.Threads.Session.{Env, ContextSettings, value_error, M, return, throw, object, values}
use llama_pack.Threads.FanoutRun.{choice_content}

-- str(value)
unfoldable pub str_of : Env → Value → Text
str_of env (str s) = s
str_of env v = env.to_text v

-- message.get(key, default)
unfoldable pub get_or : Text → Value → Fields → Value
get_or key default fields = elim (get key fields) [ some v ↦ v | none ↦ default ]

unfoldable pub join_with : Text → List Text → Text
join_with separator [] = []
join_with separator (s ∷ []) = s
join_with separator (s ∷ t ∷ rest) = s ++ separator ++ join_with separator (t ∷ rest)

-- The part of a block, of context_budget.py: images count as a word.
unfoldable pub budget_part : Env → Value → Text
unfolding str_of get_or
budget_part env (obj block) = elim (get (codes "type") block) [
  | some (str kind) ↦
      if text_eq kind (codes "text")
      then str_of env (get_or (codes "text") (str []) block)
      else if text_eq kind (codes "image_url")
      then codes "[image]"
      else env.to_text (obj block)
  | _ ↦ env.to_text (obj block)
]
budget_part env v = str_of env v

unfoldable pub budget_parts : Env → List Value → List Text
unfolding budget_part
budget_parts env [] = []
budget_parts env (v ∷ vs) = budget_part env v ∷ budget_parts env vs

unfoldable pub budget_text : Env → Value → Text
unfolding budget_parts join_with
budget_text env (str s) = s
budget_text env (arr blocks) = join_with (codes " ") (budget_parts env (values blocks))
budget_text env v = env.to_text v

-- f"{role}: {_content_text(content)}" of the messages that are dictionaries.
unfoldable pub rendered_messages : Env → List Value → List Text
unfolding budget_text
rendered_messages env [] = []
rendered_messages env (obj message ∷ rest) =
    (str_of env (get_or (codes "role") (str (codes "user")) message)
      ++ codes ": "
      ++ budget_text env (get_or (codes "content") (str []) message))
    ∷ rendered_messages env rest
rendered_messages env (_ ∷ rest) = rendered_messages env rest

unfoldable pub estimate_prompt_tokens : Env → List Value → ℕ
unfolding rendered_messages
estimate_prompt_tokens env messages =
    elim (strip (join_with (10 ∷ []) (rendered_messages env messages))) [
      | [] ↦ 1
      | c ∷ s ↦ max 1 (length (c ∷ s) / 4)
    ]

unfoldable pub context_window_tokens : ContextSettings → Text → ℕ
context_window_tokens settings model = elim (settings.model_ctx model) [
  | some ctx ↦ ctx
  | none ↦ settings.min_prompt_tokens
]

unfoldable pub should_summarize_messages : Env → Text → List Value → Bool
unfolding context_window_tokens estimate_prompt_tokens
should_summarize_messages env model messages =
    if not env.context.summarization_enabled || not env.context.compaction_enabled
    then false
    else leb (env.context.trigger_of (context_window_tokens env.context model))
        (estimate_prompt_tokens env messages)

unfoldable pub summary_system_message : Text → Value
summary_system_message summary = obj (
    object (
      (codes "role", str (codes "system"))
      ∷ (codes "content", str (codes "Earlier conversation summary:" ++ 10 ∷ strip summary))
      ∷ []))

-- The part of a block, of context_management.py.
unfoldable pub transcript_part : Env → Value → Text
transcript_part env (obj block) = elim (get (codes "type") block) [
  | some (str kind) ↦
      if text_eq kind (codes "text")
      then str_of env (get_or (codes "text") (str []) block)
      else env.to_text (obj block)
  | _ ↦ env.to_text (obj block)
]
transcript_part env v = str_of env v

unfoldable pub transcript_parts : Env → List Value → List Text
unfolding transcript_part
transcript_parts env [] = []
transcript_parts env (v ∷ vs) = transcript_part env v ∷ transcript_parts env vs

unfoldable pub transcript_text : Env → Value → Text
unfolding transcript_parts
transcript_text env (str s) = s
transcript_text env (arr blocks) = join_with (codes " ") (transcript_parts env (values blocks))
transcript_text env v = env.to_text v

-- Of messages, which are all dictionaries.
unfoldable pub transcript_lines : Env → List Value → List Text
unfolding transcript_text
transcript_lines env [] = []
transcript_lines env (obj message ∷ rest) =
    (str_of env (get_or (codes "role") (str (codes "user")) message)
      ++ codes ": "
      ++ transcript_text env (get_or (codes "content") (str []) message))
    ∷ transcript_lines env rest
transcript_lines env (_ ∷ rest) = transcript_lines env rest

abbrev pub instructions : Text
instructions =
    codes "Summarize the earlier conversation for continuation in a long-running chat. "
    ++ codes
        "Preserve user goals, constraints, decisions, named entities, unresolved tasks, and important assistant answers. "
    ++ codes "Do not invent details. Do not include pleasantries. Write compact bullet points."

abbrev pub with_prior : Text → Text
with_prior [] = instructions
with_prior (c ∷ s) = instructions ++ (10 ∷ 10 ∷ codes "Existing summary to update:") ++ 10 ∷ c ∷ s

abbrev pub prior_of : Option Text → Text
prior_of none = []
prior_of (some s) = strip s

unfoldable pub summary_prompt_messages : Env → Option Text → List Value → List Value
unfolding transcript_lines
summary_prompt_messages env previous_summary messages =
    obj (
      object (
        (codes "role", str (codes "system"))
        ∷ (codes "content", str (with_prior (prior_of previous_summary)))
        ∷ []))
    ∷ obj (
        object (
          (codes "role", str (codes "user"))
          ∷ (
            codes "content",
            str (
                codes "Conversation turns to summarize:"
                ++ 10 ∷ 10 ∷ join_with (10 ∷ 10 ∷ []) (transcript_lines env messages)),
          )
          ∷ []))
    ∷ []

-- The content without space around it, which is empty where it is no text.
unfoldable pub stripped_content : Option Value → Option Text
stripped_content none = none
stripped_content (some (str content)) = some (strip content)
stripped_content (some _) = some []

unfoldable pub summary_text : Env → Value → Option Text → M Text
summary_text env response none =
    throw value_error (
      codes "Summary response did not include choices[0].message.content: " ++ env.to_text response)
summary_text env response (some []) =
    throw value_error
      (codes "Summary response content was empty or not a string: " ++ env.to_text response)
summary_text env response (some (c ∷ s)) = return (c ∷ s)

unfoldable pub assistant_summary_content : Value → M Text
unfolding summary_text choice_content stripped_content
assistant_summary_content response env w =
    summary_text env response (stripped_content (choice_content response)) env w
