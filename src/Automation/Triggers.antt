-- ===== src/Automation/Triggers.antt =====
-- `evaluateTriggerMatch`: whether an event is one that an automation waits for. Lower case and trimming
-- are the runtime's, and arguments here.
use whatsapp_os.Prelude.{
  Bool, true, false, not, ◌&&◌, ◌||◌, [], ◌∷◌, Option, none, some, any, all, leb, ◌==◌,
  if◌then◌else◌, or_else,
}
use whatsapp_os.Automation.{
  Text, text_eq, given, TriggerType, message_contains, conversation_idle, lead_stage_changed,
  order_status_changed, low_stock, match_any, match_all, match_exact, TriggerConfig, EventData,
}

pub record TextOperations : Type 0 where
  pub to_lower_case : Text → Text
  pub trim : Text → Text

abbrev pub has_prefix : Text → Text → Bool
has_prefix [] text = true
has_prefix (p ∷ ps) [] = false
has_prefix (p ∷ ps) (c ∷ cs) = (p == c) && has_prefix ps cs

-- `text.includes(target)`
abbrev pub includes : Text → Text → Bool
includes target [] = has_prefix target []
includes target (c ∷ cs) = has_prefix target (c ∷ cs) || includes target cs

-- A filter that is set, and that the event does not meet.
abbrev pub differs : Option Text → Option Text → Bool
differs wanted actual = elim (given wanted) [
  | none ↦ false
  | some value ↦ elim actual [ none ↦ true | some text ↦ not (text_eq text value) ]
]

unfoldable pub contains_keyword : TextOperations → TriggerConfig → EventData → Bool
contains_keyword operations config event =
    let cased : Text → Text =
      λ text. if config.case_sensitive then text else operations.to_lower_case text in
    let text_to_search = cased (or_else event.body (or_else event.text [])) in
    elim config.keywords [
      | [] ↦ true
      | first ∷ rest ↦ elim config.match_mode [
        | match_exact ↦
            any
              (λ keyword.
                text_eq (operations.trim text_to_search) (operations.trim (cased keyword)))
              (first ∷ rest)
        | match_all ↦ all (λ keyword. includes (cased keyword) text_to_search) (first ∷ rest)
        | match_any ↦ any (λ keyword. includes (cased keyword) text_to_search) (first ∷ rest)
      ]
    ]

unfoldable pub evaluate_trigger_match :
    TextOperations → TriggerType → Option TriggerConfig → EventData → Bool
evaluate_trigger_match operations type none event = true
evaluate_trigger_match operations type (some config) event = elim type [
  | message_contains ↦ contains_keyword operations config event
  | order_status_changed ↦
      not (differs config.from_status event.from_status)
      && not (differs config.to_status event.to_status)
  | lead_stage_changed ↦
      not (differs config.from_stage event.from_stage)
      && not (differs config.to_stage event.to_stage)
  | low_stock ↦ leb (or_else event.available 0) (or_else config.threshold 5)
  | conversation_idle ↦ leb (or_else config.idle_minutes 60) (or_else event.idle_minutes 0)
  | _ ↦ true
]
