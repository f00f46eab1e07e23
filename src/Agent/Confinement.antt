-- ===== src/Agent/Confinement.antt =====
-- What an accepted request to the control agent can touch (control-agent/app/policy.js).
use hosting_control_panel.Common.{
  ◌≡◌, true, false, ◌≤◌, List, [], ◌∷◌, false, Text, text, includes, any,
}
use hosting_control_panel.Agent.Words.{all_words, joins_as, digits_value}
use hosting_control_panel.Agent.Paths.{inspect_containers, valid_container}
use hosting_control_panel.Agent.Scripts.{inspect_formats}
use hosting_control_panel.Agent.Policy.{ps_formats}
use hosting_control_panel.Agent.Options.{IsConfined}

-- What a request may ask for, with the words that it consists of.
pub data Permitted (argv : List Text) : Type 0 where
  inspects :
      (format name : Text)
      → argv ≡ text "inspect" ∷ text "--format" ∷ format ∷ name ∷ []
      → includes format inspect_formats ≡ true
      → valid_container inspect_containers name ≡ true
      → Permitted argv
  lists : any (joins_as argv) ps_formats ≡ true → Permitted argv
  samples :
      (names : List Text)
      → argv ≡ text "stats" ∷ text "--no-stream" ∷ text "--format" ∷ text "{{json .}}" ∷ names
      → all_words (valid_container inspect_containers) names ≡ true
      → Permitted argv
  shows_processes :
      argv
        ≡ text "top"
          ∷ text "hosting-php-fpm"
          ∷ text "-eo"
          ∷ text "pid,pcpu,pmem,rss,etime,args"
          ∷ []
      → Permitted argv
  reads_logs :
      (lines name : Text)
      → argv ≡ text "logs" ∷ text "--tail" ∷ lines ∷ name ∷ []
      → digits_value 0 lines ≤ 500
      → valid_container (text "hosting-php-fpm" ∷ []) name ≡ true
      → Permitted argv
  runs : IsConfined argv → Permitted argv
