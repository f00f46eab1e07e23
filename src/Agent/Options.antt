-- ===== src/Agent/Options.antt =====
-- What an accepted request to run a command in a container consists of
-- (control-agent/app/policy.js).
use mathlib.Core.List.{append_assoc}
use hosting_control_panel.Common.{
  ◌≡◌, refl, sym, ap, subst, ◌∙◌, true, false, not, ◌&&◌, some, List, [], ◌∷◌, ◌++◌, is_empty,
  false, Bool-cases, Option-cases, inl, inr, Text, text, text_eq, text_eq_sound, includes, ◌==◌,
  arith,
}
use hosting_control_panel.Agent.Words.{word, word_is, all_words}
use hosting_control_panel.Agent.Paths.{exec_containers, valid_container}
use hosting_control_panel.Agent.Scripts.{env_keys}
use hosting_control_panel.Agent.Policy.{
  short, Exec, set_key, split_assignment, env_assignment, parse_command, interactive, user,
  assignment, other, item_of, parse_options, parse_exec, validate_exec, validate_in,
}

-- The words between `exec` and the container, with the variables that they set: `-i`, the user of the
-- websites, and assignments to the variables of the list.
pub data Options : List Text → List (Text × Text) → Type 0 where
  no_options : Options [] []
  keeps_input :
      {os : List Text} {env : List (Text × Text)}
      → Options os env
      → Options (os ++ text "-i" ∷ []) env
  as_site_user :
      {os : List Text} {env : List (Text × Text)}
      → Options os env
      → Options (os ++ text "-u" ∷ text "33:33" ∷ []) env
  assigns :
      {os : List Text} {env : List (Text × Text)} (key value : Text)
      → Options os env
      → includes key env_keys ≡ true
      → Options (os ++ text "-e" ∷ (key ++ b'=' ∷ value) ∷ []) (set_key key value env)

-- A command that runs in a container, and that the check of this container accepts with these options and
-- variables.
pub record IsConfined (argv : List Text) : Type 0 where
  pub options : List Text
  pub environment : List (Text × Text)
  pub container : Text
  pub command : List Text
  pub exact : argv ≡ text "exec" ∷ options ++ container ∷ command
  pub vocabulary : Options options environment
  pub listed : includes container exec_containers ≡ true
  pub nonempty : is_empty command ≡ false
  pub checked :
      validate_in (record {
        options = options;
        environment = environment;
        container = container;
        command = command;
      })
      ≡ true

split_assignment-joined : (s k v : Text) → split_assignment s ≡ some (k, v) → s ≡ k ++ b'=' ∷ v
unfolding split_assignment
split_assignment-joined [] k v e = absurd (cc)
split_assignment-joined (c ∷ cs) k v e = elim (Bool-cases (c == b'=')) [
  | inl h ↦ ground (arith, h, e)
  | inr h ↦ elim (Option-cases (split_assignment cs)) [
    | inl m ↦ absurd (ground (arith, h, m, e))
    | inr ((k', v'), m) ↦
        let rest = split_assignment-joined cs k' v' m in ground (arith, h, m, e, rest)
  ]
]

-- What the loop has read so far, followed by what is left, is what it returns.
record Parsed (os ws : List Text) (e : Exec) : Type 0 where
  vocabulary : Options e.options e.environment
  words : os ++ ws ≡ e.options ++ e.container ∷ e.command
  listed : includes e.container exec_containers ≡ true
  nonempty : is_empty e.command ≡ false

parse_command-Parsed :
    (os : List Text) (env : List (Text × Text)) (ws : List Text) {e : Exec}
    → Options os env
    → parse_command os env ws ≡ some e
    → Parsed os ws e
unfolding parse_command valid_container
parse_command-Parsed os env [] v h = absurd (cc)
parse_command-Parsed os env (c ∷ ws) {e} v h =
    elim (Bool-cases
      (valid_container exec_containers c && all_words short ws && not (is_empty ws))) [
        | inr f ↦ absurd (ground (arith, f, h))
        | inl t ↦
            let same : record { options = os; environment = env; container = c; command = ws } ≡ e =
              ground (arith, t, h) in
            subst (Parsed os (c ∷ ws)) same (record {
              vocabulary = v;
              words = refl;
              listed = ground (arith, t);
              nonempty = ground (arith, t);
            })
      ]

item-interactive : (w : Text) → item_of w ≡ interactive → w ≡ text "-i"
unfolding item_of
item-interactive w e = text_eq_sound w (text "-i") (ground (arith, e))

item-user : (w : Text) → item_of w ≡ user → w ≡ text "-u"
unfolding item_of
item-user w e = text_eq_sound w (text "-u") (ground (arith, e))

item-assignment : (w : Text) → item_of w ≡ assignment → w ≡ text "-e"
unfolding item_of
item-assignment w e = text_eq_sound w (text "-e") (ground (arith, e))

-- A variable that `-e` may set, with the word that sets it.
env_assignment-listed :
    (w k v : Text)
    → env_assignment w ≡ some (k, v)
    → (w ≡ k ++ b'=' ∷ v) × (includes k env_keys ≡ true)
unfolding env_assignment
env_assignment-listed w k v e = elim (Bool-cases (short w)) [
  | inr f ↦ absurd (ground (arith, f, e))
  | inl s ↦ elim (Option-cases (split_assignment w)) [
    | inl m ↦ absurd (ground (arith, s, m, e))
    | inr ((k', v'), m) ↦ elim (Bool-cases (not (is_empty k') && includes k' env_keys)) [
      | inr f ↦ absurd (ground (arith, s, m, f, e))
      | inl t ↦
          let joined = split_assignment-joined w k' v' m in
          (ground (arith, s, m, t, e, joined), ground (arith, s, m, t, e))
    ]
  ]
]

regrouped :
    (os more ws : List Text) {e : Exec} → Parsed (os ++ more) ws e → Parsed os (more ++ ws) e
regrouped os more ws p = record {
  vocabulary = p.vocabulary;
  words = sym (append_assoc os more ws) ∙ p.words;
  listed = p.listed;
  nonempty = p.nonempty;
}

parse_options-Parsed :
    (os : List Text) (env : List (Text × Text)) (ws : List Text) {e : Exec}
    → Options os env
    → parse_options os env ws ≡ some e
    → Parsed os ws e
unfolding parse_options
parse_options-Parsed os env [] v h = absurd (cc)
parse_options-Parsed os env (item ∷ []) {e} v h =
    elim (item_of item) as (λ k. item_of item ≡ k → Parsed os (item ∷ []) e) [
      | interactive ↦ λ k. absurd (ground (arith, k, h))
      | user ↦ λ k. absurd (ground (arith, k, h))
      | assignment ↦ λ k. absurd (ground (arith, k, h))
      | other ↦ λ k. parse_command-Parsed os env (item ∷ []) v (ground (arith, k, h))
    ]
      refl
parse_options-Parsed os env (item ∷ value ∷ rest) {e} v h =
    elim (item_of item) as (λ k. item_of item ≡ k → Parsed os (item ∷ value ∷ rest) e) [
      | interactive ↦ λ k.
          let v' : Options (os ++ item ∷ []) env =
            subst (λ w. Options (os ++ w ∷ []) env) (sym (item-interactive item k))
              (keeps_input v) in
          regrouped os (item ∷ []) (value ∷ rest)
            (parse_options-Parsed (os ++ item ∷ []) env (value ∷ rest) v' (ground (arith, k, h)))
      | user ↦ λ k. elim (Bool-cases (text_eq value (text "33:33"))) [
        | inr f ↦ absurd (ground (arith, k, f, h))
        | inl t ↦
            let v' : Options (os ++ item ∷ value ∷ []) env =
              subst (λ w. Options (os ++ w ∷ value ∷ []) env) (sym (item-user item k))
                (subst (λ w. Options (os ++ text "-u" ∷ w ∷ []) env)
                  (sym (text_eq_sound value (text "33:33") t)) (as_site_user v)) in
            regrouped os (item ∷ value ∷ []) rest
              (parse_options-Parsed (os ++ item ∷ value ∷ []) env rest v' (ground (arith, k, t, h)))
      ]
      | assignment ↦ λ k. elim (Option-cases (env_assignment value)) [
        | inl m ↦ absurd (ground (arith, k, m, h))
        | inr ((key, val), m) ↦
            let (joined, listed) = env_assignment-listed value key val m in
            let v' : Options (os ++ item ∷ value ∷ []) (set_key key val env) =
              subst (λ w. Options (os ++ w ∷ value ∷ []) (set_key key val env))
                (sym (item-assignment item k))
                (subst (λ w. Options (os ++ text "-e" ∷ w ∷ []) (set_key key val env)) (sym joined)
                  (assigns key val v listed)) in
            regrouped os (item ∷ value ∷ []) rest (
              parse_options-Parsed (os ++ item ∷ value ∷ []) (set_key key val env) rest v'
                (ground (arith, k, m, h)))
      ]
      | other ↦ λ k. parse_command-Parsed os env (item ∷ value ∷ rest) v (ground (arith, k, h))
    ]
      refl

pub exec-IsConfined :
    (argv : List Text)
    → word_is 0 argv (text "exec") ≡ true
    → validate_exec argv ≡ true
    → IsConfined argv
unfolding word_is word validate_exec parse_exec
exec-IsConfined [] first ok = absurd (cc)
exec-IsConfined (w ∷ ws) first ok = elim (Option-cases (parse_options [] [] ws)) [
  | inl m ↦ absurd (ground (arith, m, ok))
  | inr (e, m) ↦
      let p = parse_options-Parsed [] [] ws no_options m in
      record {
        options = e.options;
        environment = e.environment;
        container = e.container;
        command = e.command;
        exact =
            ap (λ x. x ∷ ws) (text_eq_sound w (text "exec") first)
            ∙ ap (λ x. text "exec" ∷ x) p.words;
        vocabulary = p.vocabulary;
        listed = p.listed;
        nonempty = p.nonempty;
        checked = ground (arith, m, ok);
      }
]
