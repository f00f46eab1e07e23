-- ===== src/Agent/Policy.antt =====
-- The check of a whole request to the control agent (control-agent/app/policy.js).
use hosting_control_panel.Common.{
  Bool, true, false, not, ◌&&◌, ◌||◌, Option, none, some, List, [], ◌∷◌, ◌++◌, length, leb, ◌==◌,
  any, if◌then◌else◌, Text, text, text_eq, includes, starts_with, is_empty, drop, take, ◌-◌,
}
use hosting_control_panel.Agent.Words.{
  bounded_text, all_words, word_is, word_passes, joins_as, counted, is_digit, digits_value,
}
use hosting_control_panel.Agent.Paths.{
  exec_containers, inspect_containers, containers, valid_container, safe_temp_zip, identifier,
}
use hosting_control_panel.Agent.Scripts.{
  env_keys, mysql_scripts, mysql_options, mysql_env_keys, sync_script, sync_paths,
  eviction_policies, npm_backup_read_script, inspect_formats,
}
use hosting_control_panel.Agent.Programs.{validate_nginx, last_word}
use hosting_control_panel.Agent.Php.{validate_php}

abbrev pub short : Text → Bool
short s = bounded_text 16384 s

-- The result of `parseExec`.
pub record Exec : Type 0 where
  pub options : List Text
  pub environment : List (Text × Text)
  pub container : Text
  pub command : List Text

-- `environment[key] = value`
unfoldable pub set_key : Text → Text → List (Text × Text) → List (Text × Text)
unfolding text_eq
set_key k v [] = (k, v) ∷ []
set_key k v ((l, w) ∷ rest) =
    let more = set_key k v rest in if text_eq l k then (k, v) ∷ rest else (l, w) ∷ more

-- The texts around the first `=`.
unfoldable pub split_assignment : Text → Option (Text × Text)
split_assignment [] = none
split_assignment (c ∷ cs) =
    let rest = split_assignment cs in
    if c == b'=' then some ([], cs) else elim rest [ none ↦ none | some (k, v) ↦ some (c ∷ k, v) ]

-- An assignment that `-e` may make.
unfoldable pub env_assignment : Text → Option (Text × Text)
unfolding split_assignment includes bounded_text
env_assignment assignment =
    if not (short assignment) then none else elim (split_assignment assignment) [
      | none ↦ none
      | some (key, value) ↦
          if not (is_empty key) && includes key env_keys then some (key, value) else none
    ]

-- `parseExec` from the container on.
unfoldable pub parse_command : List Text → List (Text × Text) → List Text → Option Exec
unfolding valid_container all_words bounded_text
parse_command options environment [] = none
parse_command options environment (container ∷ command) =
    if valid_container exec_containers container
      && all_words short command
      && not (is_empty command)
    then some (record {
      options = options;
      environment = environment;
      container = container;
      command = command;
    })
    else none

pub data Item : Type 0 where
  interactive user assignment other : Item

-- What the loop of `parseExec` takes a word for.
unfoldable pub item_of : Text → Item
unfolding text_eq text
item_of item =
    if text_eq item (text "-i")
    then interactive
    else if text_eq item (text "-u")
    then user
    else if text_eq item (text "-e")
    then assignment
    else other

-- The loop of `parseExec` over the words after `exec`.
unfoldable pub parse_options : List Text → List (Text × Text) → List Text → Option Exec
unfolding item_of text_eq env_assignment set_key parse_command text
parse_options options environment [] = none
parse_options options environment (item ∷ []) = elim (item_of item) [
  | other ↦ parse_command options environment (item ∷ [])
  | _ ↦ none
]
parse_options options environment (item ∷ value ∷ rest) = elim (item_of item) [
  | interactive ↦ parse_options (options ++ item ∷ []) environment (value ∷ rest)
  | user ↦ elim (text_eq value (text "33:33")) [
    | true ↦ parse_options (options ++ item ∷ value ∷ []) environment rest
    | false ↦ none
  ]
  | assignment ↦ elim (env_assignment value) [
    | none ↦ none
    | some (k, v) ↦ parse_options (options ++ item ∷ value ∷ []) (set_key k v environment) rest
  ]
  | other ↦ parse_command options environment (item ∷ value ∷ rest)
]

-- `parseExec(argv)`
unfoldable pub parse_exec : List Text → Option Exec
unfolding parse_options
parse_exec argv = parse_options [] [] (drop 1 argv)

-- An argument of `mysql` or `mysqldump`.
unfoldable pub mysql_argument : Text → Bool
unfolding starts_with includes identifier text
mysql_argument value =
    if starts_with value (text "--") then includes value mysql_options else identifier value

unfoldable pub mysql_environment : List (Text × Text) → Bool
unfolding includes bounded_text
mysql_environment [] = true
mysql_environment ((key, value) ∷ rest) =
    includes key mysql_env_keys && short value && mysql_environment rest

-- `validateMysql(command, environment)`
unfoldable pub validate_mysql : List Text → List (Text × Text) → Bool
unfolding word_is word_passes includes all_words mysql_argument mysql_environment text
validate_mysql command environment =
    word_is 0 command (text "sh")
    && word_is 1 command (text "-c")
    && word_passes 2 command (λ s. includes s mysql_scripts)
    && all_words mysql_argument (drop 4 command)
    && mysql_environment environment

-- `validateSync(command)`
unfoldable pub validate_sync : List Text → Bool
unfolding word_is word_passes includes text
validate_sync command =
    (length command == 5)
    && word_is 0 command (text "sh")
    && word_is 1 command (text "-c")
    && word_is 2 command sync_script
    && word_is 3 command (text "sh")
    && word_passes 4 command (λ p. includes p sync_paths)

-- `/^\d{1,6}mb$/`
unfoldable pub is_memory : Text → Bool
unfolding counted text_eq text
is_memory s =
    text_eq (drop (length s - 2) s) (text "mb") && counted 1 6 is_digit (take (length s - 2) s)

-- `validateRedis(command)`
unfoldable pub validate_redis : List Text → Bool
unfolding joins_as word_is word_passes is_memory includes text
validate_redis command =
    joins_as command (text "redis-cli" ∷ text "--raw" ∷ text "INFO" ∷ [])
    || (word_is 0 command (text "redis-cli")
        && word_is 1 command (text "CONFIG")
        && word_is 2 command (text "SET")
        && ((word_is 3 command (text "maxmemory") && word_passes 4 command is_memory)
            || (word_is 3 command (text "maxmemory-policy")
                && word_passes 4 command (λ p. includes p eviction_policies))))

-- `validateNpm(command)`
unfoldable pub validate_npm : List Text → Bool
unfolding word_is text
validate_npm command =
    (length command == 3)
    && word_is 0 command (text "sh")
    && word_is 1 command (text "-c")
    && word_is 2 command npm_backup_read_script

-- The dispatch of `validateExec` on the container.
unfoldable pub validate_in : Exec → Bool
unfolding text_eq validate_nginx validate_php validate_mysql validate_redis validate_npm
    validate_sync text
validate_in e =
    if text_eq e.container (text "hosting-nginx")
    then validate_nginx e.command
    else if text_eq e.container (text "hosting-php-fpm")
    then validate_php e.command e.options
    else if text_eq e.container (text "hosting-db")
    then validate_mysql e.command e.environment
    else if text_eq e.container (text "hosting-redis")
    then validate_redis e.command
    else if text_eq e.container (text "hosting-npm")
    then validate_npm e.command
    else if text_eq e.container (text "hosting-sync")
    then validate_sync e.command
    else false

-- `validateExec(argv)`
unfoldable pub validate_exec : List Text → Bool
unfolding parse_exec validate_in
validate_exec argv = elim (parse_exec argv) [ none ↦ false | some e ↦ validate_in e ]

unfoldable pub validate_inspect : List Text → Bool
unfolding last_word word_is word_passes includes valid_container text
validate_inspect argv =
    elim (last_word argv) [ none ↦ false | some name ↦ valid_container inspect_containers name ]
    && (length argv == 4)
    && word_is 1 argv (text "--format")
    && word_passes 2 argv (λ f. includes f inspect_formats)

abbrev pub ps_formats : List (List Text)
ps_formats =
    (text "ps"
      ∷ text "-a"
      ∷ text "--filter"
      ∷ text "name=hosting-"
      ∷ text "--format"
      ∷ text "{{.Names}}"
      ∷ [])
    ∷ (text "ps"
        ∷ text "-a"
        ∷ text "--filter"
        ∷ text "name=hosting-"
        ∷ text "--format"
        ∷ text "{{.Names}}\t{{.Status}}"
        ∷ [])
    ∷ []

unfoldable pub validate_stats : List Text → Bool
unfolding word_is all_words valid_container text
validate_stats argv =
    word_is 1 argv (text "--no-stream")
    && word_is 2 argv (text "--format")
    && word_is 3 argv (text "{{json .}}")
    && all_words (valid_container inspect_containers) (drop 4 argv)

unfoldable pub validate_top : List Text → Bool
unfolding word_is text
validate_top argv =
    (length argv == 4)
    && word_is 1 argv (text "hosting-php-fpm")
    && word_is 2 argv (text "-eo")
    && word_is 3 argv (text "pid,pcpu,pmem,rss,etime,args")

unfoldable pub validate_logs : List Text → Bool
unfolding word_is word_passes counted digits_value valid_container text
validate_logs argv =
    (length argv == 4)
    && word_is 1 argv (text "--tail")
    && word_passes 2 argv (λ n. counted 1 4 is_digit n && leb (digits_value 0 n) 500)
    && word_passes 3 argv (valid_container (text "hosting-php-fpm" ∷ []))

-- The dispatch of `validateArgs` on the operation.
unfoldable pub validate_operation : List Text → Bool
unfolding word_is validate_exec validate_inspect any joins_as validate_stats validate_top
    validate_logs text
validate_operation argv =
    if word_is 0 argv (text "exec")
    then validate_exec argv
    else if word_is 0 argv (text "inspect")
    then validate_inspect argv
    else if word_is 0 argv (text "ps")
    then any (joins_as argv) ps_formats
    else if word_is 0 argv (text "stats")
    then validate_stats argv
    else if word_is 0 argv (text "top")
    then validate_top argv
    else if word_is 0 argv (text "logs")
    then validate_logs argv
    else false

-- `validateArgs(input)`, of an array of texts.
unfoldable pub validate_args : List Text → Bool
unfolding all_words bounded_text validate_operation
validate_args argv =
    not (is_empty argv) && leb (length argv) 500 && all_words short argv && validate_operation argv

-- The texts around the first colon, neither of them empty.
unfoldable pub split_colon : Text → Option (Text × Text)
split_colon [] = none
split_colon (c ∷ cs) =
    let rest = split_colon cs in
    if c == b':' then some ([], cs) else elim rest [ none ↦ none | some (a, b) ↦ some (c ∷ a, b) ]

-- `validateCopy(destination)`: the container and the path.
unfoldable pub validate_copy : Text → Option (Text × Text)
unfolding split_colon valid_container safe_temp_zip text_eq text
validate_copy destination = elim (split_colon destination) [
  | none ↦ none
  | some (container, path) ↦
      if valid_container containers container
        && text_eq container (text "hosting-php-fpm")
        && safe_temp_zip path
      then some (container, path)
      else none
]
