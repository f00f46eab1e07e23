-- ===== src/Agent/Programs.antt =====
-- What control-agent/app/policy.js lets run in each container. A command is refused in one way only, so
-- each validator is a test.
use hosting_control_panel.Common.{
  ℕ, Bool, true, false, not, ◌&&◌, ◌||◌, Option, none, some, List, [], ◌∷◌, length, leb, ◌==◌, ◌+◌,
  any, if◌then◌else◌, Text, text, text_eq, includes, starts_with, is_empty, after_prefix, drop,
  ◌++◌,
}
use hosting_control_panel.Agent.Words.{
  every, all_words, word_is, word_passes, joins_as, counted, is_alnum, is_email, is_domain,
}
use hosting_control_panel.Agent.Paths.{valid_site_path}
use hosting_control_panel.Agent.Scripts.{wp_commands, wp_blocked_options}

-- `argument === option || argument.startsWith(`${option}=`)`
abbrev pub is_option : Text → Text → Bool
is_option argument option = text_eq argument option || starts_with argument (option ++ text "=")

unfoldable pub is_blocked : Text → Bool
unfolding any starts_with text_eq text
is_blocked argument = any (is_option argument) wp_blocked_options

-- `if (argument.startsWith("--path=")) validSitePath(argument.slice(7))`
unfoldable pub path_ok : Text → Bool
unfolding after_prefix valid_site_path text
path_ok argument = elim (after_prefix (text "--path=") argument) [
  | none ↦ true
  | some path ↦ valid_site_path path
]

-- The last argument of a user's creation.
unfoldable pub user_path : Text → Bool
unfolding after_prefix valid_site_path text
user_path argument = elim (after_prefix (text "--path=") argument) [
  | none ↦ false
  | some path ↦ valid_site_path path
]

unfoldable pub password_ok : Text → Bool
unfolding after_prefix any text
password_ok argument = elim (after_prefix (text "--user_pass=") argument) [
  | none ↦ false
  | some secret ↦
      not (is_empty secret)
      && leb (length argument) 268
      && not (any (λ c. (c == 13) || (c == 10)) argument)
]

-- `wp user create …`
unfoldable pub user_ok : List Text → List Text → Bool
unfolding joins_as word_is word_passes counted is_email password_ok user_path text
user_ok args options =
    joins_as options (text "-u" ∷ text "33:33" ∷ [])
    && (length args == 7)
    && word_is 1 args (text "create")
    && word_passes 2 args
        (counted 3 60 (λ c. is_alnum c || (c == b'_') || (c == b'.') || (c == b'@') || (c == b'-')))
    && word_passes 3 args is_email
    && word_is 4 args (text "--role=administrator")
    && word_passes 5 args password_ok
    && word_passes 6 args user_path

-- The arguments of every other command.
unfoldable pub wp_args_ok : List Text → Bool
unfolding all_words word_passes includes is_blocked path_ok
wp_args_ok args =
    word_passes 0 args (λ w. includes w wp_commands)
    && all_words (λ a. not (is_blocked a) && path_ok a) args

-- `validateWp` past the priority.
unfoldable pub wp_ok : List Text → List Text → Bool
unfolding word_is user_ok wp_args_ok text
wp_ok command options =
    word_is 0 command (text "wp")
    && word_is 1 command (text "--allow-root")
    && (let args = drop 2 command in
        if word_is 0 args (text "user") then user_ok args options else wp_args_ok args)

-- `validateWp(command, options)`
unfoldable pub validate_wp : List Text → List Text → Bool
unfolding word_is wp_ok text
validate_wp command options =
    if word_is 0 command (text "nice")
    then word_is 1 command (text "-n")
      && word_is 2 command (text "10")
      && wp_ok (drop 3 command) options
    else wp_ok command options

-- `command.indexOf(word)`, from an index on.
unfoldable pub index_from : ℕ → Text → List Text → Option ℕ
unfolding text_eq
index_from n w [] = none
index_from n w (v ∷ vs) = let rest = index_from (n + 1) w vs in if text_eq v w then some n else rest

-- `command[command.length - 1]`
unfoldable pub last_word : List Text → Option Text
last_word [] = none
last_word (w ∷ []) = some w
last_word (w ∷ v ∷ vs) = last_word (v ∷ vs)

abbrev is_url_unit : ℕ → Bool
is_url_unit c = is_alnum c || any (λ d. d == c) (text "._~!$&'()*+,;=:@%/-")

-- `/^http:\/\/127\.0\.0\.1(?:\/[A-Za-z0-9._~!$&'()*+,;=:@%/-]*)?\/?$/`
unfoldable pub is_local_url : Text → Bool
unfolding after_prefix every any text
is_local_url url = elim (after_prefix (text "http://127.0.0.1") url) [
  | none ↦ false
  | some [] ↦ true
  | some (c ∷ cs) ↦ (c == b'/') && every is_url_unit cs
]

unfoldable pub host_header_ok : Text → Bool
unfolding after_prefix is_domain text
host_header_ok header = elim (after_prefix (text "Host: ") header) [
  | none ↦ false
  | some name ↦ is_domain name
]

unfoldable pub wget_ok : List Text → Bool
unfolding word_is word_passes index_from host_header_ok last_word is_local_url text
wget_ok command =
    word_is 1 command (text "-q")
    && word_is 2 command (text "--spider")
    && elim (index_from 0 (text "--header") command) [ none ↦ false | some n ↦ n == 3 ]
    && word_passes 4 command host_header_ok
    && elim (last_word command) [ none ↦ false | some url ↦ is_local_url url ]

-- `validateNginx(command)`
unfoldable pub validate_nginx : List Text → Bool
unfolding word_is joins_as wget_ok text
validate_nginx command =
    (word_is 0 command (text "nginx")
      && (((length command == 2) && word_is 1 command (text "-t"))
          || ((length command == 3)
              && word_is 1 command (text "-s")
              && word_is 2 command (text "reload"))))
    || joins_as command (text "du" ∷ text "-sk" ∷ text "/var/cache/nginx/fastcgi" ∷ [])
    || (word_is 0 command (text "wget") && wget_ok command)
