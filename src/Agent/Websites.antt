-- ===== src/Agent/Websites.antt =====
-- What an accepted command of WP-CLI or of the shell in the container of PHP can touch
-- (control-agent/app/policy.js).
use hosting_control_panel.Common.{
  ◌≡◌, ◌≢◌, ◌⊎◌, refl, sym, ap, ◌∙◌, Bool, true, false, not, ◌&&◌, some, List, [], ◌∷◌, ◌++◌, drop,
  Bool-cases, and_both, not-true, Option-cases, inl, inr, Text, text, text_eq, text_eq_sound,
  text_eq_ne, includes, All, any, split, after_prefix, if◌then◌else◌, arith,
}
use hosting_control_panel.Agent.Words.{
  word, word_is, word_passes, all_words, prefixed, joins_as, bounded_text,
}
use hosting_control_panel.Agent.Paths.{
  safe_site_path, valid_site_path, exec_containers, safe_name, valid_container,
}
use hosting_control_panel.Agent.Scripts.{wp_commands}
use hosting_control_panel.Agent.Programs.{
  is_blocked, path_ok, wp_args_ok, user_ok, wp_ok, validate_wp,
}
use hosting_control_panel.Agent.Php.{shell_script_ok, shell_ok, validate_php}
use hosting_control_panel.Agent.Policy.{
  short, Exec, item_of, parse_options, parse_command, parse_exec, validate_in, validate_exec,
  validate_operation, validate_args,
}
use hosting_control_panel.Agent.Segments.{is_dots, site_path_reference, valid_site_path-segments}

-- A path below /var/www/ none of whose segments leads upwards.
pub record IsSitePath (path : Text) : Type 0 where
  pub below : Text
  pub prefix : path ≡ text "/var/www/" ++ below
  pub level : All (λ segment. segment ≢ text "..") (split b'/' path)

after_prefix-append : (p s rest : Text) → after_prefix p s ≡ some rest → s ≡ p ++ rest
unfolding after_prefix
after_prefix-append [] s rest e = ground (arith, e)
after_prefix-append (p ∷ ps) [] rest e = absurd (cc)
after_prefix-append (p ∷ ps) (c ∷ cs) rest e = ground (arith, e, after_prefix-append ps cs rest)

no_dots : (ps : List Text) → any is_dots ps ≡ false → All (λ segment. segment ≢ text "..") ps
unfolding any
no_dots [] e = tt
no_dots (p ∷ ps) e = (text_eq_ne p (text "..") (ground (arith, e)), no_dots ps (ground (arith, e)))

valid_site_path-IsSitePath : (path : Text) → valid_site_path path ≡ true → IsSitePath path
unfolding safe_site_path prefixed
valid_site_path-IsSitePath path ok =
    let meant : site_path_reference path ≡ true = sym (valid_site_path-segments path) ∙ ok in
    elim (Option-cases (after_prefix (text "/var/www/") path)) [
      | inl m ↦ absurd (ground (arith, m, meant))
      | inr (rest, m) ↦ record {
        below = rest;
        prefix = after_prefix-append (text "/var/www/") path rest m;
        level = no_dots (split b'/' path) (ground (arith, meant));
      }
    ]

-- An argument that is no option of the blocked ones, and, if it is `--path=` with a path, names a website's
-- path.
pub record IsTame (argument : Text) : Type 0 where
  pub unblocked : is_blocked argument ≡ false
  pub path : (p : Text) → after_prefix (text "--path=") argument ≡ some p → IsSitePath p

path_ok-IsSitePath :
    (argument p : Text)
    → path_ok argument ≡ true
    → after_prefix (text "--path=") argument ≡ some p
    → IsSitePath p
unfolding path_ok
path_ok-IsSitePath argument p ok m = valid_site_path-IsSitePath p (rw m at ok)

all-IsTame :
    (args : List Text)
    → all_words (λ a. not (is_blocked a) && path_ok a) args ≡ true
    → All IsTame args
unfolding all_words
all-IsTame [] e = tt
all-IsTame (a ∷ more) e =
    let test : Text → Bool = λ b. not (is_blocked b) && path_ok b in
    let (here, there) = and_both (test a) (all_words test more) e in
    let (free, placed) = and_both (not (is_blocked a)) (path_ok a) here in
    (
      record {
        unblocked = not-true (is_blocked a) free;
        path = λ p m. path_ok-IsSitePath a p placed m;
      },
      all-IsTame more there,
    )

-- How a command of WP-CLI begins.
pub data Front : List Text → Type 0 where
  plain : Front (text "wp" ∷ text "--allow-root" ∷ [])
  nice : Front (text "nice" ∷ text "-n" ∷ text "10" ∷ text "wp" ∷ text "--allow-root" ∷ [])

pub record Wp (command : List Text) : Type 0 where
  pub front : List Text
  pub args : List Text
  pub begins : Front front
  pub whole : command ≡ front ++ args
  pub tame : (word_is 0 args (text "user") ≡ true) ⊎ All IsTame args

args-IsTame :
    (args options : List Text)
    → (if word_is 0 args (text "user") then user_ok args options else wp_args_ok args) ≡ true
    → (word_is 0 args (text "user") ≡ true) ⊎ All IsTame args
unfolding wp_args_ok
args-IsTame args options e = elim (Bool-cases (word_is 0 args (text "user"))) [
  | inl u ↦ inl u
  | inr n ↦
      let listed = word_passes 0 args (λ w. includes w wp_commands) in
      let tame = all_words (λ a. not (is_blocked a) && path_ok a) args in
      inr (all-IsTame args (and_both listed tame (rw n at e)).1)
]

-- The front of a command that `wp_ok` accepts.
wp_ok-front :
    (command options : List Text)
    → wp_ok command options ≡ true
    → (args : List Text) × (command ≡ text "wp" ∷ text "--allow-root" ∷ args)
      × ((word_is 0 args (text "user") ≡ true) ⊎ All IsTame args)
unfolding wp_ok word_is word
wp_ok-front [] options e = absurd (cc)
wp_ok-front (w ∷ []) options e =
    let body = wp_args_ok [] in
    let (named, ok) = and_both (text_eq w (text "wp") && false) body e in
    absurd (cc (and_both (text_eq w (text "wp")) false named).1)
wp_ok-front (w ∷ v ∷ args) options e =
    let body = if word_is 0 args (text "user") then user_ok args options else wp_args_ok args in
    let (named, ok) = and_both (text_eq w (text "wp") && text_eq v (text "--allow-root")) body e in
    let (first, second) =
      and_both (text_eq w (text "wp")) (text_eq v (text "--allow-root")) named in
    (
      args,
      ap (λ x. x ∷ v ∷ args) (text_eq_sound w (text "wp") first)
          ∙ ap (λ x. text "wp" ∷ x ∷ args) (text_eq_sound v (text "--allow-root") second),
      args-IsTame args options ok,
    )

niced :
    (command : List Text)
    → (word_is 0 command (text "nice")
        && word_is 1 command (text "-n")
        && word_is 2 command (text "10"))
      ≡ true
    → command ≡ text "nice" ∷ text "-n" ∷ text "10" ∷ drop 3 command
unfolding word_is word
niced [] e = absurd (cc)
niced (a ∷ []) e = absurd (cc (and_both (text_eq a (text "nice") && false) false e).1)
niced (a ∷ b ∷ []) e =
    absurd (cc (and_both (text_eq a (text "nice") && text_eq b (text "-n")) false e).1)
niced (a ∷ b ∷ c ∷ rest) e =
    let (two, third) =
      and_both (text_eq a (text "nice") && text_eq b (text "-n")) (text_eq c (text "10")) e in
    let (first, second) = and_both (text_eq a (text "nice")) (text_eq b (text "-n")) two in
    ap (λ x. x ∷ b ∷ c ∷ rest) (text_eq_sound a (text "nice") first)
    ∙ ap (λ x. text "nice" ∷ x ∷ c ∷ rest) (text_eq_sound b (text "-n") second)
    ∙ ap (λ x. text "nice" ∷ text "-n" ∷ x ∷ rest) (text_eq_sound c (text "10") third)

-- A command that is accepted is `wp --allow-root` or `nice -n 10 wp --allow-root` followed by arguments.
-- Unless the first of these is `user`, none of them is a blocked option, and each that has the form
-- `--path=…` gives a path below /var/www/ without a segment that leads upwards. Of paths in arguments of
-- another form nothing is said.
pub validate_wp-Wp : (command options : List Text) → validate_wp command options ≡ true → Wp command
unfolding validate_wp
validate_wp-Wp command options e = elim (Bool-cases (word_is 0 command (text "nice"))) [
  | inr n ↦
      let (args, is_wp, tame) = wp_ok-front command options (rw n at e) in
      record {
        front = text "wp" ∷ text "--allow-root" ∷ [];
        args = args;
        begins = plain;
        whole = is_wp;
        tame = tame;
      }
  | inl h ↦
      let (flags, ok) =
        and_both (word_is 1 command (text "-n") && word_is 2 command (text "10"))
          (wp_ok (drop 3 command) options) (rw h at e) in
      let (args, is_wp, tame) = wp_ok-front (drop 3 command) options ok in
      record {
        front = text "nice" ∷ text "-n" ∷ text "10" ∷ text "wp" ∷ text "--allow-root" ∷ [];
        args = args;
        begins = nice;
        whole =
            niced command (rw h flags) ∙ ap (λ x. text "nice" ∷ text "-n" ∷ text "10" ∷ x) is_wp;
        tame = tame;
      }
]

short_literals :
    all_words short (
      text "exec"
      ∷ text "-i"
      ∷ text "hosting-php-fpm"
      ∷ text "sh"
      ∷ text "-c"
      ∷ text "umask 077; cat > \"$1\""
      ∷ [])
    ≡ true
unfolding all_words bounded_text text
short_literals = refl

-- The request that writes to a file.
abbrev pub copy_to : Text → Text → List Text
copy_to name destination =
    text "exec"
    ∷ text "-i"
    ∷ text "hosting-php-fpm"
    ∷ text "sh"
    ∷ text "-c"
    ∷ text "umask 077; cat > \"$1\""
    ∷ name
    ∷ destination
    ∷ []

exec_php : valid_container exec_containers (text "hosting-php-fpm") ≡ true
unfolding valid_container bounded_text safe_name prefixed includes any text text_eq
exec_php = refl

php_accepts :
    (name destination : Text)
    → text_eq name (text "database-inspection") ≡ false
    → text_eq name (text "permissions") ≡ false
    → text_eq name (text "package-copy") ≡ false
    → validate_php (drop 3 (copy_to name destination)) (text "-i" ∷ []) ≡ true
unfolding validate_php shell_ok shell_script_ok word_is word joins_as includes any text_eq text
php_accepts name destination a b c = rw (a, b, c) refl

all_short :
    (name destination : Text)
    → short name ≡ true
    → short destination ≡ true
    → all_words short (copy_to name destination) ≡ true
unfolding all_words
all_short name destination n d = rw (n, d) short_literals

short_command_literals :
    all_words short (text "sh" ∷ text "-c" ∷ text "umask 077; cat > \"$1\"" ∷ []) ≡ true
unfolding all_words bounded_text text
short_command_literals = refl

short_command :
    (name destination : Text)
    → short name ≡ true
    → short destination ≡ true
    → all_words short (drop 3 (copy_to name destination)) ≡ true
unfolding all_words
short_command name destination n d = rw (n, d) short_command_literals

abbrev copy_exec : Text → Text → Exec
copy_exec name destination = record {
  options = text "-i" ∷ [];
  environment = [];
  container = text "hosting-php-fpm";
  command = drop 3 (copy_to name destination);
}

copy_command :
    (name destination : Text)
    → all_words short (drop 3 (copy_to name destination)) ≡ true
    → parse_command (text "-i" ∷ []) [] (drop 2 (copy_to name destination))
      ≡ some (copy_exec name destination)
unfolding parse_command
copy_command name destination short_words = rw (exec_php, short_words) refl

copy_parsed :
    (name destination : Text)
    → parse_exec (copy_to name destination)
      ≡ parse_command (text "-i" ∷ []) [] (drop 2 (copy_to name destination))
unfolding parse_exec parse_options item_of text text_eq
copy_parsed name destination = refl

copy_checked :
    (name destination : Text)
    → validate_php (drop 3 (copy_to name destination)) (text "-i" ∷ []) ≡ true
    → validate_in (copy_exec name destination) ≡ true
unfolding validate_in text text_eq
copy_checked name destination ok = ok

validate_exec-parsed :
    (argv : List Text) (e : Exec)
    → parse_exec argv ≡ some e
    → validate_in e ≡ true
    → validate_exec argv ≡ true
unfolding validate_exec
validate_exec-parsed argv e parsed ok = rw (validate_exec, parsed) ok

operation :
    (name destination : Text)
    → validate_exec (copy_to name destination) ≡ true
    → validate_operation (copy_to name destination) ≡ true
unfolding validate_operation word_is word text text_eq
operation name destination ok = ok

-- The agent accepts a request to write what it reads to any file of the PHP container: the destination of
-- the script `umask 077; cat > "$1"` is looked at under three names of the command only. Under every
-- other name, the request for every destination is accepted, if both have no unit 0 and at most 16384
-- bytes.
pub copy_anywhere :
    (name destination : Text)
    → short name ≡ true
    → short destination ≡ true
    → text_eq name (text "database-inspection") ≡ false
    → text_eq name (text "permissions") ≡ false
    → text_eq name (text "package-copy") ≡ false
    → validate_args (copy_to name destination) ≡ true
unfolding validate_args
copy_anywhere name destination n d a b c =
    let parsed =
      copy_parsed name destination
      ∙ copy_command name destination (short_command name destination n d) in
    let checked = copy_checked name destination (php_accepts name destination a b c) in
    let accepted =
      validate_exec-parsed (copy_to name destination) (copy_exec name destination) parsed checked in
    let op = operation name destination accepted in
    let words = all_short name destination n d in rw (op, words) refl
