-- ===== src/Agent/Php.antt =====
-- What control-agent/app/policy.js lets run in the container of PHP.
use hosting_control_panel.Common.{
  Bool, true, false, not, ◌&&◌, ◌||◌, Option, none, some, List, [], ◌∷◌, length, ltb, ◌==◌, any,
  if◌then◌else◌, Text, text, includes, starts_with, after_prefix,
}
use hosting_control_panel.Agent.Words.{
  every, all_words, word, word_is, word_passes, joins_as, contains, ends_with, is_path_unit,
}
use hosting_control_panel.Agent.Paths.{valid_site_path, safe_temp_zip}
use hosting_control_panel.Agent.Scripts.{php_shell_scripts, image_fragments, permissions_start}
use hosting_control_panel.Agent.Programs.{validate_wp}

-- What follows `[A-Za-z0-9._/-]+`.
unfoldable pub after_path : Text → Option Text
after_path [] = none
after_path (c ∷ []) = if is_path_unit c then some [] else none
after_path (c ∷ d ∷ ds) =
    let rest = after_path (d ∷ ds) in
    if not (is_path_unit c) then none else elim rest [ none ↦ some (d ∷ ds) | some r ↦ some r ]

-- What follows a literal and `[A-Za-z0-9._/-]+`, where a space comes after the path.
unfoldable pub after_literal_path : Text → Text → Option Text
unfolding after_prefix after_path
after_literal_path literal s = elim (after_prefix literal s) [
  | none ↦ none
  | some rest ↦ after_path rest
]

-- `[A-Za-z0-9._/-]+\/wp-config\.php$`
unfoldable pub config_rest : Text → Bool
unfolding every ends_with text
config_rest s = every is_path_unit s && ends_with s (text "/wp-config.php") && ltb 14 (length s)

-- The pattern `/^find \/var\/www\/… && chmod 640 \/var\/www\/…\/wp-config\.php$/`.
unfoldable pub is_chmod_script : Text → Bool
unfolding after_literal_path after_prefix config_rest text
is_chmod_script s = elim (after_literal_path (text "find /var/www/") s) [
  | none ↦ false
  | some r ↦ elim (after_literal_path (text " -type d -exec chmod 775 {} + && find /var/www/") r) [
    | none ↦ false
    | some q ↦ elim (after_prefix (text " -type f -exec chmod 664 {} + && chmod 640 /var/www/") q) [
      | none ↦ false
      | some rest ↦ config_rest rest
    ]
  ]
]

abbrev pub or_empty : Option Text → Text
or_empty none = []
or_empty (some w) = w

-- A script of `PHP_SHELL_SCRIPTS`: which of its arguments are looked at depends on its name.
unfoldable pub shell_script_ok : List Text → Bool
unfolding word_is word_passes valid_site_path safe_temp_zip text
shell_script_ok command =
    (not (word_is 3 command (text "database-inspection") || word_is 3 command (text "permissions"))
      || word_passes 4 command valid_site_path)
    && (not (word_is 3 command (text "package-copy")) || word_passes 4 command safe_temp_zip)

unfoldable pub permissions_ok : List Text → Text → Bool
unfolding word_is word_passes starts_with valid_site_path text
permissions_ok command script =
    starts_with script permissions_start
    && word_is 3 command (text "permissions")
    && (length command == 5)
    && word_passes 4 command valid_site_path

unfoldable pub shell_ok : List Text → Bool
unfolding word includes shell_script_ok is_chmod_script permissions_ok
shell_ok command =
    let script = or_empty (word 2 command) in
    if includes script php_shell_scripts
    then shell_script_ok command
    else is_chmod_script script || permissions_ok command script

abbrev pub banned_fragments : List Text
banned_fragments =
    text "curl"
    ∷ text "wget"
    ∷ text "nc "
    ∷ text "/dev/tcp"
    ∷ text "docker"
    ∷ text "mount"
    ∷ text "sudo"
    ∷ []

unfoldable pub optimize_ok : List Text → Bool
unfolding word word_passes valid_site_path all_words any contains text
optimize_ok command =
    let script = or_empty (word 2 command) in
    word_passes 4 command valid_site_path
    && all_words (λ f. contains f script) image_fragments
    && not (any (λ f. contains f script) banned_fragments)

-- `validatePhp(command, options)`
unfoldable pub validate_php : List Text → List Text → Bool
unfolding joins_as word_is word_passes validate_wp valid_site_path safe_temp_zip shell_ok
    optimize_ok text
validate_php command options =
    if joins_as command (text "php-fpm" ∷ text "-t" ∷ [])
    then true
    else if word_is 0 command (text "wp") || word_is 0 command (text "nice")
    then validate_wp command options
    else if word_is 0 command (text "php") && word_is 1 command (text "-l") && (length command == 3)
    then word_passes 2 command valid_site_path
    else if word_is 0 command (text "rm")
        && word_is 1 command (text "-f")
        && (length command == 3)
        && word_passes 2 command safe_temp_zip
    then true
    else if joins_as command
        (text "cgi-fcgi" ∷ text "-bind" ∷ text "-connect" ∷ text "127.0.0.1:9000" ∷ [])
    then true
    else if word_is 0 command (text "sh")
        && (word_is 1 command (text "-c") || word_is 1 command (text "-lc"))
    then shell_ok command
    else if word_is 0 command (text "bash")
        && word_is 1 command (text "-c")
        && word_is 3 command (text "optimize-images")
    then optimize_ok command
    else false
