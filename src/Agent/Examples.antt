-- ===== src/Agent/Examples.antt =====
-- Requests to the control agent on which the theorems about its policy are applied.
use hosting_control_panel.Common.{
  ◌≡◌, refl, true, List, [], ◌∷◌, Text, text, text_eq, after_prefix, any, includes, starts_with,
}
use hosting_control_panel.Agent.Words.{
  bounded_text, every, all_words, word, word_is, word_passes, prefixed, contains, ends_with,
  byte_length,
}
use hosting_control_panel.Agent.Paths.{safe_site_path, valid_site_path}
use hosting_control_panel.Agent.Programs.{validate_wp, wp_ok, wp_args_ok, is_blocked, path_ok}
use hosting_control_panel.Agent.Policy.{validate_args}
use hosting_control_panel.Agent.Segments.{site_path_reference, valid_site_path-segments}
use hosting_control_panel.Agent.Websites.{Wp, validate_wp-Wp, copy_to, copy_anywhere}

abbrev plugins : List Text
plugins =
    text "wp" ∷ text "--allow-root" ∷ text "plugin" ∷ text "list" ∷ text "--path=/var/www/a.io" ∷ []

plugins-accepted : validate_wp plugins [] ≡ true
unfolding validate_wp wp_ok wp_args_ok is_blocked path_ok valid_site_path safe_site_path prefixed
    after_prefix contains ends_with starts_with every all_words word word_is word_passes
    bounded_text byte_length any includes text text_eq
plugins-accepted = refl

validate_wp-Wp_example : Wp plugins
validate_wp-Wp_example = validate_wp-Wp plugins [] plugins-accepted

abbrev list_plugins : List Text
list_plugins = text "exec" ∷ text "-u" ∷ text "33:33" ∷ text "hosting-php-fpm" ∷ plugins

valid_site_path-segments_example :
    valid_site_path (text "/var/www/a.io/../b") ≡ site_path_reference (text "/var/www/a.io/../b")
valid_site_path-segments_example = valid_site_path-segments (text "/var/www/a.io/../b")

copy_anywhere_example : validate_args (copy_to (text "x") (text "/etc/passwd")) ≡ true
unfolding bounded_text any byte_length text text_eq
copy_anywhere_example = copy_anywhere (text "x") (text "/etc/passwd") refl refl refl refl refl
