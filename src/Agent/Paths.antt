-- ===== src/Agent/Paths.antt =====
-- Containers, paths and archives as control-agent/app/policy.js accepts them.
use hosting_control_panel.Common.{
  ℕ, Bool, not, ◌&&◌, ◌||◌, none, some, List, [], ◌∷◌, length, leb, ltb, Text, text, includes,
  after_prefix, ◌==◌, false,
}
use hosting_control_panel.Agent.Words.{
  bounded_text, every, contains, ends_with, is_digit, is_file_unit, is_path_unit, prefixed,
}

abbrev pub containers : List Text
containers =
    text "hosting-db" ∷ text "hosting-nginx" ∷ text "hosting-php-fpm" ∷ text "hosting-redis" ∷ []

abbrev pub exec_containers : List Text
exec_containers =
    text "hosting-db"
    ∷ text "hosting-nginx"
    ∷ text "hosting-php-fpm"
    ∷ text "hosting-redis"
    ∷ text "hosting-npm"
    ∷ text "hosting-sync"
    ∷ []

abbrev pub inspect_containers : List Text
inspect_containers =
    text "hosting-db"
    ∷ text "hosting-nginx"
    ∷ text "hosting-php-fpm"
    ∷ text "hosting-redis"
    ∷ text "hosting-agent"
    ∷ text "hosting-billing"
    ∷ text "hosting-cloudflared"
    ∷ text "hosting-files"
    ∷ text "hosting-npm"
    ∷ text "hosting-phpmyadmin"
    ∷ text "hosting-sync"
    ∷ text "hosting-ui"
    ∷ []

-- `[a-z0-9-]`
abbrev is_name_unit : ℕ → Bool
is_name_unit c = (leb 97 c && leb c 122) || is_digit c || (c == b'-')

-- `SAFE_NAME`
unfoldable pub safe_name : Text → Bool
unfolding prefixed text
safe_name s = prefixed (text "hosting-") is_name_unit s

-- `validContainer(value, allowed)` does not throw.
unfoldable pub valid_container : List Text → Text → Bool
unfolding bounded_text safe_name includes
valid_container allowed name = bounded_text 128 name && safe_name name && includes name allowed

-- `SAFE_SITE_PATH`
unfoldable pub safe_site_path : Text → Bool
unfolding prefixed text
safe_site_path s = prefixed (text "/var/www/") is_path_unit s

-- `validSitePath(value)` does not throw.
unfoldable pub valid_site_path : Text → Bool
unfolding bounded_text safe_site_path contains ends_with text
valid_site_path path =
    bounded_text 1024 path
    && safe_site_path path
    && not (contains (text "/../") path)
    && not (ends_with path (text "/.."))

-- `-[A-Za-z0-9._-]+\.zip$` after the dash.
abbrev zip_rest : Text → Bool
zip_rest rest = ltb 4 (length rest) && every is_file_unit rest && ends_with rest (text ".zip")

-- `SAFE_TEMP_ZIP`
unfoldable pub safe_temp_zip : Text → Bool
unfolding after_prefix every ends_with text
safe_temp_zip s = elim (after_prefix (text "/tmp/hosting-control-") s) [
  | some rest ↦ zip_rest rest
  | none ↦ elim (after_prefix (text "/tmp/hosting-package-") s) [
    | some rest ↦ zip_rest rest
    | none ↦ false
  ]
]

-- `IDENTIFIER`
unfoldable pub identifier : Text → Bool
unfolding every
identifier s =
    ltb 0 (length s)
    && leb (length s) 64
    && every (λ c. is_name_unit c || (leb 65 c && leb c 90) || (c == b'_') || (c == b'$')) s
