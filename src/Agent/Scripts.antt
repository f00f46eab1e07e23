-- ===== src/Agent/Scripts.antt =====
-- The literals of control-agent/app/policy.js: programs, options and scripts.
use hosting_control_panel.Common.{List, [], ◌∷◌, Text, text}

-- `WP_COMMANDS`
abbrev pub wp_commands : List Text
wp_commands =
    text "comment"
    ∷ text "config"
    ∷ text "core"
    ∷ text "cron"
    ∷ text "db"
    ∷ text "eval"
    ∷ text "maintenance-mode"
    ∷ text "option"
    ∷ text "plugin"
    ∷ text "post"
    ∷ text "redis"
    ∷ text "rewrite"
    ∷ text "search-replace"
    ∷ text "theme"
    ∷ text "transient"
    ∷ []

abbrev pub wp_blocked_options : List Text
wp_blocked_options =
    text "--exec" ∷ text "--http" ∷ text "--prompt" ∷ text "--require" ∷ text "--ssh" ∷ []

abbrev pub mysql_scripts : List Text
mysql_scripts =
    text "exec mysql -uroot -p\"$MYSQL_ROOT_PASSWORD\" -e \"$SITE_PROVISION_SQL\""
    ∷ text "exec mysql -uroot -p\"$MYSQL_ROOT_PASSWORD\" -e \"$SITE_REMOVAL_SQL\""
    ∷ text "exec mysql -N -uroot -p\"$MYSQL_ROOT_PASSWORD\" -e \"$MIGRATION_SQL\""
    ∷ text "exec mysql -uroot -p\"$MYSQL_ROOT_PASSWORD\" -e \"$MIGRATION_SQL\""
    ∷ text "exec mysql -uroot -p\"$MYSQL_ROOT_PASSWORD\" -e \"$MYSQL_PERFORMANCE_SQL\""
    ∷ text "export MYSQL_PWD=\"$MYSQL_ROOT_PASSWORD\"; exec nice -n 10 mysql -uroot \"$1\""
    ∷ text "export MYSQL_PWD=\"$MYSQL_ROOT_PASSWORD\"; exec nice -n 10 mysqldump -uroot \"$@\""
    ∷ text
        "export MYSQL_PWD=\"$MYSQL_ROOT_PASSWORD\"; exec nice -n 10 mysqldump -uroot --single-transaction --quick --routines --events --triggers --hex-blob \"$1\""
    ∷ text "mysqladmin -uroot -p\"$MYSQL_ROOT_PASSWORD\" ping --silent"
    ∷ text "mysqladmin -uroot -p\"$MYSQL_ROOT_PASSWORD\" ping"
    ∷ []

abbrev pub php_shell_scripts : List Text
php_shell_scripts =
    text "kill -USR2 1"
    ∷ text "umask 077; cat > \"$1\""
    ∷ text
        "set -eu; wp --allow-root config get DB_NAME --path=\"$1\" --quiet; wp --allow-root config get DB_USER --path=\"$1\" --quiet"
    ∷ []

abbrev pub env_keys : List Text
env_keys =
    text "GATEWAY_INTERFACE"
    ∷ text "MIGRATION_SQL"
    ∷ text "MYSQL_PERFORMANCE_SQL"
    ∷ text "REDIRECT_STATUS"
    ∷ text "REQUEST_METHOD"
    ∷ text "REQUEST_URI"
    ∷ text "SCRIPT_FILENAME"
    ∷ text "SCRIPT_NAME"
    ∷ text "SERVER_PROTOCOL"
    ∷ text "SITE_PROVISION_SQL"
    ∷ text "SITE_REMOVAL_SQL"
    ∷ []

abbrev pub mysql_options : List Text
mysql_options =
    text "--all-databases"
    ∷ text "--events"
    ∷ text "--hex-blob"
    ∷ text "--quick"
    ∷ text "--routines"
    ∷ text "--single-transaction"
    ∷ text "--triggers"
    ∷ []

abbrev pub mysql_env_keys : List Text
mysql_env_keys =
    text "MIGRATION_SQL"
    ∷ text "MYSQL_PERFORMANCE_SQL"
    ∷ text "SITE_PROVISION_SQL"
    ∷ text "SITE_REMOVAL_SQL"
    ∷ []

abbrev pub image_fragments : List Text
image_fragments =
    text "uploads=\"$site/wp-content/uploads\""
    ∷ text "convert \"$source\" -auto-orient -strip -quality 82"
    ∷ text "find \"$uploads\" -type f"
    ∷ text "echo \"created=$created skipped=$skipped failed=$failed saved=$saved\""
    ∷ []

abbrev pub eviction_policies : List Text
eviction_policies =
    text "allkeys-lfu"
    ∷ text "allkeys-lru"
    ∷ text "allkeys-random"
    ∷ text "noeviction"
    ∷ text "volatile-lfu"
    ∷ text "volatile-lru"
    ∷ text "volatile-random"
    ∷ text "volatile-ttl"
    ∷ []

abbrev pub sync_paths : List Text
sync_paths =
    text "/rest/system/connections"
    ∷ text "/rest/db/status?folder=hosting-websites"
    ∷ text "/rest/db/status?folder=hosting-runtime-config"
    ∷ text "/rest/db/status?folder=hosting-db-recovery"
    ∷ []

abbrev pub inspect_formats : List Text
inspect_formats =
    text "{{json .State}}"
    ∷ text "{{json .State.Status}}"
    ∷ text "{{json .State.Health}}"
    ∷ text "{{json .Config.Image}}"
    ∷ []

abbrev pub npm_backup_read_script : Text
npm_backup_read_script =
    text
      "set -eu; find /etc/letsencrypt -xdev -exec chgrp -h 33 {} +; find /etc/letsencrypt -xdev -type d -exec chmod g+rX {} +; find /etc/letsencrypt -xdev -type f -exec chmod g+r {} +"

abbrev pub sync_script : Text
sync_script =
    text
      "key=\"$(sed -n \"s:.*<apikey>\\(.*\\)</apikey>.*:\\1:p\" /var/syncthing/config/config.xml)\"; exec wget -qO- --header=\"X-API-Key: $key\" \"http://127.0.0.1:8384$1\""

abbrev pub permissions_start : Text
permissions_start =
    text
      "set -eu; site=\"$1\"; chown -R 33:33 \"$site\"; find \"$site\" -type d -exec chmod 775 {} +;"
