-- ===== src/SiteState/Transaction.antt =====
-- `applySiteStateTransaction` of ui-manager/app/lib/site-state-transaction.js, under its lock. Which writes
-- succeed and what the servers answer to which files are arguments; a write or a removal that fails leaves
-- its file as it was.
use hosting_control_panel.Common.{
  Bool, true, false, not, ◌&&◌, ◌||◌, Option, none, some, [], if◌then◌else◌, Text, text_eq,
}

-- The four files; one that does not exist is `none`.
pub record Files : Type 0 where
  pub sites_map : Text
  pub pools : Text
  pub site_state : Option Text
  pub cache_map : Option Text

-- The contents that are rendered for the files before anything is written.
pub record Rendered : Type 0 where
  pub sites_map : Text
  pub pools : Text
  pub site_state : Text
  pub cache_map : Text

-- Which of the files can be written or removed.
pub record Disk : Type 0 where
  pub sites_map : Bool
  pub pools : Bool
  pub site_state : Bool
  pub cache_map : Bool

-- Whether each step succeeds: the writes, the check and the reloads on the files as they are then, and the
-- check of the ports of the pools. There may be no external change.
pub record Answers : Type 0 where
  pub disk : Disk
  pub validate : Files → Bool
  pub reload_php : Files → Bool
  pub reload_nginx : Files → Bool
  pub verify_ports : Text → Bool
  pub external : Option Bool

-- The write of the sites map, where it changed: the files, and whether it succeeded.
unfoldable pub write_sites_map : Disk → Rendered → Files → Files × Bool
unfolding text_eq
write_sites_map d r f =
    if text_eq r.sites_map f.sites_map
    then (f, true)
    else if d.sites_map
    then (record f { sites_map = r.sites_map }, true)
    else (f, false)

-- The writes of the pools, where they changed, and of the sites map.
unfoldable pub write_pools : Disk → Rendered → Files → Files × Bool
unfolding write_sites_map text_eq
write_pools d r f =
    if text_eq r.pools f.pools
    then write_sites_map d r f
    else if d.pools
    then write_sites_map d r (record f { pools = r.pools })
    else (f, false)

-- `mutationStarted = true` and the four writes, up to the first that fails.
unfoldable pub write : Disk → Files → Rendered → Files × Bool
unfolding write_pools
write d f r =
    if not d.site_state
    then (f, false)
    else if not d.cache_map
    then (record f { site_state = some r.site_state }, false)
    else write_pools d r (record f { site_state = some r.site_state; cache_map = some r.cache_map })

-- A file of the snapshot: written again if it existed, removed otherwise if it exists; `none` where that
-- fails.
unfoldable pub restored_file : Bool → Option Text → Option Text → Option (Option Text)
restored_file works (some content) now = if works then some (some content) else none
restored_file works none (some content) = if works then some none else none
restored_file works none none = some none

-- `restore(snap)`, up to the first write that fails.
unfoldable pub restore : Disk → Files → Files → Files × Bool
unfolding restored_file
restore d snap f =
    let f1 : Files = record f { sites_map = snap.sites_map } in
    let f2 : Files = record f1 { pools = snap.pools } in
    if not d.sites_map
    then (f, false)
    else if not d.pools
    then (f1, false)
    else elim (restored_file d.site_state snap.site_state f.site_state) [
      | none ↦ (f2, false)
      | some state ↦
          let f3 : Files = record f2 { site_state = state } in
          elim (restored_file d.cache_map snap.cache_map f.cache_map) [
            | none ↦ (f3, false)
            | some cache ↦ (record f3 { cache_map = cache }, true)
          ]
    ]

-- How far the steps after the writes came.
pub record Progress : Type 0 where
  pub done : Bool
  pub php_attempted : Bool
  pub nginx_attempted : Bool
  pub external_attempted : Bool

abbrev stopped : Bool → Bool → Progress
stopped php nginx = record {
  done = false;
  php_attempted = php;
  nginx_attempted = nginx;
  external_attempted = false;
}

-- `if (applyExternal) …`
unfoldable pub apply_external : Answers → Bool → Bool → Progress
apply_external a php nginx = elim a.external [
  | none ↦ record {
    done = true;
    php_attempted = php;
    nginx_attempted = nginx;
    external_attempted = false;
  }
  | some b ↦ record {
    done = b;
    php_attempted = php;
    nginx_attempted = nginx;
    external_attempted = true;
  }
]

-- The steps after the writes, on the files as they are then: both servers where the pools or the sites
-- map changed, nginx alone where only the cache map did.
unfoldable pub activate : Bool → Bool → Answers → Files → Text → Progress
unfolding apply_external
activate true cache_changed a f pools =
    if not (a.validate f)
    then stopped false false
    else if not (a.reload_php f)
    then stopped true false
    else if not (a.reload_nginx f)
    then stopped true true
    else if not (a.verify_ports pools)
    then stopped true true
    else apply_external a true true
activate false true a f pools =
    if not (a.validate f)
    then stopped false false
    else if not (a.reload_nginx f)
    then stopped false true
    else apply_external a false true
activate false false a f pools = apply_external a false false

abbrev passes : Option Bool → Bool
passes none = true
passes (some b) = b

-- The steps after `restore`, which repeat what was attempted.
unfoldable pub rolls_back : Progress → Answers → Files → Text → Bool
rolls_back p undo f pools =
    undo.validate f
    && (not p.external_attempted || passes undo.external)
    && (not p.php_attempted || undo.reload_php f)
    && (not p.nginx_attempted || undo.reload_nginx f)
    && (not p.php_attempted || undo.verify_ports pools)

pub data Outcome : Type 0 where
  applied not_required succeeded failed : Outcome

abbrev content : Option Text → Text
content none = []
content (some t) = t

-- `poolsChanged`
abbrev pub pools_changed : Files → Rendered → Bool
pools_changed f r = not (text_eq r.pools f.pools) || not (text_eq r.sites_map f.sites_map)

-- `cacheChanged`
abbrev pub cache_changed : Files → Rendered → Bool
cache_changed f r = not (text_eq r.cache_map (content f.cache_map))

-- The writes and the steps after them: the files, and how far the steps came.
unfoldable pub attempt : Files → Rendered → Answers → Files × Progress
unfolding write activate text_eq
attempt f r a =
    let (f', written) = write a.disk f r in
    if written
    then (f', activate (pools_changed f r) (cache_changed f r) a f' r.pools)
    else (f', stopped false false)

-- The restoration of the files and the steps after it: the files, and whether all succeeded.
unfoldable pub undone : Files → Files → Progress → Answers → Files × Bool
unfolding restore rolls_back
undone snap f p undo =
    let (f', restored) = restore undo.disk snap f in
    (f', restored && rolls_back p undo f' snap.pools)

-- `applySiteStateTransaction(…)`: `none` where parsing, checking, rendering or a backup throws. The
-- answers are those to the change and those to the rollback.
unfoldable pub apply_site_state_transaction :
    Files → Option Rendered → Answers → Answers → Files × Outcome
unfolding attempt undone
apply_site_state_transaction f none a undo = (f, not_required)
apply_site_state_transaction f (some r) a undo =
    let (f1, p) = attempt f r a in
    let (f2, verified) = undone f f1 p undo in
    if p.done then (f1, applied) else (f2, if verified then succeeded else failed)
