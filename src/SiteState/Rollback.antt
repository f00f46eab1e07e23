-- ===== src/SiteState/Rollback.antt =====
-- What ui-manager/app/lib/site-state-transaction.js leaves behind.
use hosting_control_panel.Common.{◌≡◌, ◌⊎◌, true, false, Option, none, some}
use hosting_control_panel.SiteState.Transaction.{
  Files, Rendered, Answers, Outcome, applied, not_required, succeeded, failed, restore, rolls_back,
  attempt,
}
use hosting_control_panel.SiteState.Parts.{written_files}

-- What each outcome says of the files and of the steps.
pub data Account (f : Files) (rendered : Option Rendered) (a undo : Answers)
    : Files → Outcome → Type 0 where
  not_begun : rendered ≡ none → Account f rendered a undo f not_required
  made :
      (r : Rendered)
      → rendered ≡ some r
      → (attempt f r a).1.done ≡ true
      → Account f rendered a undo (written_files r) applied
  taken_back :
      (r : Rendered)
      → rendered ≡ some r
      → (attempt f r a).1.done ≡ false
      → rolls_back (attempt f r a).1 undo f f.pools ≡ true
      → Account f rendered a undo f succeeded
  left_behind :
      (r : Rendered) {f' : Files}
      → rendered ≡ some r
      → (attempt f r a).1.done ≡ false
      → ((restore undo.disk f (attempt f r a).0).1 ≡ false)
        ⊎ (rolls_back (attempt f r a).1 undo f f.pools ≡ false)
      → Account f rendered a undo f' failed
