-- ===== src/Web/Edits.antt =====
-- app.py: the requests that write the catalogue (lines 217 to 297 and 452 to 529). Of catalog/art.py
-- they use `ingest`, which is a parameter, and `remove`.
use disc_stakka_web.Base.{
  ℕ, Bool, true, false, ◌&&◌, if◌then◌else◌, Option, none, some, List, [], ◌∷◌,
}
use disc_stakka_web.Effect.{Text, chars, format, nil, num, text, Done, ◌>>=◌, ◌>>◌, pure, modify}
use disc_stakka_web.Flows.{say}
use disc_stakka_web.Jobs.{Job}
use disc_stakka_web.Catalog.Db.{
  Disc, Status, stored, out, EventKind, titled, get_disc, get_by_slot, create_disc, mark_out,
  mark_stored, delete_disc,
}
use disc_stakka_web.Catalog.Edit.{Changes, update_disc}
use disc_stakka_web.Catalog.Taxonomy.{category, platform}
use disc_stakka_web.Web.{
  Web, Response, render, see_other, index_target, reconcile_target, disc_target, edit_target,
  job_target, edit_view, confirm_delete, FormInt, ok_flash, warn_flash, error_flash, flash, query,
  with_conn, or_404, job_using, form_slot, stripped, or_none, to_text,
}

-- The fields of the form of edit.html; a file counts only with a name.
pub record EditForm : Type 0 where
  pub title : Option (List ℕ)
  pub subtitle : Option (List ℕ)
  pub category : Option (List ℕ)
  pub platform : Option (List ℕ)
  pub notes : Option (List ℕ)
  pub art_file : Option (List ℕ)
  pub art_url : Option (List ℕ)

-- What `art.ingest` returns, or the text of its `ArtError`.
pub data Ingested : Type 0 where
  stem : Option Text → Ingested
  refused : Text → Ingested

abbrev pub new_art : Option Text → Option (Option Text)
new_art none = none
new_art (some path) = some (some path)

-- `fields`
unfoldable pub fields : EditForm → Option Text → Changes
fields form path = record {
  title = some (chars (stripped form.title));
  subtitle = some (or_none (stripped form.subtitle));
  category = some (to_text (category form.category));
  platform = some (to_text (platform (category form.category) form.platform));
  notes = some (or_none (stripped form.notes));
  art_path = new_art path;
  slot = none;
}

abbrev pub save : ℕ → EditForm → Disc → Ingested → Web Response
save id form disc (refused reason) = flash (error_flash reason) >> pure (render (edit_view disc))
save id form disc (stem path) = do
  query (update_disc id (fields form path))
  flash (ok_flash (say "Saved."))
  pure (see_other (disc_target id))

module _ (ingest : Option (List ℕ) → Option (List ℕ) → Option Text → Ingested) where
  abbrev pub edit_titled : List ℕ → ℕ → EditForm → Disc → Web Response
  edit_titled [] id form disc =
      flash (error_flash (say "A title is required.")) >> pure (render (edit_view disc))
  edit_titled (c ∷ cs) id form disc =
      save id form disc (ingest form.art_file form.art_url disc.art_path)

  abbrev pub edit_found : ℕ → Option EditForm → Disc → Web Response
  edit_found id none disc = pure (render (edit_view disc))
  edit_found id (some form) disc = edit_titled (stripped form.title) id form disc

  -- A POST gives its form.
  unfoldable pub disc_edit : ℕ → Option EditForm → Web Response
  disc_edit id form =
      with_conn (query (get_disc id) >>= λ row. or_404 row (λ disc. edit_found id form disc))

unfoldable pub remove_art : Option Text → Web Done
remove_art path = modify (λ s. record s { removed_art = path ∷ s.removed_art })

abbrev pub busy_with : Job → Web Response
busy_with job =
    flash (warn_flash (say "The unit is working on that disc. Wait for it to finish."))
    >> pure (see_other (job_target job.id))

-- `detail`
abbrev pub delete_detail : Status → ℕ → Text
delete_detail out slot =
    format "It was checked out, so slot %d is no longer held for its return." (num slot nil)
delete_detail stored slot =
    format
      "Nothing was ejected, so anything physically in slot %d is still there, but the catalogue now lists the slot as free."
      (num slot nil)

pub record DeleteForm : Type 0 where
  pub is_post : Bool
  pub confirmed : Bool
  pub from_list : Bool

abbrev pub delete_confirmed : Bool → ℕ → Bool → Disc → Web Response
delete_confirmed false id from_list disc =
    pure (render (confirm_delete disc (if from_list then index_target else disc_target id)))
delete_confirmed true id from_list disc = do
  query (delete_disc id)
  remove_art disc.art_path
  flash (
      warn_flash (
        format "Removed “%s” from the catalogue. %s"
          (text disc.title (text (delete_detail disc.status disc.slot) nil))))
  pure (see_other index_target)

abbrev pub delete_unused : Option Job → ℕ → DeleteForm → Disc → Web Response
delete_unused (some job) id form disc = busy_with job
delete_unused none id form disc =
    delete_confirmed (form.is_post && form.confirmed) id form.from_list disc

abbrev pub delete_found : ℕ → DeleteForm → Disc → Web Response
delete_found id form disc =
    job_using (some id) (some disc.slot) >>= λ job. delete_unused job id form disc

unfoldable pub disc_delete : ℕ → DeleteForm → Web Response
disc_delete id form =
    with_conn (query (get_disc id) >>= λ row. or_404 row (λ disc. delete_found id form disc))

abbrev pub record_in : ℕ → List ℕ → Option Job → Web Response
record_in slot title (some job) =
    flash
      (error_flash (format "The unit is working on slot %d. Wait for it to finish." (num slot nil)))
    >> pure (see_other reconcile_target)
record_in slot title none = do
  id ← query (create_disc slot (titled (chars title)) EventKind.manual)
  flash (ok_flash (format "Recorded “%s” in slot %d." (text (chars title) (num slot nil))))
  pure (see_other (edit_target id))

abbrev pub record_free : ℕ → List ℕ → Option Disc → Web Response
record_free slot title (some disc) =
    flash (error_flash (format "Slot %d already has an entry." (num slot nil)))
    >> pure (see_other reconcile_target)
record_free slot title none = job_using none (some slot) >>= record_in slot title

abbrev pub record_titled : ℕ → List ℕ → Web Response
record_titled slot [] =
    flash (error_flash (say "A title is required.")) >> pure (see_other reconcile_target)
record_titled slot (c ∷ cs) = query (get_by_slot slot) >>= record_free slot (c ∷ cs)

abbrev pub record_slot : Option (List ℕ) → Option ℕ → Web Response
record_slot title none = pure (see_other reconcile_target)
record_slot title (some slot) = record_titled slot (stripped title)

unfoldable pub reconcile_manual : FormInt → Option (List ℕ) → Web Response
reconcile_manual field title = with_conn (form_slot field >>= record_slot title)

-- What the catalogue says, and what it is to say.
abbrev pub correct_status : Status → Status → ℕ → Disc → Web Done
correct_status stored stored id disc = flash (warn_flash (say "The catalogue already says that."))
correct_status out out id disc = flash (warn_flash (say "The catalogue already says that."))
correct_status stored out id disc = do
  query (mark_out id EventKind.manual (some (say "marked as taken out")))
  flash (
      ok_flash (
        format "“%s” is now listed as checked out. Slot %d is held for its return."
          (text disc.title (num disc.slot nil))))
correct_status out stored id disc = do
  query (mark_stored id EventKind.manual (some (say "marked as in its slot")))
  flash
      (ok_flash (format "“%s” is now listed as in slot %d." (text disc.title (num disc.slot nil))))

abbrev pub correct_unused : Option Job → ℕ → Status → Disc → Web Response
correct_unused (some job) id status disc = busy_with job
correct_unused none id status disc =
    correct_status disc.status status id disc >> pure (see_other (disc_target id))

abbrev pub correct_found : ℕ → Status → Disc → Web Response
correct_found id status disc =
    job_using (some id) (some disc.slot) >>= λ job. correct_unused job id status disc

-- `_correct`
unfoldable pub correct : ℕ → Status → Web Response
correct id status =
    with_conn (query (get_disc id) >>= λ row. or_404 row (λ disc. correct_found id status disc))

unfoldable pub disc_mark_out : ℕ → Web Response
unfolding correct
disc_mark_out id = correct id out

unfoldable pub disc_mark_stored : ℕ → Web Response
unfolding correct
disc_mark_stored id = correct id stored
