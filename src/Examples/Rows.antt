-- ===== src/Examples/Rows.antt =====
-- Concrete runs of the queries (internal/repository).
use omni_blob.Base.{◌≡◌, refl, true, none, some, [], ◌∷◌, ◌==◌, if◌then◌else◌, codes}
use omni_blob.Entity.{LogFileRsync}
use omni_blob.Repository.BinaryFiles.{
  Files, get_by_id, get_pending_files, prepare, insert_file, delete_row, update_path_and_status,
  set_status,
}
use omni_blob.Repository.BinaryFiles.Pages.{Page, get_pending_files-Page}
use omni_blob.Repository.BinaryFiles.Rows.{
  Inserted, insert_file-Inserted, get_by_id-delete_row, get_by_id-update,
}
use omni_blob.Repository.Tables.{get_last_bin_id}
use omni_blob.Examples.Data.{row}

abbrev rows : Files
rows = row 7 ∷ row 3 ∷ []

get_pending_files-Page_example :
    (page : Files) × (get_pending_files true 2 1 rows ≡ some page) × Page 2 1 rows page
get_pending_files-Page_example = get_pending_files-Page 2 1 rows

insert_file-Inserted_example :
    Inserted (prepare true 9 rows (row 0)) rows (insert_file true true 9 (row 0) rows)
insert_file-Inserted_example = insert_file-Inserted true true 9 (row 0) rows

get_by_id-delete_row_example :
    get_by_id true 3 (delete_row true 7 rows).0 ≡ (if 3 == 7 then none else get_by_id true 3 rows)
get_by_id-delete_row_example = get_by_id-delete_row 3 7 rows

get_by_id-update_example :
    get_by_id true 3 (update_path_and_status 7 (codes "a/b") (codes "h") 5 (codes "M") rows)
    ≡ elim (get_by_id true 3 rows) [
      | none ↦ none
      | some f ↦ some (if 3 == 7 then set_status (codes "a/b") (codes "h") 5 (codes "M") f else f)
    ]
get_by_id-update_example = get_by_id-update 3 7 (codes "a/b") (codes "h") 5 (codes "M") rows

abbrev checkpoint : LogFileRsync
checkpoint = record {
  server = codes "s";
  last_bin_id = 7;
  bin_executed = [];
  migrated = 0;
  errors = 0;
}

none_yet : get_last_bin_id true (codes "s") [] ≡ some 0
unfolding get_last_bin_id
none_yet = refl
