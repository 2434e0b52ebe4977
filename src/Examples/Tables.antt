-- ===== src/Examples/Tables.antt =====
-- Concrete runs of the virtual directories, the statistics and the scanner of legacy files.
use omni_blob.Base.{
  ◌≡◌, refl, true, some, List, [], ◌∷◌, map, arith, ◌==◌, keep_if, All, codes, text_eq, has_prefix,
  trim_prefix, has_byte, drop_while, split_on,
}
use omni_blob.FilePath.{base_name, dir_name}
use omni_blob.Entity.{BinaryFile}
use omni_blob.Repository.BinaryFiles.{Files}
use omni_blob.Repository.VirtualTree.{clean_prefix, get_virtual_directory, group_entries, entry_at}
use omni_blob.Repository.VirtualTree.Members.{node_at, node_list}
use omni_blob.Repository.VirtualTree.Listing.{
  nodes_of, Listing, get_virtual_directory-Listing, get_virtual_directory_complete,
}
use omni_blob.Repository.Statistics.{
  extension_of, module_key, same_month, get_module_stats, get_yearly_stats, get_monthly_stats,
}
use omni_blob.Repository.Statistics.Grouping.{group_rows}
use omni_blob.Repository.Statistics.Totals.{Tabulates, statistics-Tabulates}
use omni_blob.Service.Dashboard.{internal_error, get_analytics}
use omni_blob.Service.Dashboard.Summary.{get_analytics-fails}
use omni_blob.Scanner.{file, directory, Step, Table, row_fits, scanned_row, run_legacy_scanner}
use omni_blob.Scanner.Again.{VisitScanned, run_legacy_scanner-again}
use omni_blob.Examples.Data.{calendar, row}
use omni_blob.Examples.Orders.{bytewise}
use omni_blob.Examples.Sites.{machine, all_answered}

abbrev two_files : Files
two_files = row 1 ∷ record (row 2) { path = codes "paspor/2026/scan.txt" } ∷ []

get_virtual_directory-Listing_example :
    Listing bytewise
      (clean_prefix (codes "/paspor"))
      two_files
      (nodes_of (get_virtual_directory bytewise true (codes "/paspor") two_files))
unfolding clean_prefix trim_prefix has_prefix
get_virtual_directory-Listing_example =
    get_virtual_directory-Listing bytewise (codes "/paspor") two_files refl

get_virtual_directory_complete_example :
    keep_if
      (λ v. text_eq v.name (codes "2026"))
      (nodes_of (get_virtual_directory bytewise true (codes "/paspor") two_files))
    ≡ node_list (node_at (clean_prefix (codes "/paspor")) (codes "2026") two_files)
unfolding clean_prefix trim_prefix has_prefix has_byte group_entries text_eq entry_at split_on
get_virtual_directory_complete_example =
    get_virtual_directory_complete bytewise (codes "/paspor") (codes "2026") two_files refl refl
      refl (omega arith)

statistics-Tabulates_example :
    Tabulates text_eq module_key two_files (get_module_stats true two_files)
    × Tabulates
        (λ x y. x == y)
        (λ f. calendar.year f.create_date)
        two_files
        (get_yearly_stats calendar true two_files)
    × Tabulates same_month
        (λ f. (calendar.year f.create_date, calendar.month f.create_date))
        two_files
        (get_monthly_stats calendar true two_files)
statistics-Tabulates_example = statistics-Tabulates calendar two_files

abbrev dotted : BinaryFile
dotted = record (row 3) { file_name = codes "draft." }

get_analytics-fails_example :
    get_analytics machine all_answered (row 1 ∷ dotted ∷ []) ≡ internal_error
unfolding group_rows has_byte extension_of split_on
get_analytics-fails_example =
    get_analytics-fails machine all_answered (row 1 ∷ []) [] dotted (codes "draft") refl
      (omega arith)

abbrev walk : List Step
walk =
    (record { visit = directory; now = 5; exists_up = true; insert_up = true })
    ∷ (record {
      visit = file (some (codes "a/b.txt")) (some (3, 7));
      now = 5;
      exists_up = true;
      insert_up = true;
    })
    ∷ []

abbrev old_table : Table
old_table = record { rows = row 1 ∷ []; next_serial = 2 }

run_legacy_scanner-again_example :
    All (VisitScanned (run_legacy_scanner true walk old_table).0.rows) (map (λ s. s.visit) walk)
    × (run_legacy_scanner true walk (run_legacy_scanner true walk old_table).0
        ≡ ((run_legacy_scanner true walk old_table).0, 0))
unfolding row_fits scanned_row text_eq dir_name drop_while split_on base_name
run_legacy_scanner-again_example =
    run_legacy_scanner-again walk walk old_table ((refl, refl, tt), ((refl, refl, refl), tt))
      (omega arith, tt) (refl, (refl, tt)) refl
