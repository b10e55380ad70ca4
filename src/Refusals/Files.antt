-- ===== src/Refusals/Files.antt =====
-- src/kb/file_refusals.py: the refusals of the directories and files that an operator names.
use shopsystem_kb.Base.{String}
use shopsystem_kb.Requests.{Fault}

unfoldable pub not_an_import_directory : Fault
not_an_import_directory = record { artifact = ""; place = ""; rule = "root" }

unfoldable pub not_an_export_directory : Fault
not_an_export_directory = record { artifact = ""; place = ""; rule = "root" }

unfoldable pub export_would_overwrite : Fault
export_would_overwrite = record { artifact = ""; place = ""; rule = "root" }

unfoldable pub backup_would_overwrite : Fault
backup_would_overwrite = record { artifact = ""; place = ""; rule = "root" }

unfoldable pub backup_cannot_be_written : Fault
backup_cannot_be_written = record { artifact = ""; place = ""; rule = "root" }

unfoldable pub unreadable_file : String → Fault
unreadable_file file = record { artifact = file; place = ""; rule = "unreadable" }

unfoldable pub not_canonical : String → Fault
not_canonical file = record { artifact = file; place = ""; rule = "content" }

unfoldable pub no_type_offered : String → Fault
no_type_offered file = record { artifact = file; place = ""; rule = "kind" }

unfoldable pub no_version_offered : String → Fault
no_version_offered file = record { artifact = file; place = ""; rule = "version" }

unfoldable pub differs : String → Fault
differs file = record { artifact = file; place = ""; rule = "differs" }

unfoldable pub check_failed : Fault
check_failed = record { artifact = ""; place = ""; rule = "content" }

unfoldable pub differing : Fault
differing = record { artifact = ""; place = ""; rule = "differs" }

unfoldable pub nothing_lands : Fault
nothing_lands = record { artifact = ""; place = ""; rule = "operations" }

unfoldable pub not_a_backup : Fault
not_a_backup = record { artifact = ""; place = ""; rule = "unreadable" }

unfoldable pub backup_by_earlier_kb : Fault
backup_by_earlier_kb = record { artifact = ""; place = ""; rule = "unreadable" }

unfoldable pub backup_by_later_kb : Fault
backup_by_later_kb = record { artifact = ""; place = ""; rule = "unreadable" }
