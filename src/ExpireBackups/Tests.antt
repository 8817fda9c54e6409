-- ===== src/ExpireBackups/Tests.antt =====
-- `process_backups` of contrib/expire_backups.py with three backups, one of them new, and two ranges.
use s3ql.Prelude.{◌<◌, refl, List, [], ◌∷◌, arith}
use s3ql.Prelude.Sql.{delete}
use s3ql.BlockCache.State.{member}
use s3ql.ExpireBackups.{
  Backup, update_state, add_backups, new_backups, ranges_from, process_backups,
}
use s3ql.ExpireBackups.Kept.{in_count, process_backups_lem}

abbrev old : List Backup
old = (record { name = 1; age = 3 }) ∷ (record { name = 2; age = 1 }) ∷ []

process_backups_lem_example : 0 < in_count 1 5 (process_backups (1 ∷ 2 ∷ 3 ∷ []) old (1 ∷ 5 ∷ [])).1
unfolding update_state add_backups new_backups member ranges_from delete
process_backups_lem_example =
    process_backups_lem (1 ∷ 2 ∷ 3 ∷ []) old (1 ∷ 5 ∷ []) 1 1 5 refl (omega arith)
