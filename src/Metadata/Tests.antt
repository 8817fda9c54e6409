-- ===== src/Metadata/Tests.antt =====
-- `cycle_metadata` of src/s3ql/metadata.py where two copies are kept, the second of which is not there.
use s3ql.Prelude.{zero, suc, ◌≡◌, refl, true, none, some}
use s3ql.Prelude.Effect.{returned}
use s3ql.Metadata.{Key, current, fresh, bak, Backend, cycle_metadata}
use s3ql.Metadata.Cycle.{rotated, cycle_metadata_lem}

abbrev stored : Backend
stored fresh = some 9
stored current = some 8
stored (bak zero) = some 7
stored (bak (suc i)) = none

cycle_metadata_lem_example :
    let (r, after) = cycle_metadata true 2 stored in
    (r ≡ returned tt) × ((k : Key) → after k ≡ rotated true 2 stored k)
cycle_metadata_lem_example = cycle_metadata_lem true 2 9 stored refl
