-- ===== src/Export/Sink.antt =====
-- src/adapters/storage/in-memory-export-sink.ts
use cubeforge_api.Prelude.{Option, none, some, List, Text, if◌then◌else◌, includes}
use cubeforge_api.Export.Rows.{ExportedColumn, ExportedRow}
use cubeforge_api.Prelude.Dict.{Dict, put}
use cubeforge_api.Errors.{Exec, ExportFailureReason, Result, ok, err, thrown, export_failed}

-- `ColumnarFile`, less the key that it is stored under.
pub record ColumnarFile : Type 0 where
  pub columns : List ExportedColumn
  pub rows : List ExportedRow

-- `failing` are the keys that refuse a write; `refusal` is what `reachable` answers.
pub record ExportSink : Type 0 where
  pub written : Dict ColumnarFile
  pub failing : List Text
  pub refusal : Option ExportFailureReason

unfoldable pub put_file : Text → ColumnarFile → Exec ExportSink (Unit {0})
put_file key file s =
    if includes s.failing key
    then (err thrown, s)
    else (ok tt, record s { written = put s.written key file })

abbrev refused_by : Option ExportFailureReason → Result (Unit {0})
refused_by none = ok tt
refused_by (some reason) = err (export_failed reason)

unfoldable pub reachable : ExportSink → Result (Unit {0})
reachable s = refused_by s.refusal
