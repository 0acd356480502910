-- ===== src/Export.antt =====
-- src/domain/export, src/application/export, and the doubles of the export's stores.
pub mod Window
pub mod Cursor
pub mod Partition
pub mod Rows
pub mod Report
pub mod Store
pub mod Sink
pub mod ExportTenant
pub mod RunExport
