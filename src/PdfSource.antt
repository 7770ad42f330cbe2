-- ===== src/PdfSource.antt =====
-- pdfsource: a document that is extracted from a PDF by a mapping, with no text of its own.
pub mod Run
pub mod Pages
pub mod Read
pub mod Json
pub mod Select
pub mod Resolve
pub mod Missing
pub mod Extract
mod Tests
