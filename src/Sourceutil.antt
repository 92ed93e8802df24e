-- ===== src/Sourceutil.antt =====
-- internal/extract/sourceutil: byte intervals, spans with line numbers, and line windows.
pub mod Intervals
pub mod SourceMap
pub mod Chunks
