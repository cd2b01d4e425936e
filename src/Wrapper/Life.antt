-- ===== src/Wrapper/Life.antt =====
-- The life of a wrapper of src/marpaWrapper.c: any sequence of its operations.
pub mod Frames
pub mod Reports
pub mod Sound
pub mod Additions
pub mod Numbered
pub mod Reading
pub mod Runs
