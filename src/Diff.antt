-- ===== src/Diff.antt =====
-- internal/diff/diff.go: values, noise, response diff, write-set diff and the verdict.
pub mod Value
pub mod Keys
pub mod Json
pub mod Canonical
pub mod Path
pub mod Strip
pub mod SortArrays
pub mod Response
pub mod Writeset
pub mod Verdict
pub mod Blind
