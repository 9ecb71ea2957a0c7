-- ===== src/Html.antt =====
-- The byte scanners that src/util/codespan_fixup.rs and src/util/codeblock_linebreaks.rs share in
-- kind: `Tag` has their tests for tags, `Rewrite` the shape of their main loops.
pub mod Tag
pub mod Rewrite
