-- ===== src/Codespan/Tests.antt =====
-- Runs of src/util/codespan_fixup.rs.
use serica.Prelude.{◌≡◌, refl, ◌++◌, ◌∷◌, text}
use serica.Codespan.Spacers.{Respaced, preserve-Respaced}
use serica.Codespan.{
  whitespace_sentinel, preserve_whitespace_only_spans, restore_whitespace_placeholders,
}

spacer_becomes_sentinel :
    preserve_whitespace_only_spans (text "a<SPAN class=\"x>y\"> \t</span >b <spanner> </span>")
    ≡ text "a<SPAN class=\"x>y\">" ++ whitespace_sentinel ∷ text "</span >b <spanner> </span>"
unfolding preserve_whitespace_only_spans
spacer_becomes_sentinel = refl

restored :
    restore_whitespace_placeholders (text "function " ++ whitespace_sentinel ∷ text " fn")
    ≡ text "function fn"
unfolding restore_whitespace_placeholders
restored = refl

preserve-Respaced_example :
    Respaced (text "a<span> </span>b") (preserve_whitespace_only_spans (text "a<span> </span>b"))
preserve-Respaced_example = preserve-Respaced (text "a<span> </span>b")
