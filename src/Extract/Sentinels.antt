-- ===== src/Extract/Sentinels.antt =====
-- The sentinel of src/util/codespan_fixup.rs in what src/util/extract.rs serves.
use serica.Prelude.{
  ℕ, ◌≡◌, sym, inl, inr, Bool, ◌&&◌, Option, none, some, [], ◌∷◌, ◌++◌, Bool-cases, is_empty, All,
  Text, trim,
}
use mathlib.Core.Path.{subst}
use serica.Config.{ExtractConfig}
use serica.Codespan.{restore_whitespace_placeholders}
use serica.Codespan.Restore.{NotSentinel, restore-NotSentinel}
use serica.Extract.{
  ExtractMethod, markdown, text_fallback, whole_doc_fallback, ExtractResult, HtmlLib, Options,
  patched, is_healthy, unless_blank, select, whole_doc_text, extract_from_html_impl,
}
use serica.Extract.Cascade.{Source, Served, selection, extract-Served}

abbrev AllOf : Option Text → Type 0
AllOf none = Unit
AllOf (some s) = All NotSentinel s

All-append : (s t : Text) → All NotSentinel (s ++ t) → All NotSentinel s
All-append [] t h = tt
All-append (c ∷ s) t h = (h.0, All-append s t h.1)

unless_blank-AllOf : (s : Text) → All NotSentinel s → AllOf (unless_blank s)
unfolding unless_blank
unless_blank-AllOf s h = elim (Bool-cases (is_empty (trim s))) [
  | inl blank ↦ rw blank tt
  | inr filled ↦ rw filled h
]

select-AllOf :
    (lib : HtmlLib) (options : Options) (r : Option ExtractResult)
    → AllOf (select lib options r).chosen
unfolding select
select-AllOf lib options none = tt
select-AllOf lib options (some extract) =
    elim (Bool-cases (options.output_markdown && is_healthy extract.content_markdown)) [
      | inl healthy ↦ rw healthy (restore-NotSentinel _)
      | inr empty ↦ rw empty (
          unless_blank-AllOf (restore_whitespace_placeholders extract.content_text)
            (restore-NotSentinel extract.content_text))
    ]

module _ (lib : HtmlLib) (html : Text) (raw_bytes : ℕ) (options : Options) (config : ExtractConfig)
    (prune : Bool) where
  selected :
      (source : Text)
      → (selection lib html raw_bytes options config prune).chosen ≡ some source
      → All NotSentinel source
  selected source e =
      subst AllOf e
        (select-AllOf lib options (lib.extract_with_options (patched lib prune html) options))

  Source-NotSentinel :
      (method : ExtractMethod) (source : Text)
      → All NotSentinel (whole_doc_text lib html)
      → Source lib html raw_bytes options config prune method source
      → All NotSentinel source
  Source-NotSentinel whole_doc_fallback source page h = subst (All NotSentinel) (sym h.0) page
  Source-NotSentinel markdown source page h = selected source h.0
  Source-NotSentinel text_fallback source page h = selected source h.0

  Served-NotSentinel :
      (method : ExtractMethod) (content : Option Text)
      → All NotSentinel (whole_doc_text lib html)
      → Served lib html raw_bytes options config prune method content
      → AllOf content
  Served-NotSentinel method none page h = tt
  Served-NotSentinel method (some content) page (source, from, cut) =
      All-append content cut.rest
        (subst (All NotSentinel) cut.whole (Source-NotSentinel method source page from))

  -- The content that is served has no sentinel, whichever source it is of and wherever it is cut, if
  -- the page's own text has none: of those that the repair of the code spans has put into the page,
  -- none is left.
  pub extract-NotSentinel :
      (content : Text)
      → All NotSentinel (whole_doc_text lib html)
      → (extract_from_html_impl lib html raw_bytes options config prune).content ≡ some content
      → All NotSentinel content
  extract-NotSentinel content page h =
      subst AllOf h
        (Served-NotSentinel _ _ page (extract-Served lib html raw_bytes options config prune))
