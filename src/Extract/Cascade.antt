-- ===== src/Extract/Cascade.antt =====
-- The cascade of `extract_from_html` of src/util/extract.rs: where the content that is served comes
-- from, and how much of it there is.
use mathlib.Core.Option
use serica.Prelude.{
  ℕ, ◌*◌, ◌≤◌, ◌<◌, ◌≡◌, refl, ◌≢◌, inl, inr, Bool, true, false, ◌&&◌, Option, none, some, arith,
  ltb, leb, if◌then◌else◌, ltb→lt, leb→le, Bool-cases, is_empty, Text, len,
}
use serica.Config.{ExtractConfig}
use serica.Extract.{
  ExtractMethod, markdown, text_fallback, whole_doc_fallback, ExtractResult, HtmlLib, Options,
  Selection, chosen_len, is_healthy, select, audit_needed, threshold, audit, patched, outcome,
  truncate_at_char_boundary, whole_doc_text, extract_from_html_impl,
}
use serica.Extract.Truncate.{IsLongestPrefix, truncate-IsLongestPrefix}

module _ (lib : HtmlLib) (html : Text) (raw_bytes : ℕ) (options : Options) (config : ExtractConfig)
    (prune : Bool) where
  -- What the extraction selects of the patched page.
  abbrev pub selection : Selection
  selection = select lib options (lib.extract_with_options (patched lib prune html) options)

  -- The selection is too small a part of the page's text, and that text is worth serving.
  pub record IsGutted : Type 0 where
    pub audited : audit_needed lib config raw_bytes selection ≡ true
    pub small : 100 * chosen_len selection < threshold lib raw_bytes * len (whole_doc_text lib html)
    pub worth : 200 ≤ len (whole_doc_text lib html)

  -- Where the content comes from, by the method that the outcome names.
  abbrev pub Source : ExtractMethod → Text → Type 0
  Source whole_doc_fallback content = (content ≡ whole_doc_text lib html) × IsGutted
  Source method content = (selection.chosen ≡ some content) × (selection.method ≡ method)

  -- Content that is served is the longest beginning within `max_content_chars` of its source.
  abbrev pub Served : ExtractMethod → Option Text → Type 0
  Served method none = Unit
  Served method (some content) =
      (source : Text) × Source method source
      × IsLongestPrefix source content config.max_content_chars

  select_method : (r : Option ExtractResult) → (select lib options r).method ≢ whole_doc_fallback
  unfolding select
  select_method none = λ e. cc e
  select_method (some extract) =
      elim (Bool-cases (options.output_markdown && is_healthy extract.content_markdown)) [
        | inl healthy ↦ rw healthy (λ e. cc e)
        | inr empty ↦ rw empty (λ e. cc e)
      ]

  kept :
      (m : ExtractMethod) (chosen : Option Text)
      → selection.method ≡ m
      → selection.chosen ≡ chosen
      → Served m (Option.map (λ c. truncate_at_char_boundary c config.max_content_chars) chosen)
  kept m none em ec = tt
  kept markdown (some c) em ec = (c, (ec, em), truncate-IsLongestPrefix c config.max_content_chars)
  kept text_fallback (some c) em ec =
      (c, (ec, em), truncate-IsLongestPrefix c config.max_content_chars)
  kept whole_doc_fallback (some c) em ec = absurd (select_method _ em)

  finish :
      (audited : Bool)
      → audit_needed lib config raw_bytes selection ≡ audited
      → let o = outcome lib config (
          if audited
          then audit lib raw_bytes (whole_doc_text lib html) selection
          else (selection, none)) in
        Served o.method o.content
  unfolding outcome audit
  finish false ea = kept selection.method selection.chosen refl refl
  finish true ea = elim (Bool-cases (is_empty (whole_doc_text lib html))) [
    | inl blank ↦ rw blank (kept selection.method selection.chosen refl refl)
    | inr shown ↦
        rw shown
          (elim (Bool-cases (
            ltb (100 * chosen_len selection)
              (threshold lib raw_bytes * len (whole_doc_text lib html)))) [
                | inr enough ↦ rw enough (kept selection.method selection.chosen refl refl)
                | inl small ↦
                    rw small (elim (Bool-cases (leb 200 (len (whole_doc_text lib html)))) [
                      | inr short ↦ rw short tt
                      | inl long ↦ rw long (
                        whole_doc_text lib html,
                        (
                          refl,
                          record {
                            audited = ea;
                            small = ltb→lt _ _ small;
                            worth = leb→le _ _ long;
                          },
                        ),
                        truncate-IsLongestPrefix (whole_doc_text lib html) config.max_content_chars,
                      )
                    ])
              ])
  ]

  -- Content that is served under the method `Markdown` or `TextFallback` is what the extraction
  -- selected under that method, and under `WholeDocFallback` it is the page's text, served only where
  -- the audit ran, the selection was below the threshold and that text has 200 bytes at least; either
  -- way it is cut to its longest beginning, in whole characters, within `max_content_chars` bytes.
  pub extract-Served :
      Served
        (extract_from_html_impl lib html raw_bytes options config prune).method
        (extract_from_html_impl lib html raw_bytes options config prune).content
  unfolding extract_from_html_impl
  extract-Served = finish (audit_needed lib config raw_bytes selection) refl

  not_audited :
      audit_needed lib config raw_bytes selection ≡ false
      → extract_from_html_impl lib html raw_bytes options config prune
        ≡ outcome lib config (selection, none)
  unfolding extract_from_html_impl
  not_audited e = rw e

  no_audit :
      raw_bytes < 512 * 1024
      → selection.method ≡ markdown
      → 1500 ≤ chosen_len selection
      → audit_needed lib config raw_bytes selection ≡ false
  unfolding audit_needed
  no_audit small is_md enough = rw is_md (ground arith)

  -- On a page below 512 KiB, markdown of 1500 bytes and more is never replaced, however much other
  -- text the page has.
  pub healthy_markdown_kept :
      raw_bytes < 512 * 1024
      → selection.method ≡ markdown
      → 1500 ≤ chosen_len selection
      → extract_from_html_impl lib html raw_bytes options config prune
        ≡ outcome lib config (selection, none)
  healthy_markdown_kept small is_md enough = not_audited (no_audit small is_md enough)
