-- ===== src/Codeblock/Tests.antt =====
-- Runs of src/util/codeblock_linebreaks.rs.
use serica.Prelude.{◌≡◌, refl, text}
use serica.Prelude.{false}
use serica.Codeblock.Breaks.{Rebroken, preserve-Rebroken}
use serica.Codeblock.{preserve_code_block_line_breaks}

lines_are_broken :
    preserve_code_block_line_breaks
      (text "<div>a</div>b<pre><div>a</div><DIV>b</div >c</div></pre><div>a</div>b")
    ≡ text "<div>a</div>b<pre><div>a</div>\n<DIV>b</div >\nc</div></pre><div>a</div>b"
unfolding preserve_code_block_line_breaks
lines_are_broken = refl

preserve-Rebroken_example :
    Rebroken false
      (text "<pre><p>a</p>b</pre>")
      (preserve_code_block_line_breaks (text "<pre><p>a</p>b</pre>"))
preserve-Rebroken_example = preserve-Rebroken (text "<pre><p>a</p>b</pre>")
