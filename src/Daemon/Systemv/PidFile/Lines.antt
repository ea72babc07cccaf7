-- ===== src/Daemon/Systemv/PidFile/Lines.antt =====
-- The scan of a text whose lines are known in part.
use mathlib.Core.List.{reverse, reverse-append, reverse-reverse}
use cyberdaemon.Prelude.{
  ℕ, ◌+◌, ◌<◌, true, false, [], ◌∷◌, ◌++◌, ◌≡◌, ◌≢◌, refl, sym, ap, ◌∙◌, Bytes, Lacks, arith,
  length, length-append, leb, append_assoc, append-nil, All-append,
}
use cyberdaemon.Text.Search.{has_prefix}
use cyberdaemon.Text.Trim.{trim, trim_left, has_byte}
use cyberdaemon.Daemon.Systemv.PidFile.{Scan, found, max_line, drop_cr, at_line, scan_lines, quotes}

-- A text that does not end with a carriage return is left whole.
pub drop_cr-append : (s : Bytes) (c : ℕ) → c ≢ b'\r' → drop_cr (s ++ c ∷ []) ≡ s ++ c ∷ []
unfolding drop_cr
drop_cr-append [] c h = ground arith
drop_cr-append (b ∷ []) c h = ground arith
drop_cr-append (b ∷ d ∷ s) c h = ap (λ t. b ∷ t) (drop_cr-append (d ∷ s) c h)

-- A text without a line feed is added to the line.
pub scan_lines-append :
    (prefix t s line : Bytes)
    → Lacks b'\n' t
    → scan_lines prefix (t ++ s) line ≡ scan_lines prefix s (line ++ t)
unfolding scan_lines
scan_lines-append prefix [] s line h = rw append-nil
scan_lines-append prefix (c ∷ t) s line (h, hs) =
    ground (arith, scan_lines-append prefix t s (line ++ c ∷ []) hs, append_assoc line (c ∷ []) t)

short_line : (n : ℕ) → n < max_line → leb max_line n ≡ false
short_line n h = ground arith

at_line-pass :
    (prefix line : Bytes) (later : Scan)
    → length line < max_line
    → has_prefix (drop_cr line) prefix ≡ false
    → at_line prefix line later ≡ later
unfolding at_line
at_line-pass prefix line later short other = rw (short_line (length line) short, other)

at_line-found :
    (prefix line : Bytes) (later : Scan)
    → length line < max_line
    → has_prefix (drop_cr line) prefix ≡ true
    → at_line prefix line later ≡ found (drop_cr line)
unfolding at_line
at_line-found prefix line later short here = rw (short_line (length line) short, here)

-- A line that is not too long and lacks the prefix is passed over.
pub scan_lines-pass :
    (prefix t s line : Bytes)
    → Lacks b'\n' t
    → length (line ++ t) < max_line
    → has_prefix (drop_cr (line ++ t)) prefix ≡ false
    → scan_lines prefix (t ++ (b'\n' ∷ s)) line ≡ scan_lines prefix s []
scan_lines-pass prefix t s line h short other =
    scan_lines-append prefix t (b'\n' ∷ s) line h
    ∙ (unfold scan_lines in at_line-pass prefix (line ++ t) (scan_lines prefix s []) short other)

-- A line that is not too long and has the prefix ends the scan.
pub scan_lines-found :
    (prefix t s line : Bytes)
    → Lacks b'\n' t
    → length (line ++ t) < max_line
    → has_prefix (drop_cr (line ++ t)) prefix ≡ true
    → scan_lines prefix (t ++ (b'\n' ∷ s)) line ≡ found (drop_cr (line ++ t))
scan_lines-found prefix t s line h short here =
    scan_lines-append prefix t (b'\n' ∷ s) line h
    ∙ (unfold scan_lines in at_line-found prefix (line ++ t) (scan_lines prefix s []) short here)

trim_left-keep :
    (set : Bytes) (a : ℕ) (t : Bytes) → has_byte set a ≡ false → trim_left (a ∷ t) set ≡ a ∷ t
unfolding trim_left
trim_left-keep set a t h = rw h

trim_left-quote : (t : Bytes) → trim_left (b'\'' ∷ t) quotes ≡ trim_left t quotes
unfolding trim_left
trim_left-quote t = refl

reverse-last : (t : Bytes) (b : ℕ) → reverse (t ++ b ∷ []) ≡ b ∷ reverse t
reverse-last t b = reverse-append t (b ∷ [])

-- Quotes round a text that neither begins nor ends with one are taken off.
pub trim_quoted :
    (a b : ℕ) (s : Bytes)
    → has_byte quotes a ≡ false
    → has_byte quotes b ≡ false
    → trim (b'\'' ∷ ((a ∷ (s ++ b ∷ [])) ++ (b'\'' ∷ []))) quotes ≡ a ∷ (s ++ b ∷ [])
unfolding trim
trim_quoted a b s ha hb =
    let x : Bytes = a ∷ (s ++ b ∷ []) in
    let front : trim_left (b'\'' ∷ (x ++ (b'\'' ∷ []))) quotes ≡ x ++ (b'\'' ∷ []) =
      trim_left-quote (x ++ (b'\'' ∷ [])) ∙ trim_left-keep quotes a _ ha in
    let turned : reverse x ≡ b ∷ reverse (a ∷ s) = reverse-last (a ∷ s) b in
    let back : trim_left (reverse (x ++ (b'\'' ∷ []))) quotes ≡ reverse x =
      ap (λ t. trim_left t quotes) (reverse-last x b'\'')
      ∙ (trim_left-quote (reverse x)
          ∙ (ap (λ t. trim_left t quotes) turned
              ∙ (trim_left-keep quotes b (reverse (a ∷ s)) hb ∙ sym turned))) in
    ap (λ t. reverse (trim_left (reverse t) quotes)) front ∙ (ap reverse back ∙ reverse-reverse x)

-- A line that ends with a value and a quote.
module _ (prefix v s line : Bytes) (one_line : Lacks b'\n' v)
    (short : length line + length v < 65500) where
  quoted : Bytes
  quoted = v ++ (b'\'' ∷ [])

  quoted-Lacks : Lacks b'\n' quoted
  unfolding quoted
  quoted-Lacks = All-append _ v (b'\'' ∷ []) one_line (omega arith, tt)

  quoted_short : length (line ++ quoted) < max_line
  unfolding quoted
  quoted_short =
      omega (arith, length-append {0} line (v ++ (b'\'' ∷ [])), length-append {0} v (b'\'' ∷ []))

  quoted_end :
      scan_lines prefix (v ++ (b'\'' ∷ b'\n' ∷ s)) line
      ≡ scan_lines prefix ((v ++ (b'\'' ∷ [])) ++ (b'\n' ∷ s)) line
  quoted_end = ap (λ t. scan_lines prefix t line) (sym (append_assoc v (b'\'' ∷ []) (b'\n' ∷ s)))

  pub scan_lines-pass_quoted :
      has_prefix (drop_cr (line ++ (v ++ (b'\'' ∷ [])))) prefix ≡ false
      → scan_lines prefix (v ++ (b'\'' ∷ b'\n' ∷ s)) line ≡ scan_lines prefix s []
  unfolding quoted
  scan_lines-pass_quoted other =
      quoted_end ∙ scan_lines-pass prefix quoted s line quoted-Lacks quoted_short other

  pub scan_lines-found_quoted :
      has_prefix (line ++ (v ++ (b'\'' ∷ []))) prefix ≡ true
      → scan_lines prefix (v ++ (b'\'' ∷ b'\n' ∷ s)) line ≡ found (line ++ (v ++ (b'\'' ∷ [])))
  unfolding quoted
  scan_lines-found_quoted here =
      let kept : drop_cr (line ++ (v ++ (b'\'' ∷ []))) ≡ line ++ (v ++ (b'\'' ∷ [])) =
        ap drop_cr (sym (append_assoc line v (b'\'' ∷ [])))
        ∙ (drop_cr-append (line ++ v) b'\'' (omega arith) ∙ append_assoc line v (b'\'' ∷ [])) in
      quoted_end
      ∙ (scan_lines-found prefix quoted s line quoted-Lacks quoted_short
            (ap (λ t. has_prefix t prefix) kept ∙ here)
          ∙ ap found kept)
