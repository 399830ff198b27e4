-- ===== src/Stmt/Next/Appended.antt =====
-- The append at the end of `Next` keeps the buffer valid, also where the text and the line share an array.
use mathlib.Core.Path.{subst}
use usql.Base.{
  if_rule, ℕ, ◌≡◌, refl, sym, ◌∙◌, Option, none, some, [], arith, Runes, length, ltb, min, ap, ◌+◌,
  ◌-◌, ◌++◌, take, drop, copy, length-append, length-copy, length-take, length-drop, ltb→le,
}
use usql.Stmt.Buffer.Append.{append_lem, append_to_lem}
use usql.Stmt.Buffer.{
  Stmt, append, append_to, append_shared, shared_array, shared_text, filled_shared, runes,
}
use usql.Stmt.Next.{Parsed, lineend, append_line, append_cut, append_parsed}
use usql.Stmt.Rune.{Unicode}
use usql.Stmt.Splice.Refines.{length-zeros}
use usql.Stmt.Splice.{copy_at, zeros}
use usql.Stmt.Scan.{slice, is_empty_line}
use usql.Stmt.Next.Keeps.{IsValid}

moved-IsValid : (p : Option ℕ) (b : Stmt) → IsValid b → IsValid (record b { line_at = p })
moved-IsValid p b ok = record {
  counted = ok.counted;
  measured = ok.measured;
  one_mode = ok.one_mode;
  quotes = ok.quotes;
  tagged = ok.tagged;
}

appended-IsValid : (spare r sep : Runes) (b : Stmt) → IsValid b → IsValid (append spare r sep b)
appended-IsValid spare r sep b ok =
    subst IsValid (sym (append_lem spare r sep b ok.measured)) (record {
      counted = ok.counted;
      measured = refl;
      one_mode = ok.one_mode;
      quotes = ok.quotes;
      tagged = ok.tagged;
    })

appended_to-IsValid :
    (s spare r sep : Runes) (b : Stmt)
    → b.len ≡ length s
    → IsValid b
    → IsValid (append_to (some s) spare r sep b)
appended_to-IsValid s spare r sep b h ok =
    subst IsValid (sym (append_to_lem (some s) spare r sep b h)) (record {
      counted = ok.counted;
      measured = refl;
      one_mode = ok.one_mode;
      quotes = ok.quotes;
      tagged = ok.tagged;
    })

length-copy_at : (x : Runes) (i : ℕ) (s : Runes) → length (copy_at x i s) ≡ length x
unfolding copy_at
length-copy_at x i s = omega (
  arith,
  length-append (take i x) (copy (drop i x) s),
  length-copy (drop i x) s,
  length-take i x,
  length-drop i x,
)

length-shared_array :
    (s : Runes) (p : ℕ) (r rest : Runes)
    → length (shared_array s p r rest) ≡ p + (length r + length rest)
length-shared_array s p r rest = omega (
  arith,
  length-append (take p s) (zeros (p - length s) ++ (r ++ rest)),
  length-append (zeros (p - length s)) (r ++ rest),
  length-append r rest,
  length-take p s,
  length-zeros (p - length s),
)

length-shared_text :
    (x : Runes) (blen p st i : ℕ) (sep : Runes) → length (shared_text x blen p st i sep) ≡ length x
unfolding shared_text
length-shared_text x blen p st i sep =
    length-copy_at (copy_at x blen sep) (blen + length sep) _ ∙ length-copy_at x blen sep

append_shared-IsValid :
    (s : Runes) (p st i : ℕ) (sep : Runes) (b : Stmt)
    → b.len ≡ length s
    → IsValid b
    → IsValid (append_shared s p st i sep b)
unfolding append_shared
append_shared-IsValid s p st i sep b h ok =
    let x = shared_array s p b.r b.rest in
    let r = slice b.r st i in
    let tlen = b.len + length r + length sep in
    let y = shared_text x b.len p st i sep in
    let long = length-shared_text x b.len p st i sep ∙ length-shared_array s p b.r b.rest in
    if_rule IsValid (ltb (length x) tlen)
      (λ _. moved-IsValid none _ (appended_to-IsValid s [] r sep b h ok))
      (λ fits.
        unfold filled_shared in
        record {
          counted =
              omega (arith, ok.counted, long, length-take (length b.r) (drop p y), length-drop p y);
          measured = omega (
            arith,
            ltb→le (length x) tlen fits,
            length-shared_text x b.len p st i sep,
            length-take tlen y,
          );
          one_mode = ok.one_mode;
          quotes = ok.quotes;
          tagged = ok.tagged;
        })

module _ ⦃u : Unicode⦄ where
  append_cut-IsValid :
      (buf : Option Runes) (p : Option ℕ) (st i : ℕ) (b : Stmt)
      → b.buf ≡ buf
      → IsValid b
      → IsValid (append_cut buf p st i b)
  unfolding append_cut
  append_cut-IsValid none p st i b e ok =
      let r = slice b.r st i in moved-IsValid _ _ (appended-IsValid [] r lineend b ok)
  append_cut-IsValid (some s) none st i b e ok = appended-IsValid [] (slice b.r st i) lineend b ok
  append_cut-IsValid (some s) (some p) st i b e ok =
      moved-IsValid _ _
        (append_shared-IsValid s p st i lineend b (ok.measured ∙ ap (λ o. length (runes o)) e) ok)

  pub parsed-IsValid : (p : Parsed) → IsValid p.stmt → IsValid (append_parsed p)
  unfolding append_parsed
  parsed-IsValid p ok =
      let i = min p.i p.stmt.rlen in
      if_rule IsValid (append_line p (is_empty_line p.stmt.r 0 i))
        (λ _. append_cut-IsValid p.stmt.buf p.stmt.line_at _ i p.stmt refl ok)
        (λ _. moved-IsValid _ p.stmt ok)
