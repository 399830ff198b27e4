-- ===== src/Stmt/Next/Kept.antt =====
-- The append at the end of `Next` leaves the flags of the buffer and the length of its line as they are.
use usql.Base.{if_rule, ℕ, ◌≡◌, refl, ltb, Option, none, some, [], Runes, min}
use usql.Stmt.Buffer.{Stmt, append, append_to, append_shared, filled_shared}
use usql.Stmt.Next.{Parsed, lineend, append_cut, append_line, append_parsed}
use usql.Stmt.Rune.{Unicode}
use usql.Stmt.Scan.{slice, is_empty_line}

-- What the append at the end of `Next` leaves as it is.
pub record SameFlags (x b : Stmt) : Type 0 where
  pub same_ready : x.ready ≡ b.ready
  pub same_quote : x.quote ≡ b.quote
  pub same_comment : x.multiline_comment ≡ b.multiline_comment
  pub same_balance : x.balance_count ≡ b.balance_count
  pub same_rlen : x.rlen ≡ b.rlen

same_append_to :
    (o : Option Runes) (r : Runes) (b : Stmt) → SameFlags (append_to o [] r lineend b) b
unfolding append_to
same_append_to none r b = record {
  same_ready = refl;
  same_quote = refl;
  same_comment = refl;
  same_balance = refl;
  same_rlen = refl;
}
same_append_to (some s) r b = record {
  same_ready = refl;
  same_quote = refl;
  same_comment = refl;
  same_balance = refl;
  same_rlen = refl;
}

with_place : (x b : Stmt) (p : Option ℕ) → SameFlags x b → SameFlags (record x { line_at = p }) b
with_place x b p h = record {
  same_ready = h.same_ready;
  same_quote = h.same_quote;
  same_comment = h.same_comment;
  same_balance = h.same_balance;
  same_rlen = h.same_rlen;
}

same_flags : (b : Stmt) → SameFlags b b
same_flags b = record {
  same_ready = refl;
  same_quote = refl;
  same_comment = refl;
  same_balance = refl;
  same_rlen = refl;
}

append_shared-SameFlags :
    (s : Runes) (p st i : ℕ) (b : Stmt) → SameFlags (append_shared s p st i lineend b) b
unfolding append_shared
append_shared-SameFlags s p st i b =
    if_rule (λ (x : Stmt). SameFlags x b) (ltb _ _)
      (λ _. with_place _ b none (same_append_to (some s) (slice b.r st i) b))
      (λ _.
        unfold filled_shared in
        record {
          same_ready = refl;
          same_quote = refl;
          same_comment = refl;
          same_balance = refl;
          same_rlen = refl;
        })

module _ ⦃u : Unicode⦄ where
  append_cut-kept :
      (buf : Option Runes) (p : Option ℕ) (st i : ℕ) (b : Stmt)
      → SameFlags (append_cut buf p st i b) b
  unfolding append_cut append
  append_cut-kept none p st i b = with_place _ b _ (same_append_to b.buf (slice b.r st i) b)
  append_cut-kept (some s) none st i b = same_append_to b.buf (slice b.r st i) b
  append_cut-kept (some s) (some p) st i b = with_place _ b _ (append_shared-SameFlags s p st i b)

  pub appended-kept : (p : Parsed) → SameFlags (append_parsed p) p.stmt
  unfolding append_parsed
  appended-kept p =
      let i = min p.i p.stmt.rlen in
      if_rule (λ (b : Stmt). SameFlags b p.stmt) (append_line p (is_empty_line p.stmt.r 0 i))
        (λ _. append_cut-kept p.stmt.buf p.stmt.line_at _ i p.stmt)
        (λ _. with_place _ p.stmt _ (same_flags p.stmt))
