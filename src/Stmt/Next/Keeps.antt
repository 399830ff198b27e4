-- ===== src/Stmt/Next/Keeps.antt =====
-- The invariant of the statement buffer, and that every round of the loop of `Next` keeps it.
use usql.Base.{
  ℕ, ◌+◌, ◌≤◌, ◌<◌, ◌≡◌, refl, Bool, true, false, ◌⊎◌, inl, inr, Option, none, some, List, [], ◌∷◌,
  arith, Runes, length, Bool-cases, ap, sym, ◌∙◌, take, drop, copy, length-append, length-copy,
  take-append-drop,
}
use usql.Stmt.Buffer.{Stmt, StmtOption, runes, apply_all, apply}
use usql.Stmt.Next.Cases.{round_rule, IsPlain}
use usql.Stmt.Next.Ends.{replaced_lem, grab_next}
use usql.Stmt.Next.{
  Unquoted, Round, move, break, in_string, in_comment, at_dollar, replaced, text_over, quoted_name,
  at_variable, at_escape, at_command, round, next,
}
use usql.Stmt.Rune.{Unicode}
use usql.Stmt.Scan.{grab}
use usql.Stmt.Variable.Bounds.{IsRead, read_var-IsRead}
use usql.Stmt.Variable.{Var, read_var}

abbrev IsQuote : ℕ → Type 0
IsQuote q = (q ≡ 0) ⊎ (q ≡ b'\'') ⊎ (q ≡ b'"') ⊎ (q ≡ b'$')

-- `rlen` and `Len` are the lengths of the slices; a string and a comment are not open at once; only the three
-- quotes open a string, and only a dollar string has a tag.
pub record IsValid (b : Stmt) : Type 0 where
  pub counted : b.rlen ≡ length b.r
  pub measured : b.len ≡ length (runes b.buf)
  pub one_mode : (b.quote ≡ 0) ⊎ (b.multiline_comment ≡ false)
  pub quotes : IsQuote b.quote
  pub tagged : (b.quote ≡ b'$') ⊎ (b.quote_dollar_tag ≡ [])

abbrev pub Keeps : Round → Type 0
Keeps (move b j) = IsValid b
Keeps (break b j cmd params) = IsValid b

length-text_over :
    (p : Option ℕ) (a : Runes) (buf : Option Runes)
    → length (runes (text_over p a buf)) ≡ length (runes buf)
unfolding text_over
length-text_over none a buf = refl
length-text_over (some p) a none = refl
length-text_over (some p) a (some s) = omega (
  arith,
  length-append (take p s) (copy (drop p s) a),
  length-copy (drop p s) a,
  ap length (take-append-drop p s),
  length-append (take p s) (drop p s),
)

replaced-IsValid :
    (b : Stmt) (v : Var) (z : Runes)
    → IsValid b
    → v.i ≤ v.end
    → v.end ≤ length b.r
    → IsValid (replaced b v z)
unfolding replaced
replaced-IsValid b v z ok h k = record {
  counted = (replaced_lem b v z h k).1;
  measured = ok.measured ∙ sym (length-text_over _ _ b.buf);
  one_mode = ok.one_mode;
  quotes = ok.quotes;
  tagged = ok.tagged;
}

module _ (b : Stmt) (i : ℕ) (ok : IsValid b) where
  in_string-Keeps : Keeps (in_string b i)
  unfolding in_string
  in_string-Keeps = ground arith

  in_comment-Keeps : b.quote ≡ 0 → Keeps (in_comment b i)
  unfolding in_comment
  in_comment-Keeps q = ground arith

  at_dollar-Keeps : IsPlain b → Keeps (at_dollar b i)
  unfolding at_dollar
  at_dollar-Keeps p = ground arith

  at_command-Keeps : Keeps (at_command b i)
  unfolding at_command
  at_command-Keeps = record {
    counted = refl;
    measured = ok.measured ∙ sym (length-text_over b.line_at _ b.buf);
    one_mode = ok.one_mode;
    quotes = ok.quotes;
    tagged = ok.tagged;
  }

  at_escape-Keeps : (c : ℕ) → i + 1 < b.rlen → Keeps (at_escape b i c)
  unfolding at_escape
  at_escape-Keeps c next =
      replaced-IsValid b _ (c ∷ []) ok (omega arith) (omega (arith, ok.counted))

  at_variable-Keeps :
      (unquote : Runes → Bool → Unquoted) (o : Option Var)
      → ((v : Var) → o ≡ some v → IsRead b.r i b.rlen v)
      → Keeps (at_variable unquote b i o)
  unfolding at_variable
  at_variable-Keeps unquote none is_read = ok
  at_variable-Keeps unquote (some v) is_read =
      let f = is_read v refl in
      let w : Var = record v { defined = true } in
      let known =
        replaced-IsValid b w (unquote (quoted_name v) true).text ok (omega (arith, f.starts, f.two))
          (omega (arith, f.upto, ok.counted)) in
      elim (Bool-cases (unquote (quoted_name v) true).ok) [
        | inl yes! ↦ rw yes! known
        | inr no! ↦ rw no! (ground arith)
      ]

pub new-IsValid : (opts : List StmtOption) (b : Stmt) → IsValid b → IsValid (apply_all opts b)
unfolding apply_all
new-IsValid [] b ok = ok
new-IsValid (o ∷ opts) b ok = new-IsValid opts (apply o b) (unfold apply in applied o)
  where
    applied : (p : StmtOption) → IsValid (apply p b)
    applied (StmtOption.with_allow_dollar on) = ground arith
    applied (StmtOption.with_allow_multiline_comments on) = ground arith
    applied (StmtOption.with_allow_c_comments on) = ground arith
    applied (StmtOption.with_allow_hash_comments on) = ground arith

pub none_is_not_some {ℓ} : {A : Type ℓ} (a : A) → ◌≡◌ {A = Option A} none (some a) → ⊥
none_is_not_some a e = cc

module _ ⦃u : Unicode⦄ (unquote : Runes → Bool → Unquoted) where
  pub round-Keeps : (b : Stmt) (i : ℕ) → IsValid b → i < b.rlen → Keeps (round unquote b i)
  round-Keeps b i ok inside =
      let ahead = grab_next b.r (i + 1) b.rlen in
      round_rule Keeps unquote b i (λ _. in_string-Keeps b i ok) (λ q _. in_comment-Keeps b i ok q)
        (λ p c. ground arith) (λ p _ _. at_dollar-Keeps b i ok p) (λ _. ok) (λ p _ _. ground arith)
        (λ _ _.
          at_variable-Keeps b i ok unquote (read_var b.r i b.rlen)
            (λ v. read_var-IsRead b.r i b.rlen v inside))
        (λ _. ground arith) (λ _. ground arith) (λ _. ok)
        (λ _ _ n. at_escape-Keeps b i ok (grab b.r (i + 1) b.rlen) (ahead n))
        (λ _ _ _. at_command-Keeps b i ok) (λ _ _ _. ground arith)
