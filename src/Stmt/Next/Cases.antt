-- ===== src/Stmt/Next/Cases.antt =====
-- To prove something of a round of the loop of `Next`, prove it of each branch.
use usql.Base.{
  if_rule, ℕ, ◌+◌, ◌-◌, ◌≡◌, ◌≢◌, Bool, true, false, not, ◌&&◌, ◌||◌, ◌⊎◌, ◌==◌, arith, Runes,
  ==_iff, [],
}
use usql.Stmt.Buffer.{Stmt}
use usql.Stmt.Next.{
  Unquoted, Round, move, break, in_string, in_comment, at_dollar, at_variable, at_escape,
  at_command, round,
}
use usql.Stmt.Rune.{Unicode}
use usql.Stmt.Scan.{grab, rune_at}
use usql.Stmt.Variable.{read_var}

-- What the tests of the branches say.
not_eq : (a b : ℕ) → not (a == b) ≡ true → a ≢ b
not_eq a b h = ground arith

not_ne : (a b : ℕ) → not (a == b) ≡ false → a ≡ b
not_ne a b h = ground arith

either : (c a b : ℕ) → (c == a || c == b) ≡ true → (c ≡ a) ⊎ (c ≡ b)
either c a b h = ground arith

both : (t : Bool) (c a : ℕ) → (t && c == a) ≡ true → (t ≡ true) × (c ≡ a)
both t c a h = ground arith

three : (t : Bool) (c a n b : ℕ) → (t && c == a && n == b) ≡ true → (t ≡ true) × (n ≡ b)
three t c a n b h = ground arith

first : (c a : ℕ) (t : Bool) → (c == a && t) ≡ true → c ≡ a
first c a t h = ground arith

escaped :
    (c n : ℕ) → (c == b'\\' && (n == b'\\' || n == b';' || n == b':')) ≡ true → (n == 0) ≡ false
escaped c n h = ground arith

-- No string and no comment is open.
pub record IsPlain (b : Stmt) : Type 0 where
  pub unquoted : b.quote ≡ 0
  pub code : b.multiline_comment ≡ false

module _ ⦃u : Unicode⦄ (P : Round → Type 0) (unquote : Runes → Bool → Unquoted) (b : Stmt)
    (i : ℕ) where
  pub round_rule :
      (b.quote ≢ 0 → P (in_string b i))
      → (b.quote ≡ 0 → b.multiline_comment ≡ true → P (in_comment b i))
      → (IsPlain b
          → (rune_at b.r i ≡ b'\'') ⊎ (rune_at b.r i ≡ b'"')
          → P (move (record b { quote = rune_at b.r i }) (i + 1)))
      → (IsPlain b → b.allow_dollar ≡ true → rune_at b.r i ≡ b'$' → P (at_dollar b i))
      → (IsPlain b → P (move b (b.rlen + 1)))
      → (IsPlain b
          → b.allow_multiline_comments ≡ true
          → grab b.r (i + 1) b.rlen ≡ b'*'
          → P (move (record b { multiline_comment = true }) (i + 2)))
      → (IsPlain b → rune_at b.r i ≡ b':' → P (at_variable unquote b i (read_var b.r i b.rlen)))
      → (IsPlain b → P (move (record b { balance_count = b.balance_count + 1 }) (i + 1)))
      → (IsPlain b → P (move (record b { balance_count = b.balance_count - 1 }) (i + 1)))
      → (IsPlain b → P (move b (i + 1)))
      → (IsPlain b
          → b.balance_count ≡ 0
          → (grab b.r (i + 1) b.rlen == 0) ≡ false
          → P (at_escape b i (grab b.r (i + 1) b.rlen)))
      → (IsPlain b → b.balance_count ≡ 0 → rune_at b.r i ≡ b'\\' → P (at_command b i))
      → (IsPlain b
          → b.balance_count ≡ 0
          → rune_at b.r i ≡ b';'
          → P (break (record b { ready = true }) (i + 1) [] []))
      → P (round unquote b i)
  unfolding round
  round_rule string comment opens dollar line block variable paren close plain escape command
        semicolon =
      let c = rune_at b.r i in
      let next = grab b.r (i + 1) b.rlen in
      if_rule P (not (b.quote == 0)) (λ q. string (not_eq b.quote 0 q))
        λ q.
          if_rule P b.multiline_comment (λ m. comment (not_ne b.quote 0 q) m)
            λ m.
              let p : IsPlain b = record { unquoted = not_ne b.quote 0 q; code = m } in
              if_rule P (c == b'\'' || c == b'"') (λ t. opens p (either c b'\'' b'"' t))
                λ _.
                  if_rule P (b.allow_dollar && c == b'$')
                    (λ t.
                      dollar p (both b.allow_dollar c b'$' t).0 (both b.allow_dollar c b'$' t).1)
                    λ _.
                      if_rule P (c == b'-' && next == b'-') (λ _. line p)
                        λ _.
                          if_rule P (b.allow_c_comments && c == b'/' && next == b'/') (λ _. line p)
                            λ _.
                              if_rule P (b.allow_hash_comments && c == b'#') (λ _. line p)
                                λ _.
                                  if_rule P
                                    (b.allow_multiline_comments && c == b'/' && next == b'*')
                                    (λ t.
                                      block p
                                        (three b.allow_multiline_comments c b'/' next b'*' t).0
                                        (three b.allow_multiline_comments c b'/' next b'*' t).1)
                                    λ _.
                                      if_rule P (c == b':' && not (next == b':'))
                                        (λ t. variable p (first c b':' (not (next == b':')) t))
                                        λ _.
                                          if_rule P (c == b'(') (λ _. paren p)
                                            λ _.
                                              if_rule P (c == b')') (λ _. close p)
                                                λ _.
                                                  if_rule P (not (b.balance_count == 0))
                                                    (λ _. plain p)
                                                    λ z.
                                                      let balanced = not_ne b.balance_count 0 z in
                                                      if_rule P
                                                        (c == b'\\'
                                                          && (next == b'\\'
                                                            || next == b';'
                                                            || next == b':'))
                                                        (λ t. escape p balanced (escaped c next t))
                                                        λ _.
                                                          if_rule P (c == b'\\')
                                                            (λ t.
                                                            command p balanced
                                                            ((==_iff c b'\\').0 t))
                                                            λ _.
                                                            if_rule P (c == b';')
                                                            (λ t.
                                                            semicolon p balanced
                                                            ((==_iff c b';').0 t))
                                                            λ _. plain p
