-- ===== src/Stmt/Quote/RoundTrip.antt =====
-- Texts that are quoted, and what `readString` and `readDollarAndTag` find of them.
use usql.Base.{
  ℕ, zero, suc, ◌+◌, ◌-◌, ◌<◌, ◌≡◌, ◌≢◌, refl, ap, ◌∙◌, true, false, inl, inr, [], ◌∷◌, ◌++◌, ◌||◌,
  ◌==◌, arith, Runes, length, get_or, drop, if◌then◌else◌, Bool-cases, length-append,
  drop_append_length,
}
use usql.Stmt.Quote.{found, move, string_round, string_loop, read_string}
use usql.Stmt.Scan.Suffix.{rune_here, drop_after, drop_after_two, grab_after, inside}

-- A text as it stands in a single quoted string: quotes and backslashes are doubled.
unfoldable pub sql_quoted : Runes → Runes
sql_quoted [] = []
sql_quoted (c ∷ s) =
    let rest = sql_quoted s in if c == b'\'' || c == b'\\' then c ∷ c ∷ rest else c ∷ rest

quoted_special :
    (c : ℕ) (s : Runes)
    → (c == b'\'' || c == b'\\') ≡ true
    → sql_quoted (c ∷ s) ≡ c ∷ c ∷ sql_quoted s
unfolding sql_quoted
quoted_special c s h = rw h

quoted_plain :
    (c : ℕ) (s : Runes) → (c == b'\'' || c == b'\\') ≡ false → sql_quoted (c ∷ s) ≡ c ∷ sql_quoted s
unfolding sql_quoted
quoted_plain c s h = rw h

quoted_nil : sql_quoted [] ≡ []
unfolding sql_quoted
quoted_nil = refl

module _ (r : Runes) (tag : Runes) where
  loop_found :
      (n i prev pos : ℕ)
      → i < length r
      → string_round r (length r) b'\'' tag i prev ≡ found pos
      → string_loop r (length r) b'\'' tag (suc n) i prev ≡ (pos, true)
  unfolding string_loop
  loop_found n i prev pos h e = ground (arith, e)

  loop_move :
      (n i prev j p : ℕ)
      → i < length r
      → string_round r (length r) b'\'' tag i prev ≡ move j p
      → string_loop r (length r) b'\'' tag (suc n) i prev ≡ string_loop r (length r) b'\'' tag n j p
  unfolding string_loop
  loop_move n i prev j p h e = ground (arith, e)

  -- The three rounds inside the string, and the one at its end.
  round_plain :
      (i prev c : ℕ) (s : Runes)
      → drop i r ≡ c ∷ s
      → (c == b'\'' || c == b'\\') ≡ false
      → string_round r (length r) b'\'' tag i prev ≡ move (i + 1) c
  unfolding string_round
  round_plain i prev c s h e = ground (arith, rune_here r i c s h)

  round_doubled :
      (i prev c : ℕ) (s : Runes)
      → drop i r ≡ c ∷ c ∷ s
      → (c == b'\'' || c == b'\\') ≡ true
      → prev ≢ b'\''
      → (p : ℕ) × (string_round r (length r) b'\'' tag i prev ≡ move (i + 2) p) × (p ≢ b'\'')
  unfolding string_round
  round_doubled i prev c s h e k = (
    if c == b'\\' then 0 else prev,
    ground (arith, rune_here r i c (c ∷ s) h, grab_after r i c (c ∷ s) h),
    ground arith,
  )

  round_close :
      (i prev : ℕ) (s : Runes)
      → drop i r ≡ b'\'' ∷ s
      → get_or s 0 0 ≢ b'\''
      → prev ≢ b'\''
      → string_round r (length r) b'\'' tag i prev ≡ found i
  unfolding string_round
  round_close i prev s h e k = ground (arith, rune_here r i b'\'' s h, grab_after r i b'\'' s h)

  loop_quoted :
      (s rest : Runes) (n i prev : ℕ)
      → drop i r ≡ sql_quoted s ++ (b'\'' ∷ rest)
      → get_or rest 0 0 ≢ b'\''
      → prev ≢ b'\''
      → length (sql_quoted s) < n
      → string_loop r (length r) b'\'' tag n i prev ≡ (i + length (sql_quoted s), true)
  loop_quoted s rest zero i prev h e k fuel = absurd (omega arith)
  loop_quoted [] rest (suc n) i prev h e k fuel =
      let h' = h ∙ ap (λ (x : Runes). x ++ b'\'' ∷ rest) quoted_nil in
      loop_found n i prev i (omega (arith, inside r i b'\'' rest h'))
        (round_close i prev rest h' e k)
      ∙ ap (λ (p : ℕ). (p, true)) (omega (arith, ap length quoted_nil))
  loop_quoted (c ∷ s) rest (suc n) i prev h e k fuel =
      elim (Bool-cases (c == b'\'' || c == b'\\')) [
        | inl special ↦
            let q = quoted_special c s special in
            let h' = h ∙ ap (λ (x : Runes). x ++ b'\'' ∷ rest) q in
            let after = sql_quoted s ++ b'\'' ∷ rest in
            let (p, moved, other) = round_doubled i prev c after h' special k in
            loop_move n i prev (i + 2) p (omega (arith, inside r i c (c ∷ after) h')) moved
            ∙ loop_quoted s rest n (i + 2) p (drop_after_two r i c c after h') e other
                (omega (arith, ap length q))
            ∙ ap (λ (m : ℕ). (m, true)) (omega (arith, ap length q))
        | inr plain ↦
            let q = quoted_plain c s plain in
            let h' = h ∙ ap (λ (x : Runes). x ++ b'\'' ∷ rest) q in
            let after = sql_quoted s ++ b'\'' ∷ rest in
            loop_move n i prev (i + 1) c (omega (arith, inside r i c after h'))
              (round_plain i prev c after h' plain)
            ∙ loop_quoted s rest n (i + 1) c (drop_after r i c after h') e (ground (arith, plain))
                (omega (arith, ap length q))
            ∙ ap (λ (m : ℕ). (m, true)) (omega (arith, ap length q))
      ]

-- A text with its quotes and backslashes doubled, then a quote, at any place of a line: started
-- behind the opening quote, `readString` finds that closing quote, whatever stands behind it, as long as that is
-- not one more quote.
pub read_string-sql_quoted :
    (before s rest tag : Runes)
    → get_or rest 0 0 ≢ b'\''
    → read_string
        (before ++ (sql_quoted s ++ b'\'' ∷ rest))
        (length before)
        (length (before ++ (sql_quoted s ++ b'\'' ∷ rest)))
        b'\''
        tag
      ≡ (length before + length (sql_quoted s), true)
unfolding read_string
read_string-sql_quoted before s rest tag e =
    let r = before ++ (sql_quoted s ++ b'\'' ∷ rest) in
    loop_quoted r tag s rest (length r - length before) (length before) 0
      (drop_append_length before (sql_quoted s ++ b'\'' ∷ rest)) e (omega arith)
      (omega (
        arith,
        length-append before (sql_quoted s ++ b'\'' ∷ rest),
        length-append (sql_quoted s) (b'\'' ∷ rest),
      ))
