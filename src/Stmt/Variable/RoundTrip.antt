-- ===== src/Stmt/Variable/RoundTrip.antt =====
-- `readVar` reads a variable `:name` back.
use usql.Base.{
  ℕ, zero, suc, ◌+◌, ◌-◌, ◌<◌, ◌≡◌, refl, ap, ◌∙◌, true, false, some, [], ◌∷◌, ◌++◌, ◌==◌, ◌||◌,
  arith, Runes, length, get_or, drop, take, take_append_length,
}
use usql.Stmt.Rune.{Unicode, ascii_letter, ascii_number}
use usql.Stmt.Scan.Suffix.{drop_after, grab_after, inside, grab_lem}
use usql.Stmt.Variable.{plain_var, name_rune, name_loop, read_var}

module _ ⦃u : Unicode⦄ where
  -- A name goes on through these runes.
  abbrev pub AreNameRunes : Runes → Type 0
  AreNameRunes [] = Unit {0}
  AreNameRunes (c ∷ s) = (name_rune c ≡ true) × AreNameRunes s

  -- Of the runes below 128 those of a name are `_`, letters and digits.
  pub name_rune_ascii :
      (c : ℕ) → c < 128 → name_rune c ≡ (c == b'_' || ascii_letter c || ascii_number c)
  unfolding name_rune
  name_rune_ascii c h = rw (u.letter_ascii c h, u.number_ascii c h)

  pub name_loop_lem :
      (r name rest : Runes) (n i : ℕ)
      → drop i r ≡ name ++ rest
      → AreNameRunes name
      → name_rune (get_or rest 0 0) ≡ false
      → i + n ≡ length r
      → name_loop r (length r) n i ≡ i + length name
  unfolding name_loop
  name_loop_lem r [] rest zero i h names stops all = omega arith
  name_loop_lem r [] rest (suc n) i h names stops all =
      let c = grab_lem r i ∙ ap (λ (x : Runes). get_or x 0 0) h in rw (c, stops) (omega arith)
  name_loop_lem r (c ∷ name) rest zero i h (good, names) stops all =
      absurd (omega (arith, inside r i c (name ++ rest) h))
  name_loop_lem r (c ∷ name) rest (suc n) i h (good, names) stops all =
      let here = grab_lem r i ∙ ap (λ (x : Runes). get_or x 0 0) h in
      rw (here, good)
        (name_loop_lem r name rest n (i + 1) (drop_after r i c (name ++ rest) h) names stops
            (omega arith)
          ∙ plus i (length name))
    where
      plus : (a b : ℕ) → a + 1 + b ≡ a + suc b
      plus a b = omega arith

  pub not_mark :
      (c m : ℕ)
      → name_rune c ≡ true
      → m < 128
      → (m == b'_' || ascii_letter m || ascii_number m) ≡ false
      → (c == m) ≡ false
  not_mark c m good low bad = ground (arith, name_rune_ascii m)

  pub read_var-stops :
      (r : Runes) (i c : ℕ) (name rest : Runes)
      → drop i r ≡ b':' ∷ c ∷ (name ++ rest)
      → AreNameRunes (c ∷ name)
      → name_rune (get_or rest 0 0) ≡ false
      → read_var r i (length r) ≡ some (plain_var r i (i + 1 + length (c ∷ name)))
  unfolding read_var
  read_var-stops r i c name rest h names stops =
      let colon = grab_lem r i ∙ ap (λ (x : Runes). get_or x 0 0) h in
      let second = grab_after r i b':' (c ∷ (name ++ rest)) h in
      let all = inside r i b':' (c ∷ (name ++ rest)) h in
      let stop =
        name_loop_lem r (c ∷ name) rest (length r - (i + 1)) (i + 1)
          (drop_after r i b':' (c ∷ (name ++ rest)) h) names stops (omega arith) in
      rw
        (
          colon,
          second,
          not_mark c b':' names.0 (omega arith) refl,
          not_mark c b'"' names.0 (omega arith) refl,
          not_mark c b'\'' names.0 (omega arith) refl,
          stop,
        )
        (ground arith)

  -- At the colon of `:name`, where the name has a rune or more and does not go on behind it, the variable
  -- that is read is not quoted, has that name, and stands from the colon to the end of the name.
  pub read_var-plain_var :
      (r : Runes) (i c : ℕ) (name rest : Runes)
      → drop i r ≡ b':' ∷ c ∷ (name ++ rest)
      → AreNameRunes (c ∷ name)
      → name_rune (get_or rest 0 0) ≡ false
      → read_var r i (length r)
        ≡ some (record {
          i = i;
          end = i + 1 + length (c ∷ name);
          quote = 0;
          name = c ∷ name;
          len = 0;
          defined = false;
        })
  read_var-plain_var r i c name rest h names stops =
      read_var-stops r i c name rest h names stops
      ∙ ap
          (λ (x : Runes). some (record {
            i = i;
            end = i + 1 + length (c ∷ name);
            quote = 0;
            name = x;
            len = 0;
            defined = false;
          }))
          (ap (λ (n : ℕ). take n (drop (i + 1) r)) (minus (i + 1) (length (c ∷ name)))
            ∙ ap (take (length (c ∷ name))) (drop_after r i b':' (c ∷ (name ++ rest)) h)
            ∙ take_append_length (c ∷ name) rest)
    where
      minus : (a b : ℕ) → a + b - a ≡ b
      minus a b = omega arith
