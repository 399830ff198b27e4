-- ===== src/Stmt/Variable/Bounds.antt =====
-- Where a variable that `readVar` reads lies in the line.
use mathlib.Core.Option.{some-injective}
use mathlib.Core.Path.{subst}
use usql.Base.{
  ℕ, zero, suc, ◌+◌, ◌-◌, ◌≤◌, ◌<◌, ◌≡◌, refl, ◌∙◌, false, not, ◌⊎◌, inl, inr, none, some, ◌==◌,
  arith, Runes, ltb, if◌then◌else◌, Bool-cases, ◌||◌,
}
use usql.Stmt.Rune.{Unicode}
use usql.Stmt.Scan.{grab, slice}
use usql.Stmt.Variable.{Var, string_var_loop, read_string_var, name_loop, read_var, plain_var}

-- The variable starts at `i` with a colon, ends below `end`, and its name is what stands between.
pub record IsRead (r : Runes) (i end : ℕ) (v : Var) : Type 0 where
  pub starts : v.i ≡ i
  pub colon : grab r i end ≡ b':'
  pub upto : v.end ≤ end
  pub two : i + 2 ≤ v.end
  pub new : v.defined ≡ false
  pub quoted :
      ((v.quote ≡ 0) × (v.name ≡ slice r (i + 1) v.end))
      ⊎ (((v.quote ≡ b'\'') ⊎ (v.quote ≡ b'"'))
          × (v.name ≡ slice r (i + 2) (v.end - 1))
          × (i + 4 ≤ v.end))

minus_one : (i : ℕ) → i + 1 - 1 ≡ i
minus_one i = omega arith

string_var_loop_lem :
    (r : Runes) (end start q n i : ℕ) (v : Var)
    → i + n ≡ end
    → string_var_loop r end start q n i ≡ some v
    → (v.i ≡ start)
      × (v.end ≤ end)
      × (start + 4 ≤ v.end)
      × (v.quote ≡ q)
      × (v.defined ≡ false)
      × (v.name ≡ slice r (start + 2) (v.end - 1))
unfolding string_var_loop
string_var_loop_lem r end start q zero i v h e = cc
string_var_loop_lem r end start q (suc n) i v h e = elim (Bool-cases (grab r i end == q)) [
  | inl hit ↦ ground (arith, hit, minus_one i)
  | inr miss ↦ string_var_loop_lem r end start q n (i + 1) v (omega arith) (rw miss at e)
]

name_loop_bounds :
    ⦃u : Unicode⦄ (r : Runes) (end n i : ℕ)
    → i + n ≡ end
    → (i ≤ name_loop r end n i) × (name_loop r end n i ≤ end)
unfolding name_loop
name_loop_bounds r end zero i h = omega arith
name_loop_bounds r end (suc n) i h = ground (arith, name_loop_bounds r end n (i + 1))

read_string_var-IsRead :
    (r : Runes) (i end : ℕ) (v : Var)
    → i + 2 ≤ end
    → grab r i end ≡ b':'
    → (grab r (i + 1) end ≡ b'"') ⊎ (grab r (i + 1) end ≡ b'\'')
    → read_string_var r i end ≡ some v
    → IsRead r i end v
unfolding read_string_var
read_string_var-IsRead r i end v h colon mark e =
    let (starts, upto, four, quote, new, name) =
      string_var_loop_lem r end i (grab r (i + 1) end) (end - (i + 2)) (i + 2) v (omega arith) e in
    record {
      starts = starts;
      colon = colon;
      upto = upto;
      two = omega arith;
      new = new;
      quoted = inr (elim mark [ inl m ↦ inr (quote ∙ m) | inr m ↦ inl (quote ∙ m) ], name, four);
    }

plain_var-IsRead :
    ⦃u : Unicode⦄ (r : Runes) (i end : ℕ) (v : Var)
    → grab r i end ≡ b':'
    → i + 2 ≤ end
    → (let stop = name_loop r end (end - (i + 1)) (i + 1) in
        (if ltb (stop - i) 2 then none else some (plain_var r i stop)) ≡ some v)
    → IsRead r i end v
plain_var-IsRead r i end v colon h e =
    let stop = name_loop r end (end - (i + 1)) (i + 1) in
    let (from, upto) = name_loop_bounds r end (end - (i + 1)) (i + 1) (omega arith) in
    elim (Bool-cases (ltb (stop - i) 2)) [
      | inl short ↦ absurd (ground (arith, short))
      | inr long ↦
          subst (IsRead r i end) (some-injective (plain_var r i stop) v (rw long at e)) (record {
            starts = refl;
            colon = colon;
            upto = upto;
            two = ground (arith, long);
            new = refl;
            quoted = inl (refl, refl);
          })
    ]

-- A variable that `readVar` returns starts at the colon, ends in the line, and is named by the runes
-- between its marks; quoted, it has a name of one rune or more.
pub read_var-IsRead :
    ⦃u : Unicode⦄ (r : Runes) (i end : ℕ) (v : Var)
    → i < end
    → read_var r i end ≡ some v
    → IsRead r i end v
unfolding read_var
read_var-IsRead r i end v h e =
    elim (Bool-cases (not (grab r i end == b':') || grab r (i + 1) end == b':')) [
      | inl bad ↦ absurd (ground (arith, bad))
      | inr good ↦ elim (Bool-cases (ltb (end - i) 2)) [
        | inl short ↦ absurd (ground (arith, good, short))
        | inr long ↦ elim (Bool-cases (grab r (i + 1) end == b'"' || grab r (i + 1) end == b'\'')) [
          | inl mark ↦
              read_string_var-IsRead r i end v (ground arith) (ground (arith, good))
                (ground (arith, mark)) (rw (good, long, mark) at e)
          | inr plain ↦
              plain_var-IsRead r i end v (ground (arith, good)) (ground (arith, long))
                (rw (good, long, plain) at e)
        ]
      ]
    ]
