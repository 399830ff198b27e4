-- ===== src/Stmt/Next/Work.antt =====
-- The work that is left for the loop of `Next`: it falls in every round, if what is put for a
-- variable holds no colon.
use usql.Base.{
  ℕ, zero, suc, ◌+◌, ◌-◌, ◌*◌, ◌≤◌, ◌<◌, ◌≡◌, sym, ap, ◌∙◌, [], ◌∷◌, ◌++◌, ◌==◌, arith, Runes,
  length, get_or, take, drop, if◌then◌else◌, length-append, length-drop, length-take, drop-drop,
  drop_append_length, drop_at, drop_append,
}

-- The colons of a text.
abbrev pub colons : Runes → ℕ
colons [] = 0
colons (c ∷ s) = (if c == b':' then 1 else 0) + colons s

pub colons-append : (s t : Runes) → colons (s ++ t) ≡ colons s + colons t
colons-append [] t = omega arith
colons-append (c ∷ s) t = omega (arith, colons-append s t)

pub colons-le-length : (s : Runes) → colons s ≤ length s
colons-le-length [] = omega arith
colons-le-length (c ∷ s) = ground (arith, colons-le-length s)

colons-drop : (n : ℕ) (s : Runes) → colons (drop n s) ≤ colons s
colons-drop zero s = omega arith
colons-drop (suc n) [] = omega arith
colons-drop (suc n) (c ∷ s) = omega (arith, colons-drop n s)

mul_mono : (a b m : ℕ) → a ≤ b → a * m ≤ b * m
mul_mono a b m h = grind arith

-- What is left from position `i` on, where a value has `l` runes at most.
pub work : ℕ → Runes → ℕ → ℕ
work l r i = colons (drop i r) * (l + 1) + length (drop i r)

pub work-le : (l : ℕ) (r : Runes) → work l r 0 ≤ length r * (l + 2)
unfolding work
work-le l r = omega (arith, mul_mono (colons r) (length r) (l + 1) (colons-le-length r))

-- Going on in the same line.
pub work_skip : (l : ℕ) (r : Runes) (i j : ℕ) → i < j → i < length r → work l r j < work l r i
unfolding work
work_skip l r i j h k =
    let split : drop j r ≡ drop (j - i) (drop i r) =
      ap (λ (n : ℕ). drop n r) (back i j h) ∙ sym (drop-drop r i (j - i)) in
    let fewer = colons-drop (j - i) (drop i r) in
    rw split (
      omega (
        arith,
        mul_mono (colons (drop (j - i) (drop i r))) (colons (drop i r)) (l + 1) fewer,
        length-drop (j - i) (drop i r),
        length-drop i r,
      ))
  where
    back : (i j : ℕ) → i < j → j ≡ i + (j - i)
    back i j h = omega arith

rest_after :
    (r z : Runes) (i e : ℕ) → i ≤ length r → drop i (take i r ++ (z ++ drop e r)) ≡ z ++ drop e r
rest_after r z i e h =
    ap (λ (n : ℕ). drop n (take i r ++ (z ++ drop e r))) (front)
    ∙ drop_append_length (take i r) (z ++ drop e r)
  where
    front : i ≡ length (take i r)
    front = omega (arith, length-take i r)

colons_at :
    (r : Runes) (i e : ℕ)
    → i < e
    → e ≤ length r
    → get_or r i 0 ≡ b':'
    → colons (drop e r) < colons (drop i r)
colons_at r i e h k c =
    let split : drop i r ≡ b':' ∷ drop (suc i) r =
      drop_at r i 0 (omega arith) ∙ ap (λ (x : ℕ). x ∷ drop (suc i) r) c in
    let further : drop e r ≡ drop (e - suc i) (drop (suc i) r) =
      ap (λ (n : ℕ). drop n r) (back i e h) ∙ sym (drop-drop r (suc i) (e - suc i)) in
    rw (split, further) (omega (arith, colons-drop (e - suc i) (drop (suc i) r)))
  where
    back : (i e : ℕ) → i < e → e ≡ suc i + (e - suc i)
    back i e h = omega arith

-- A value in place of a variable, read again from its start.
pub work_replaced :
    (l : ℕ) (r z : Runes) (i e : ℕ)
    → i + 2 ≤ e
    → e ≤ length r
    → get_or r i 0 ≡ b':'
    → colons z ≡ 0
    → length z ≤ l
    → work l (take i r ++ (z ++ drop e r)) i < work l r i
unfolding work
work_replaced l r z i e h k c calm short =
    let fewer =
      mul_mono (colons (drop e r) + 1) (colons (drop i r)) (l + 1)
        (omega (arith, colons_at r i e (omega arith) k c)) in
    let same : colons (z ++ drop e r) ≡ colons (drop e r) =
      omega (arith, colons-append z (drop e r)) in
    rw (rest_after r z i e (omega arith)) (
      omega (
        arith,
        fewer,
        ap (λ (n : ℕ). n * (l + 1)) same,
        length-append z (drop e r),
        length-drop e r,
        length-drop i r,
      ))

escape_rest :
    (r : Runes) (c i : ℕ)
    → i + 2 ≤ length r
    → drop (i + 1) (take i r ++ (c ∷ drop (i + 2) r)) ≡ drop (i + 2) r
escape_rest r c i h =
    ap (λ (n : ℕ). drop n (take i r ++ (c ∷ drop (i + 2) r))) front
    ∙ drop_append (take i r) (c ∷ drop (i + 2) r) 1
  where
    front : i + 1 ≡ length (take i r) + 1
    front = omega (arith, length-take i r)

-- A rune in place of an escape, and the position behind it.
pub work_escape :
    (l : ℕ) (r : Runes) (c i : ℕ)
    → i + 2 ≤ length r
    → work l (take i r ++ (c ∷ drop (i + 2) r)) (i + 1) < work l r i
work_escape l r c i h =
    let same : work l (take i r ++ (c ∷ drop (i + 2) r)) (i + 1) ≡ work l r (i + 2) =
      unfold work in ap (λ (s : Runes). colons s * (l + 1) + length s) (escape_rest r c i h) in
    omega (arith, same, work_skip l r i (i + 2) (omega arith) (omega arith))
