-- ===== src/Stmt/Splice/Refines.antt =====
-- `substitute` and `substituteVar` replace a part of a slice, whatever the stale array holds and
-- whether or not they grow it.
use mathlib.Core.Path.{ap₂}
use usql.Base.{
  ℕ, zero, suc, ◌+◌, ◌-◌, ◌≤◌, ◌≡◌, refl, sym, ap, ◌∙◌, inl, inr, [], ◌∷◌, ◌++◌, append_assoc,
  arith, Runes, length, take, drop, copy, ltb, Bool-cases, length-append, take_append, drop_append,
  drop_append_length, copy_over, take-copy, ltb→lt, ltb→le, length-take, length-drop,
  take-append-drop, drop-drop,
}
use usql.Stmt.Splice.{substitute, substitute_var, zeros, grow, copy_at, replace_part}
use usql.Stmt.Variable.{Var}

pub length-zeros : (n : ℕ) → length (zeros n) ≡ n
unfolding zeros
length-zeros zero = refl
length-zeros (suc n) = ap suc (length-zeros n)

copy_keeps : (dst r : Runes) → length r ≤ length dst → copy dst r ≡ r ++ drop (length r) dst
copy_keeps [] [] h = refl
copy_keeps (x ∷ dst) [] h = refl
copy_keeps [] (c ∷ r) h = absurd (omega arith)
copy_keeps (x ∷ dst) (c ∷ r) h = rw (copy_keeps dst r (omega arith))

-- Either way the old runes come first, and there is room for `tlen`.
grow_lem :
    (r spare : Runes) (tlen : ℕ)
    → (t : Runes) × (grow r spare tlen ≡ r ++ t) × (tlen ≤ length r + length t)
unfolding grow
grow_lem r spare tlen = elim (Bool-cases (ltb (length r + length spare) tlen)) [
  | inl small ↦
      let room = ltb→lt (length r + length spare) tlen small in
      (
        drop (length r) (zeros tlen),
        rw small (copy_keeps (zeros tlen) r (omega (arith, length-zeros tlen))),
        omega (arith, length-drop (length r) (zeros tlen), length-zeros tlen),
      )
  | inr large ↦ (spare, rw large, ltb→le (length r + length spare) tlen large)
]

pub copy_at_append :
    (a y s : Runes) (k : ℕ) → copy_at (a ++ y) (length a + k) s ≡ a ++ copy_at y k s
unfolding copy_at
copy_at_append a y s k = simp (take_append a y k, drop_append a y k, append_assoc)

-- Moving the rest `b` of `m ++ b` behind a place of `n` runes, and filling that place by `s`.
refill :
    (m b t s : Runes)
    → length s ≤ length m + length t
    → take (length s + length b) (copy_at (copy_at (m ++ (b ++ t)) (length s) (b ++ t)) 0 s)
      ≡ s ++ b
unfolding copy_at
refill m b t s h =
    let y = m ++ (b ++ t) in
    let room : length s ≤ length y = omega (arith, length-append m (b ++ t), length-append b t) in
    let front : length (take (length s) y) ≡ length s = omega (arith, length-take (length s) y) in
    let back : length b ≤ length (drop (length s) y) =
      omega (arith, length-drop (length s) y, length-append m (b ++ t), length-append b t) in
    rw (copy_over (take (length s) y) (copy (drop (length s) y) (b ++ t)) s front) (
      take_append s (copy (drop (length s) y) (b ++ t)) (length b)
      ∙ ap (λ (x : Runes). s ++ x) (take-copy (drop (length s) y) b t back))

-- The part at `i`, moved and filled in the grown array.
spliced :
    (a m b t s : Runes)
    → length s ≤ length m + length t
    → take
        (length a + (length s + length b))
        (copy_at (copy_at (a ++ (m ++ (b ++ t))) (length a + length s) (b ++ t)) (length a + 0) s)
      ≡ a ++ (s ++ b)
spliced a m b t s h =
    let y = m ++ (b ++ t) in
    rw
      (copy_at_append a y (b ++ t) (length s), copy_at_append a (copy_at y (length s) (b ++ t)) s 0)
      (take_append a (copy_at (copy_at y (length s) (b ++ t)) 0 s) (length s + length b)
        ∙ ap (λ (x : Runes). a ++ x) (refill m b t s h))

-- The code's sums, for the three parts of a slice.
sizes :
    (a m b s : Runes)
    → (length (a ++ (m ++ b)) + length s - length m ≡ length a + (length s + length b))
      × (length (a ++ (s ++ b)) ≡ length a + (length s + length b))
sizes a m b s = (
  omega (arith, length-append a (m ++ b), length-append m b),
  omega (arith, length-append a (s ++ b), length-append s b),
)

add_zero : (n : ℕ) → n + 0 ≡ n
add_zero n = omega arith

regroup : (a m b t : Runes) → (a ++ (m ++ b)) ++ t ≡ a ++ (m ++ (b ++ t))
regroup a m b t = simp append_assoc

behind : (a m b t : Runes) → drop (length a + length m) (a ++ (m ++ (b ++ t))) ≡ b ++ t
behind a m b t = drop_append a (m ++ (b ++ t)) (length m) ∙ drop_append_length m (b ++ t)

-- `substitute` on a slice of three parts puts `s` for the middle one, whatever the rest `spare` of
-- the array holds, and the length that it returns is the new slice's.
pub substitute_lem :
    (a m b spare s : Runes)
    → substitute (a ++ (m ++ b)) spare (length a) (length m) s
      ≡ (a ++ (s ++ b), length (a ++ (s ++ b)))
unfolding substitute
substitute_lem a m b spare s =
    let tlen = length a + (length s + length b) in
    let (t, grown, room) = grow_lem (a ++ (m ++ b)) spare tlen in
    let fits : length s ≤ length m + length t =
      omega (arith, room, length-append a (m ++ b), length-append m b) in
    rw ((sizes a m b s).0, (sizes a m b s).1, grown, regroup a m b t, behind a m b t)
      (ap (λ (x : Runes). (x, tlen)) (rw (add_zero (length a)) at (spliced a m b t s fits)))

var_size :
    (a m b s : Runes)
    → length (a ++ (m ++ b)) + length s - (length a + length m - length a)
      ≡ length a + (length s + length b)
var_size a m b s = omega (arith, length-append a (m ++ b), length-append m b)

replace_part_lem :
    (a m b spare s : Runes)
    → replace_part (a ++ (m ++ b)) spare (length a) (length a + length m) s
      ≡ (a ++ (s ++ b), length (a ++ (s ++ b)))
unfolding replace_part
replace_part_lem a m b spare s =
    let tlen = length a + (length s + length b) in
    let (t, grown, room) = grow_lem (a ++ (m ++ b)) spare tlen in
    let fits : length s ≤ length m + length t =
      omega (arith, room, length-append a (m ++ b), length-append m b) in
    rw (var_size a m b s, (sizes a m b s).1, grown, regroup a m b t, behind a m b t)
      (ap (λ (x : Runes). (x, tlen)) (rw (add_zero (length a)) at (spliced a m b t s fits)))

-- A slice cut at two positions.
cut :
    (r : Runes) (i j : ℕ)
    → i ≤ j
    → j ≤ length r
    → (r ≡ take i r ++ (take (j - i) (drop i r) ++ drop j r))
      × (length (take i r) ≡ i)
      × (length (take (j - i) (drop i r)) ≡ j - i)
cut r i j h k = (
  sym (
      ap (λ (x : Runes). take i r ++ (take (j - i) (drop i r) ++ x))
        (rest ∙ sym (drop-drop r i (j - i)))
      ∙ ap (λ (x : Runes). take i r ++ x) (take-append-drop (j - i) (drop i r))
      ∙ take-append-drop i r),
  omega (arith, length-take i r),
  omega (arith, length-take (j - i) (drop i r), length-drop i r),
)
  where
    back : j ≡ i + (j - i)
    back = omega arith

    rest : drop j r ≡ drop (i + (j - i)) r
    rest = ap (λ (n : ℕ). drop n r) back

-- `substituteVar` at a variable inside the slice: what stands before and behind it stays, the
-- replacement's length is recorded, and the length returned is the new slice's, whatever the rest
-- `spare` of the array holds.
pub substitute_var_lem :
    (r spare : Runes) (v : Var) (s : Runes)
    → v.i ≤ v.end
    → v.end ≤ length r
    → substitute_var r spare v s ≡ (
      record v { len = length s },
      take v.i r ++ (s ++ drop v.end r),
      length (take v.i r ++ (s ++ drop v.end r)),
    )
unfolding substitute_var
substitute_var_lem r spare v s h k =
    let (parts, front, middle) = cut r v.i v.end h k in
    let inner =
      replace_part_lem (take v.i r) (take (v.end - v.i) (drop v.i r)) (drop v.end r) spare s in
    let ends : length (take v.i r) + length (take (v.end - v.i) (drop v.i r)) ≡ v.end =
      omega (arith, front, middle) in
    ap (λ (p : Runes × ℕ). let (z, tlen) = p in (record v { len = length s }, z, tlen))
      (ap (λ (x : Runes). replace_part x spare v.i v.end s) parts
        ∙ ap₂
            (λ (i end : ℕ).
              replace_part (take v.i r ++ (take (v.end - v.i) (drop v.i r) ++ drop v.end r)) spare i
                end s)
            (sym front) (sym ends)
        ∙ inner)
