-- ===== src/Stmt/Buffer/Append.antt =====
-- `Append` joins the old text, the separator and the new runes, whatever the array behind the buffer holds and
-- whether or not it is grown.
use mathlib.Core.Path.{ap₂}
use usql.Base.{
  ℕ, ◌+◌, ◌-◌, ◌%◌, ◌≤◌, ◌<◌, ◌≡◌, refl, sym, ap, ◌∙◌, inl, inr, Option, none, some, [], ◌++◌,
  append-nil, arith, Runes, length, take, drop, copy, ltb, Bool-cases, length-append, ltb→le,
  take_append, copy_over, length-take, length-drop, take-append-drop,
}
use usql.Stmt.Buffer.{
  Stmt, runes, grown_cap, append_array, append_text, append_to, append, min_cap_increase,
}
use usql.Stmt.Splice.Refines.{length-zeros, copy_at_append}
use usql.Stmt.Splice.{copy_at, zeros}

-- The new capacity has room for the text, and is a multiple of the increase.
pub grown_cap_lem :
    (tlen rlen : ℕ) → (tlen < grown_cap tlen rlen) × (grown_cap tlen rlen % min_cap_increase ≡ 0)
unfolding grown_cap
grown_cap_lem tlen rlen = (omega arith, omega arith)

copy_whole : (x s : Runes) → length x ≡ length s → copy x s ≡ s
copy_whole x s h =
    ap (λ (y : Runes). copy y s) (sym (append-nil x)) ∙ copy_over x [] s h ∙ append-nil s

append_array_lem :
    (buf spare : Runes) (tlen rlen : ℕ)
    → length buf ≤ tlen
    → (t : Runes) × (append_array buf spare (length buf) tlen rlen ≡ buf ++ t)
      × (tlen ≤ length buf + length t)
unfolding append_array
append_array_lem buf spare tlen rlen h = elim (Bool-cases (ltb (length buf + length spare) tlen)) [
  | inl small ↦ (
    zeros (grown_cap tlen rlen - length buf),
    rw small (
        ap (λ (x : Runes). x ++ zeros (grown_cap tlen rlen - length buf))
          (copy_whole (zeros (length buf)) buf (length-zeros (length buf)))),
    omega (arith, length-zeros (grown_cap tlen rlen - length buf), (grown_cap_lem tlen rlen).0),
  )
  | inr large ↦ (spare, rw large, ltb→le (length buf + length spare) tlen large)
]

add_zero : (n : ℕ) → n + 0 ≡ n
add_zero n = omega arith

-- The separator and the new runes, written behind the old text.
filled :
    (buf y sep r : Runes)
    → length y ≡ length sep + length r
    → copy_at (copy_at (buf ++ y) (length buf) sep) (length buf + length sep) r ≡ buf ++ (sep ++ r)
filled buf y sep r h =
    let front : length (take (length sep) y) ≡ length sep =
      omega (arith, length-take (length sep) y) in
    let back : length (drop (length sep) y) ≡ length r =
      omega (arith, length-drop (length sep) y) in
    let first : copy_at (buf ++ y) (length buf) sep ≡ buf ++ (sep ++ drop (length sep) y) =
      ap (λ (n : ℕ). copy_at (buf ++ y) n sep) (sym (add_zero (length buf)))
      ∙ copy_at_append buf y sep 0
      ∙ ap (λ (x : Runes). buf ++ x)
          (ap (λ (x : Runes). copy_at x 0 sep) (sym (take-append-drop (length sep) y))
            ∙ unfold copy_at in copy_over (take (length sep) y) (drop (length sep) y) sep front) in
    let second : copy_at (sep ++ drop (length sep) y) (length sep) r ≡ sep ++ r =
      ap (λ (n : ℕ). copy_at (sep ++ drop (length sep) y) n r) (sym (add_zero (length sep)))
      ∙ copy_at_append sep (drop (length sep) y) r 0
      ∙ ap (λ (x : Runes). sep ++ x) (unfold copy_at in copy_whole (drop (length sep) y) r back) in
    ap (λ (x : Runes). copy_at x (length buf + length sep) r) first
    ∙ copy_at_append buf (sep ++ drop (length sep) y) r (length sep)
    ∙ ap (λ (x : Runes). buf ++ x) second

sizes : (buf sep r : Runes) → length buf + length r + length sep ≡ length (buf ++ (sep ++ r))
sizes buf sep r = omega (arith, length-append buf (sep ++ r), length-append sep r)

append_text_lem :
    (buf spare r sep : Runes)
    → append_text buf spare (length buf) r sep ≡ (buf ++ (sep ++ r), length (buf ++ (sep ++ r)))
unfolding append_text
append_text_lem buf spare r sep =
    let tlen = length buf + length r + length sep in
    let (t, array, room) = append_array_lem buf spare tlen (length r) (omega arith) in
    let y = take (length r + length sep) t in
    let cut : take tlen (buf ++ t) ≡ buf ++ y =
      ap (λ (n : ℕ). take n (buf ++ t)) (assoc (length buf) (length r) (length sep))
      ∙ take_append buf t (length r + length sep) in
    let long : length y ≡ length sep + length r =
      omega (arith, length-take (length r + length sep) t) in
    ap₂ (λ (x : Runes) (n : ℕ). (x, n))
      (ap
          (λ (x : Runes).
            copy_at (copy_at (take tlen x) (length buf) sep) (length buf + length sep) r)
          array
        ∙ ap (λ (x : Runes). copy_at (copy_at x (length buf) sep) (length buf + length sep) r) cut
        ∙ filled buf y sep r long)
      (sizes buf sep r)
  where
    assoc : (a b c : ℕ) → a + b + c ≡ a + (b + c)
    assoc a b c = omega arith

-- The text behind a call of `Append`.
abbrev pub joined : Option Runes → Runes → Runes → Runes
joined none r sep = r
joined (some buf) r sep = buf ++ (sep ++ r)

pub append_to_lem :
    (o : Option Runes) (spare r sep : Runes) (b : Stmt)
    → b.len ≡ length (runes o)
    → append_to o spare r sep b
      ≡ record b { buf = some (joined o r sep); len = length (joined o r sep) }
unfolding append_to
append_to_lem none spare r sep b h = refl
append_to_lem (some buf) spare r sep b h =
    ap (λ (p : Runes × ℕ). let (z, tlen) = p in record b { buf = some z; len = tlen })
      (ap (λ (n : ℕ). append_text buf spare n r sep) h ∙ append_text_lem buf spare r sep)

pub append_lem :
    (spare r sep : Runes) (b : Stmt)
    → b.len ≡ length (runes b.buf)
    → append spare r sep b
      ≡ record b { buf = some (joined b.buf r sep); len = length (joined b.buf r sep) }
unfolding append
append_lem spare r sep b h = append_to_lem b.buf spare r sep b h
