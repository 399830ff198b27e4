-- ===== src/Stmt/Quote/Bounds.antt =====
-- The readers of quotes and comments never go back.
use usql.Base.{
  ℕ, zero, suc, ◌+◌, ◌-◌, ◌≤◌, ◌<◌, ◌≡◌, refl, Bool, true, false, ◌⊎◌, inl, inr, arith, Runes,
}
use usql.Stmt.Quote.{
  dollar_loop, dollar_tag, read_dollar_and_tag, Reading, found, move, string_round, string_loop,
  read_string, comment_loop, read_multiline_comment,
}

dollar_loop_from : (r : Runes) (start n i : ℕ) → i ≤ (dollar_loop r start n i).0
unfolding dollar_loop
dollar_loop_from r start zero i = omega arith
dollar_loop_from r start (suc n) i = ground (arith, dollar_loop_from r start n (i + 1))

dollar_tag_at : (r : Runes) (start : ℕ) (p : ℕ × Bool) → (dollar_tag r start p).at ≡ p.0
unfolding dollar_tag
dollar_tag_at r start (i, false) = refl
dollar_tag_at r start (i, true) = ground arith

-- `readDollarAndTag` goes on behind the dollar that it starts at.
pub read_dollar_and_tag_from : (r : Runes) (i end : ℕ) → i < (read_dollar_and_tag r i end).at
unfolding read_dollar_and_tag
read_dollar_and_tag_from r i end = omega (
  arith,
  dollar_tag_at r i (dollar_loop r i (end - (i + 1)) (i + 1)),
  dollar_loop_from r i (end - (i + 1)) (i + 1),
)

-- A round of `readString` returns a position that is not before `i`, or goes on behind `i`.
abbrev Forward : ℕ → Reading → Type 0
Forward i (found pos) = i ≤ pos
Forward i (move j p) = i < j

string_round-Forward :
    (r : Runes) (end quote : ℕ) (tag : Runes) (i prev : ℕ)
    → Forward i (string_round r end quote tag i prev)
unfolding string_round
string_round-Forward r end quote tag i prev = ground (arith, read_dollar_and_tag_from r i end)

Reading-cases : (x : Reading) → ((pos : ℕ) × (x ≡ found pos)) ⊎ ((j : ℕ) × (p : ℕ) × (x ≡ move j p))
Reading-cases (found pos) = inl (pos, refl)
Reading-cases (move j p) = inr (j, p, refl)

string_loop_from :
    (r : Runes) (end quote : ℕ) (tag : Runes) (n i prev k : ℕ)
    → k ≤ i
    → k ≤ end
    → k ≤ (string_loop r end quote tag n i prev).0
unfolding string_loop
string_loop_from r end quote tag zero i prev k h e = e
string_loop_from r end quote tag (suc n) i prev k h e =
    let step = string_round-Forward r end quote tag i prev in
    elim (Reading-cases (string_round r end quote tag i prev)) [
      | inl (pos, is) ↦ ground (arith, is, rw is at step)
      | inr (j, p, is) ↦ ground (arith, is, rw is at step, string_loop_from r end quote tag n j p k)
    ]

-- `readString`, called inside the line, returns no position before its own.
pub read_string_from :
    (r : Runes) (i end quote : ℕ) (tag : Runes) → i ≤ end → i ≤ (read_string r i end quote tag).0
unfolding read_string
read_string_from r i end quote tag h =
    string_loop_from r end quote tag (end - i) i 0 i (omega arith) h

comment_loop_from : (r : Runes) (end n i k : ℕ) → k ≤ i → k ≤ end → k ≤ (comment_loop r end n i).0
unfolding comment_loop
comment_loop_from r end zero i k h e = e
comment_loop_from r end (suc n) i k h e = ground (arith, comment_loop_from r end n (i + 1) k)

-- So does `readMultilineComment`.
pub read_multiline_comment_from :
    (r : Runes) (i end : ℕ) → i ≤ end → i ≤ (read_multiline_comment r i end).0
unfolding read_multiline_comment
read_multiline_comment_from r i end h =
    comment_loop_from r end (end - (i + 1)) (i + 1) i (omega arith) h
