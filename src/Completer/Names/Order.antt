-- ===== src/Completer/Names/Order.antt =====
-- Sorting forgets the order of the names.
use mathlib.Core.List.{Permᴰ}
use mathlib.Core.Path.{ap₂}
use mathlib.Core.Bool.{true≢false}
use usql.Base.{
  ◌≡◌, refl, sym, ◌∙◌, ap, ℕ, true, false, inl, inr, List, [], ◌∷◌, arith, Runes, Bool-cases,
}
use usql.Completer.Names.{comes_before, insert, sort}

-- `comes_before` is a total order.
comes_before_total : (s t : Runes) → comes_before s t ≡ false → comes_before t s ≡ true
unfolding comes_before
comes_before_total [] t h = absurd (ground arith)
comes_before_total (c ∷ s) [] h = refl
comes_before_total (c ∷ s) (d ∷ t) h = ground (arith, comes_before_total s t)

comes_before_cons :
    (c d : ℕ) (s t : Runes)
    → comes_before (c ∷ s) (d ∷ t) ≡ true
    → comes_before (d ∷ t) (c ∷ s) ≡ true
    → (c ≡ d) × (comes_before s t ≡ true) × (comes_before t s ≡ true)
unfolding comes_before
comes_before_cons c d s t h k = (ground arith, ground arith, ground arith)

comes_before_antisym : (s t : Runes) → comes_before s t ≡ true → comes_before t s ≡ true → s ≡ t
unfolding comes_before
comes_before_antisym [] [] h k = refl
comes_before_antisym [] (d ∷ t) h k = absurd (ground arith)
comes_before_antisym (c ∷ s) [] h k = absurd (ground arith)
comes_before_antisym (c ∷ s) (d ∷ t) h k =
    let (head, there, back) = comes_before_cons c d s t h k in
    ap₂ (λ (e : ℕ) (u : Runes). e ∷ u) head (comes_before_antisym s t there back)

comes_before_trans :
    (s t u : Runes) → comes_before s t ≡ true → comes_before t u ≡ true → comes_before s u ≡ true
unfolding comes_before
comes_before_trans [] t u h k = refl
comes_before_trans (c ∷ s) [] u h k = absurd (ground arith)
comes_before_trans (c ∷ s) (d ∷ t) [] h k = absurd (ground arith)
comes_before_trans (c ∷ s) (d ∷ t) (e ∷ u) h k = ground (arith, comes_before_trans s t u)

-- The smaller string, or one already in its place, comes first.
insert_first :
    (s t : Runes) (ts : List Runes) → comes_before s t ≡ true → insert s (t ∷ ts) ≡ s ∷ t ∷ ts
unfolding insert
insert_first s t ts h = rw h refl

insert_later :
    (s t : Runes) (ts : List Runes) → comes_before s t ≡ false → insert s (t ∷ ts) ≡ t ∷ insert s ts
unfolding insert
insert_later s t ts h = rw h refl

-- Two strings that both come first change places.
both_first :
    (a b : Runes) (ss : List Runes)
    → insert a ss ≡ a ∷ ss
    → insert b ss ≡ b ∷ ss
    → insert a (b ∷ ss) ≡ insert b (a ∷ ss)
both_first a b ss h k = elim (Bool-cases (comes_before a b)) [
  | inl ab ↦ elim (Bool-cases (comes_before b a)) [
    | inl ba ↦
        ap₂ (λ (s t : Runes). insert s (t ∷ ss)) (comes_before_antisym a b ab ba)
          (comes_before_antisym b a ba ab)
    | inr ba ↦
        insert_first a b ss ab ∙ sym (insert_later b a ss ba ∙ ap (λ (l : List Runes). a ∷ l) k)
  ]
  | inr ab ↦
      insert_later a b ss ab
      ∙ ap (λ (l : List Runes). b ∷ l) h
      ∙ sym (insert_first b a ss (comes_before_total a b ab))
]

-- One comes first and the other does not.
one_first :
    (a b t : Runes) (ts : List Runes)
    → comes_before a t ≡ true
    → comes_before b t ≡ false
    → insert a (t ∷ insert b ts) ≡ insert b (a ∷ t ∷ ts)
one_first a b t ts h k = elim (Bool-cases (comes_before b a)) [
  | inl ba ↦ absurd (true≢false (sym (comes_before_trans b a t ba h) ∙ k))
  | inr ba ↦
      insert_first a t (insert b ts) h
      ∙ sym (insert_later b a (t ∷ ts) ba ∙ ap (λ (l : List Runes). a ∷ l) (insert_later b t ts k))
]

insert_swap : (a b : Runes) (ss : List Runes) → insert a (insert b ss) ≡ insert b (insert a ss)
insert_swap a b [] = (unfold insert in both_first a b [] refl refl)
insert_swap a b (t ∷ ts) = elim (Bool-cases (comes_before a t)) [
  | inl at ↦ elim (Bool-cases (comes_before b t)) [
    | inl bt ↦
        rw (insert_first a t ts at, insert_first b t ts bt)
          (both_first a b (t ∷ ts) (insert_first a t ts at) (insert_first b t ts bt))
    | inr bt ↦ rw (insert_first a t ts at, insert_later b t ts bt) (one_first a b t ts at bt)
  ]
  | inr at ↦ elim (Bool-cases (comes_before b t)) [
    | inl bt ↦ rw (insert_later a t ts at, insert_first b t ts bt) (sym (one_first b a t ts bt at))
    | inr bt ↦
        rw (insert_later a t ts at, insert_later b t ts bt)
          (insert_later a t (insert b ts) at
            ∙ ap (λ (l : List Runes). t ∷ l) (insert_swap a b ts)
            ∙ sym (insert_later b t (insert a ts) bt))
  ]
]

pub sort-Perm : {ss ts : List Runes} → Permᴰ ss ts → sort ss ≡ sort ts
unfolding sort
sort-Perm Permᴰ.nil = refl
sort-Perm (Permᴰ.cons e p) = ap₂ insert e (sort-Perm p)
sort-Perm (Permᴰ.swap {a' = x} {b' = y} {l = l} e f) =
    ap₂ insert e (ap₂ insert f refl) ∙ insert_swap y x (sort l)
sort-Perm (Permᴰ.trans p q) = sort-Perm p ∙ sort-Perm q
