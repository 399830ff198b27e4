-- ===== src/Handler/Batch/Gathering.antt =====
-- The statements of a batch are gathered and executed as one.
use usql.Base.{
  ◌≡◌, ◌≢◌, refl, sym, ◌∙◌, Bool, true, false, ◌||◌, Option, none, some, List, [], ◌∷◌, ◌++◌, ◌==◌,
  if◌then◌else◌, Runes, Bytes, codes, same, same_refl, ≢→same, arith, ℕ,
}
use usql.Drivers.Batch.{Driver, is_batch_query_prefix}
use usql.Handler.Batch.{
  Handler, Step, waiting, refused, execute, panicked, force_batch, launch, take_last, flush, lend,
  add_last, gather_in, gather,
}
use usql.Stmt.Buffer.{Stmt, string, raw_string, reset}
use usql.Stmt.Rune.{Unicode}

module _ ⦃uc : Unicode⦄ where
  -- The rounds on statements, each in the buffer when its round comes, up to the first round that does not
  -- wait for the next line.
  unfoldable pub feed : Handler → List Stmt → Step
  feed h [] = waiting h
  feed h (b ∷ bs) = elim (gather false false (record h { buf = b })) [
    | waiting h' ↦ feed h' bs
    | refused h' e ↦ refused h' e
    | execute h' p s forced ↦ execute h' p s forced
    | panicked ↦ panicked
  ]

  -- A text with the statements added to it, each on a new line.
  abbrev pub joined : Runes → List Stmt → Runes
  joined s [] = s
  joined s (b ∷ bs) = joined (s ++ b'\n' ∷ string b) bs

  -- What is known of a statement: it is ready, and has its type and a raw text.
  pub record IsStatement (d : Option Driver) (b : Stmt) (typ end : Runes) (opens : Bool)
      : Type 0 where
    pub ready : b.ready ≡ true
    pub prefix : is_batch_query_prefix d b.prefix ≡ record { typ = typ; end = end; opens = opens }
    pub raw : (s : Bytes) × (raw_string b ≡ some s)

  -- Inside a batch that `end` closes, these statements do not close it and open no other.
  abbrev pub AreInside : Option Driver → Runes → List Stmt → Type 0
  AreInside d end [] = Unit {0}
  AreInside d end (b ∷ bs) =
      ((typ : Runes) × (typ ≢ end) × IsStatement d b typ [] false) × AreInside d end bs

  if_true {ℓ} : {A : Type ℓ} (c : Bool) (x y : A) → c ≡ true → (if c then x else y) ≡ x
  if_true true x y e = refl
  if_true false x y e = absurd (ground (arith, e))

  not_zero : (n : ℕ) → n ≢ 0 → (n == 0) ≡ false
  not_zero n h = ground arith

  module _ (d : Option Driver) (end : Runes) where
    -- The handler inside the batch.
    abbrev inside : Stmt → Runes → Runes → Bytes → Handler
    inside b last prefix raw = record {
      buf = b;
      last = last;
      last_prefix = prefix;
      last_raw = raw;
      batch = true;
      batch_end = end;
      u = some d;
    }

    -- A text of a line and more is no semicolon alone.
    two_runes : (c : ℕ) (last s : Runes) → same ((c ∷ last) ++ b'\n' ∷ s) (codes ";") ≡ false
    two_runes c [] s = ground arith
    two_runes c (e ∷ last) s = ground arith

    inside_step :
        (b : Stmt) (c : ℕ) (last prefix : Runes) (raw : Bytes) (typ : Runes)
        → typ ≢ end
        → (st : IsStatement d b typ [] false)
        → gather false false (inside b (c ∷ last) prefix raw)
          ≡ waiting (
              inside
                (reset none b)
                ((c ∷ last) ++ b'\n' ∷ string b)
                b.prefix
                (raw ++ b'\n' ∷ st.raw.0))
    unfolding gather gather_in add_last lend
    inside_step b c last prefix raw typ other st =
        if_true (false || b.ready || false) _ _ (ground (arith, st.ready))
        ∙ rw (st.prefix, ≢→same typ end other, st.raw.1, ≢→same end typ (λ e. other (sym e))) refl

    close_step :
        (b : Stmt) (c : ℕ) (last prefix : Runes) (raw : Bytes)
        → IsStatement d b end [] false
        → (h : Handler) × (gather false false (inside b (c ∷ last) prefix raw)
            ≡ execute h end
                ((c ∷ last) ++ b'\n' ∷ string b)
                (force_batch (some d) ((c ∷ last) ++ b'\n' ∷ string b)))
          × (h.batch ≡ false)
    unfolding gather gather_in add_last lend flush launch force_batch reset
    close_step b c last prefix raw st = (
      record (inside (reset none b) ((c ∷ last) ++ b'\n' ∷ string b) end
          (raw ++ b'\n' ∷ st.raw.0)) { batch = false; batch_end = [] },
      if_true (false || b.ready || false) _ _ (ground (arith, st.ready))
          ∙ rw (st.prefix, same_refl end, st.raw.1, same_refl end, two_runes c last (string b))
              refl,
      refl,
    )

    -- The handler outside any batch.
    abbrev pub outside : Stmt → Runes → Runes → Bytes → Handler
    outside b last prefix raw = record (inside b last prefix raw) { batch = false; batch_end = [] }

    open_step :
        (b : Stmt) (last prefix : Runes) (raw : Bytes) (typ : Runes)
        → b.len ≢ 0
        → (st : IsStatement d b typ end true)
        → gather false false (outside b last prefix raw)
          ≡ waiting (inside (reset none b) (string b) b.prefix st.raw.0)
    unfolding gather gather_in flush take_last launch
    open_step b last prefix raw typ some_text st =
        if_true (false || b.ready || false) _ _ (ground (arith, st.ready))
        ∙ rw (st.prefix, not_zero b.len some_text, st.raw.1) refl

    inside-feed :
        (b : Stmt) (c : ℕ) (last prefix : Runes) (raw : Bytes) (bs : List Stmt) (close : Stmt)
        → AreInside d end bs
        → IsStatement d close end [] false
        → (h : Handler) × (feed (inside b (c ∷ last) prefix raw) (bs ++ close ∷ [])
            ≡ execute h end
                (joined (c ∷ last) (bs ++ close ∷ []))
                (force_batch (some d) (joined (c ∷ last) (bs ++ close ∷ []))))
          × (h.batch ≡ false)
    unfolding feed
    inside-feed b c last prefix raw [] close all st =
        let (h, is, closed) = close_step close c last prefix raw st in
        (h, rw (is, feed) refl, closed)
    inside-feed b c last prefix raw (m ∷ ms) close ((typ, other, here), all) st =
        let (h, is, closed) =
          inside-feed (reset none m) c (last ++ b'\n' ∷ string m) m.prefix
            (raw ++ b'\n' ∷ here.raw.0) ms close all st in
        (h, rw (inside_step m c last prefix raw typ other here, feed) is, closed)

    -- Outside a batch, a statement that opens one, others that neither close it nor open another, and one
    -- that closes it are executed as one statement: their texts joined by line ends, with the closing prefix.
    -- Whether a transaction is forced goes by that text, and the batch is then over. Every statement is
    -- ready, has a raw text, and the first one is not empty.
    pub feed-execute :
        (first : Stmt) (c : ℕ) (text last prefix : Runes) (raw : Bytes) (typ : Runes)
        (bs : List Stmt) (close : Stmt)
        → first.len ≢ 0
        → string first ≡ c ∷ text
        → IsStatement d first typ end true
        → AreInside d end bs
        → IsStatement d close end [] false
        → (h : Handler) × (feed (outside first last prefix raw) (first ∷ (bs ++ close ∷ []))
            ≡ execute h end
                (joined (c ∷ text) (bs ++ close ∷ []))
                (force_batch (some d) (joined (c ∷ text) (bs ++ close ∷ []))))
          × (h.batch ≡ false)
    unfolding feed
    feed-execute first c text last prefix raw typ bs close some_text is_text st all closes =
        let (h, is, closed) =
          inside-feed (reset none first) c text first.prefix st.raw.0 bs close all closes in
        (h, rw (open_step first last prefix raw typ some_text st, is_text, feed) is, closed)
