-- ===== src/Stmt/Buffer/Raw.antt =====
-- `RawString` puts the variables' spellings back where their values stand.
use mathlib.Core.Path.{ap₂}
use usql.Base.{
  ℕ, ◌+◌, ◌-◌, ◌≤◌, ◌<◌, ◌≡◌, ◌≢◌, refl, sym, ap, ◌∙◌, true, false, inl, inr, some, List, [], ◌∷◌,
  ◌++◌, append_assoc, append-nil, arith, Runes, Bytes, length, take, drop, ltb, leb, Bool-cases,
  length-append, length-drop, ltb→le, drop-drop, utf8, encode_rune, encodable, take_append_length,
  drop_append_length,
}
use usql.Stmt.Buffer.{Stmt, runes, spelled, raw_loop, raw_string}
use usql.Stmt.Scan.{slice}
use usql.Stmt.Variable.{Var}

-- How a variable is written in a line: behind a colon, in its quotes if it has any, or a rune behind a backslash.
pub data Spells (v : Var) : Runes → Type 0 where
  bare : v.quote ≡ 0 → Spells v (b':' ∷ v.name)
  in_quotes : v.quote ≡ b'\'' → Spells v (b':' ∷ b'\'' ∷ (v.name ++ b'\'' ∷ []))
  in_double_quotes : v.quote ≡ b'"' → Spells v (b':' ∷ b'"' ∷ (v.name ++ b'"' ∷ []))
  escaped : v.quote ≡ b'\\' → Spells v (b'\\' ∷ v.name)

-- A part of a statement: a text followed by a variable, its value and how it was written, or a variable
-- that is not defined, whose spelling is in the text.
pub data Piece : Type 0 where
  bound : Runes → Var → Runes → Runes → Piece
  free : Var → Piece

abbrev pub vars_of : List Piece → List Var
vars_of [] = []
vars_of (bound l v z w ∷ ps) = v ∷ vars_of ps
vars_of (free v ∷ ps) = v ∷ vars_of ps

-- The statement with the values, and with the spellings, of its variables.
abbrev pub text_of : List Piece → Runes → Runes
text_of [] rest = rest
text_of (bound l v z w ∷ ps) rest = l ++ (z ++ text_of ps rest)
text_of (free v ∷ ps) rest = text_of ps rest

abbrev pub raw_of : List Piece → Runes → Bytes
raw_of [] rest = rest
raw_of (bound l v z w ∷ ps) rest = l ++ (w ++ raw_of ps rest)
raw_of (free v ∷ ps) rest = raw_of ps rest

abbrev pub IsAscii : Runes → Type 0
IsAscii [] = Unit {0}
IsAscii (c ∷ s) = (c < 128) × IsAscii s

-- Every defined variable has the position and the length of its value, from position `i` on, and an ASCII
-- name, and was written as the piece says.
abbrev pub ArePlaced : ℕ → List Piece → Type 0
ArePlaced i [] = Unit {0}
ArePlaced i (bound l v z w ∷ ps) =
    (v.i ≡ i + length l)
    × (v.len ≡ length z)
    × (v.defined ≡ true)
    × IsAscii v.name
    × Spells v w
    × ArePlaced (i + length l + length z) ps
ArePlaced i (free v ∷ ps) = (v.defined ≡ false) × ArePlaced i ps

encode_ascii : (c : ℕ) → c < 128 → encode_rune (encodable c) ≡ c ∷ []
unfolding encode_rune
encode_ascii c h = ground arith

pub utf8_ascii : (s : Runes) → IsAscii s → utf8 s ≡ s
unfolding utf8
utf8_ascii [] h = refl
utf8_ascii (c ∷ s) (low, rest) = rw (encode_ascii c low, utf8_ascii s rest)

spelled_lem : (v : Var) (w : Runes) → IsAscii v.name → Spells v w → spelled v ≡ w
unfolding spelled utf8 encode_rune
spelled_lem v w ascii (bare q) = rw (q, utf8_ascii v.name ascii, append-nil v.name)
spelled_lem v w ascii (in_quotes q) = rw (q, utf8_ascii v.name ascii)
spelled_lem v w ascii (in_double_quotes q) = rw (q, utf8_ascii v.name ascii)
spelled_lem v w ascii (escaped q) = rw (q, utf8_ascii v.name ascii, append-nil v.name)

le→leb : (a b : ℕ) → a ≤ b → leb a b ≡ true
le→leb a b h = ground arith

nil_of : (s : Runes) → length s ≤ 0 → s ≡ []
nil_of [] h = refl
nil_of (c ∷ s) h = absurd (omega arith)

-- What a text shows at its cut.
cut_here :
    (s : Bytes) (i : ℕ) (l t : Bytes)
    → drop i s ≡ l ++ t
    → (take (i + length l - i) (drop i s) ≡ l) × (drop (i + length l) s ≡ t)
cut_here s i l t h = (
  ap (λ (n : ℕ). take n (drop i s)) (minus i (length l))
      ∙ ap (take (length l)) h
      ∙ take_append_length l t,
  sym (drop-drop s i (length l)) ∙ ap (drop (length l)) h ∙ drop_append_length l t,
)
  where
    minus : (a b : ℕ) → a + b - a ≡ b
    minus a b = omega arith

raw_bound :
    (s : Bytes) (i : ℕ) (l : Bytes) (v : Var) (vars : List Var) (t out : Bytes)
    → i ≤ length s
    → drop i s ≡ l ++ t
    → v.i ≡ i + length l
    → v.defined ≡ true
    → raw_loop s (v ∷ vars) i out ≡ raw_loop s vars (v.i + v.len) (out ++ (l ++ spelled v))
unfolding raw_loop
raw_bound s i l v vars t out inside h placed defined =
    let sliced : slice s i v.i ≡ l =
      ap (λ (n : ℕ). take (n - i) (drop i s)) placed ∙ (cut_here s i l t h).0 in
    let size : length s ≡ i + (length l + length t) =
      omega (arith, length-drop i s, ap length h, length-append l t) in
    elim (Bool-cases (ltb i (length s))) [
      | inl more ↦
          rw
            (defined, more, le→leb i v.i (omega arith), le→leb v.i (length s) (omega arith), sliced)
            (ap (raw_loop s vars (v.i + v.len)) refl)
      | inr over ↦
          let empty : l ≡ [] = nil_of l (omega (arith, ltb→le i (length s) over)) in
          rw (defined, over, empty) refl
    ]

raw_rest :
    (s : Bytes) (rest : Runes) (i : ℕ) (out : Bytes)
    → drop i s ≡ rest
    → i ≤ length s
    → raw_loop s [] i out ≡ some (out ++ rest)
unfolding raw_loop
raw_rest s rest i out h inside = elim (Bool-cases (ltb i (length s))) [
  | inl more ↦ rw (more, h) refl
  | inr over ↦
      let empty : rest ≡ [] =
        nil_of rest (omega (arith, ltb→le i (length s) over, length-drop i s, ap length h)) in
      rw (over, empty) (ap some (sym (append-nil out)))
]

raw_free :
    (s : Bytes) (v : Var) (vars : List Var) (i : ℕ) (out : Bytes)
    → v.defined ≡ false
    → raw_loop s (v ∷ vars) i out ≡ raw_loop s vars i out
unfolding raw_loop
raw_free s v vars i out undefined = rw undefined refl

raw_loop_lem :
    (s : Bytes) (ps : List Piece) (rest : Runes) (i : ℕ) (out : Bytes)
    → i ≤ length s
    → drop i s ≡ text_of ps rest
    → ArePlaced i ps
    → raw_loop s (vars_of ps) i out ≡ some (out ++ raw_of ps rest)
raw_loop_lem s [] rest i out inside h p = raw_rest s rest i out h inside
raw_loop_lem s (bound l v z w ∷ ps) rest i out inside h (at, len, defined, ascii, spells, p) =
    let after = text_of ps rest in
    let j = i + length l + length z in
    let here : v.i + v.len ≡ j = omega (arith, at, len) in
    let behind : drop j s ≡ after =
      (cut_here s (i + length l) z after ((cut_here s i l (z ++ after) h).1)).1 in
    let size : j ≤ length s =
      omega (
        arith,
        length-drop i s,
        ap length h,
        length-append l (z ++ after),
        length-append z after,
      ) in
    raw_bound s i l v (vars_of ps) (z ++ after) out inside h at defined
    ∙ ap (λ (n : ℕ). raw_loop s (vars_of ps) n (out ++ (l ++ spelled v))) here
    ∙ ap (λ (x : Bytes). raw_loop s (vars_of ps) j (out ++ (l ++ x))) (spelled_lem v w ascii spells)
    ∙ raw_loop_lem s ps rest j (out ++ (l ++ w)) size behind p
    ∙ ap some (simp append_assoc)
raw_loop_lem s (free v ∷ ps) rest i out inside h (undefined, p) =
    raw_free s v (vars_of ps) i out undefined ∙ raw_loop_lem s ps rest i out inside h p

-- In an ASCII buffer that is not empty, whose variables carry the positions and lengths of their values and
-- have ASCII names, `RawString` is the text with each variable in place of its value, as a line spells it:
-- behind a colon and in its quotes, or behind a backslash; what is not a variable's value stays, variables
-- that are not defined included.
pub raw_string_lem :
    (b : Stmt) (ps : List Piece) (rest : Runes)
    → b.len ≢ 0
    → IsAscii (runes b.buf)
    → runes b.buf ≡ text_of ps rest
    → b.vars ≡ vars_of ps
    → ArePlaced 0 ps
    → raw_string b ≡ some (raw_of ps rest)
unfolding raw_string
raw_string_lem b ps rest some_text ascii text vars placed =
    let bytes = utf8_ascii (runes b.buf) ascii ∙ text in
    ground (
      arith,
      ap₂ (λ (s : Bytes) (vs : List Var). raw_loop s vs 0 []) bytes vars,
      raw_loop_lem (text_of ps rest) ps rest 0 [] (omega arith) refl placed,
    )
