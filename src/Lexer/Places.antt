-- ===== src/Lexer/Places.antt =====
-- The lines and columns of a script, told apart from the code, and that the lexer's moves keep them.
use tascript.Common.{
  ℕ, suc, ◌+◌, Bool, true, false, ◌||◌, ◌&&◌, not, [], ◌∷◌, ◌++◌, Str, ◌≡◌, refl, ap, ◌∙◌, arith,
  nat_beq, if◌then◌else◌, Bool-cases, inl, inr,
}
use tascript.Token.{Pos}
use tascript.Lexer.Cursor.{head_or_zero, ends_line}
use tascript.Lexer.Moves.{locate}

-- The text with each line ended by a line feed, as the language counts lines: a carriage return ends a
-- line, and one that a line feed follows does so together with it.
unfoldable pub unix : Str → Str
unix [] = []
unix (c ∷ cs) =
    let rest = unix cs in
    if nat_beq c b'\r'
    then (if nat_beq (head_or_zero cs) b'\n' then rest else b'\n' ∷ rest)
    else c ∷ rest

-- The line and the column behind a text whose lines end by line feeds.
unfoldable pub line_of : ℕ → Str → ℕ
line_of n [] = n
line_of n (c ∷ cs) = line_of (if nat_beq c b'\n' then suc n else n) cs

unfoldable pub col_of : ℕ → Str → ℕ
col_of n [] = n
col_of n (c ∷ cs) = col_of (if nat_beq c b'\n' then 1 else suc n) cs

abbrev pub place : Pos → Str → Pos
place p s = record { line = line_of p.line s; col = col_of p.col s }

head-feed :
    (cs rest : Str)
    → nat_beq (head_or_zero rest) b'\n' ≡ false
    → nat_beq (head_or_zero (cs ++ rest)) b'\n' ≡ nat_beq (head_or_zero cs) b'\n'
head-feed [] rest h = h
head-feed (c ∷ cs) rest h = refl

-- At a line feed the column is forgotten.
place-feed :
    (cs : Str) (line col col' : ℕ)
    → nat_beq (head_or_zero cs) b'\n' ≡ true
    → place (record { line = line; col = col }) (unix cs)
      ≡ place (record { line = line; col = col' }) (unix cs)
unfolding unix line_of col_of
place-feed [] line col col' h = cc
place-feed (c ∷ cs) line col col' h = ground arith

place_eq :
    {line line' col col' : ℕ}
    → line ≡ line'
    → col ≡ col'
    → (cs : Str)
    → place (record { line = line; col = col }) (unix cs)
      ≡ place (record { line = line'; col = col' }) (unix cs)
place_eq h k cs = rw (h, k) refl

-- One byte.
place-step :
    (c : ℕ) (cs : Str) (p : Pos)
    → place
        (record {
          line = if ends_line c (head_or_zero cs) then p.line + 1 else p.line;
          col = if ends_line c (head_or_zero cs) then 1 else p.col + 1;
        })
        (unix cs)
      ≡ place p (unix (c ∷ cs))
unfolding unix line_of col_of
place-step c cs p = elim (Bool-cases (nat_beq c b'\r')) [
  | inl r ↦
      let n : nat_beq c b'\n' ≡ false = ground arith in
      elim (Bool-cases (nat_beq (head_or_zero cs) b'\n')) [
        | inl f ↦ rw (r, n, f) (place-feed cs p.line (p.col + 1) p.col f)
        | inr f ↦ rw (r, n, f) (place_eq (omega arith) refl cs)
      ]
  | inr r ↦ elim (Bool-cases (nat_beq c b'\n')) [
    | inl f ↦ rw (r, f) (place_eq (ground arith) (ground arith) cs)
    | inr f ↦ rw (r, f) (place_eq (ground arith) (ground arith) cs)
  ]
]

pub locate-place :
    (s rest : Str) (p : Pos)
    → nat_beq (head_or_zero rest) b'\n' ≡ false
    → locate p s rest ≡ place p (unix s)
unfolding locate unix line_of col_of
locate-place [] rest p h = refl
locate-place (c ∷ cs) rest p h =
    let feed = nat_beq (head_or_zero (cs ++ rest)) b'\n' in
    let at : Bool → Pos = λ f. record {
      line = if nat_beq c b'\n' || nat_beq c b'\r' && not f then p.line + 1 else p.line;
      col = if nat_beq c b'\n' || nat_beq c b'\r' && not f then 1 else p.col + 1;
    } in
    locate-place cs rest (at feed) h
    ∙ ap (λ f. place (at f) (unix cs)) (head-feed cs rest h)
    ∙ place-step c cs p
