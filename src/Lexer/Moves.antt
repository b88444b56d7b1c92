-- ===== src/Lexer/Moves.antt =====
-- The lexer moves by `advance` alone, and changes its bracket depth: what that says of the bytes
-- that are left and of the position.
use tascript.Common.{
  ℕ, zero, suc, ◌+◌, ◌-◌, ◌≤◌, ◌<◌, Bool, false, [], ◌∷◌, ◌++◌, Str, length, ◌≡◌, refl, arith,
  if◌then◌else◌, if-elim, ap, nat_beq,
}
use tascript.Token.{Pos}
use tascript.Lexer.Cursor.{
  Lexer, advance, tail, head_or_zero, ends_line, pos, skip_comment_line, skip_comment, skip_blanks,
  skip_newlines, eof, curr_char, peek, is_newline,
}
use tascript.Lexer.Scan.{
  read_ident, read_number, read_string, close, StringScan, failed, or_error, unterminated, unescape,
  escape_error, nul_byte,
}

pub data Moves : Lexer → Lexer → Type 0 where
  stay : {l : Lexer} → Moves l l
  step : {l l' : Lexer} → Moves (advance l) l' → Moves l l'
  brackets : {l l' : Lexer} (d : ℕ) → Moves (record l { bracket_depth = d }) l' → Moves l l'

pub Moves-trans : {l m n : Lexer} → Moves l m → Moves m n → Moves l n
Moves-trans stay k = k
Moves-trans (step h) k = step (Moves-trans h k)
Moves-trans (brackets d h) k = brackets d (Moves-trans h k)

pub Moves-advance : {l m : Lexer} → Moves l m → Moves l (advance m)
Moves-advance h = Moves-trans h (step stay)

pub length-advance : (l : Lexer) → length (advance l).rest ≡ length l.rest - 1
unfolding advance
length-advance l = of_rest l.rest
  where
    of_rest : (s : Str) → length (tail s) ≡ length s - 1
    of_rest [] = omega arith
    of_rest (c ∷ cs) = omega arith

-- The bytes left never grow.
pub Moves-length : {l m : Lexer} → Moves l m → length m.rest ≤ length l.rest
Moves-length stay = omega arith
Moves-length (step {l} h) = omega (arith, Moves-length h, length-advance l)
Moves-length (brackets d h) = Moves-length h

pub length-pos : (l : Lexer) → eof l ≡ false → 0 < length l.rest
length-pos l h = of_rest l.rest h
  where
    of_rest : (s : Str) → eof (record l { rest = s }) ≡ false → 0 < length s
    of_rest [] h = cc
    of_rest (c ∷ cs) h = omega arith

-- The position behind the bytes `passed`, which start at `p` and have the bytes `rest` after them.
unfoldable pub locate : Pos → Str → Str → Pos
locate p [] rest = p
locate p (c ∷ cs) rest =
    let newline = ends_line c (head_or_zero (cs ++ rest)) in
    locate
      (record {
        line = if newline then p.line + 1 else p.line;
        col = if newline then 1 else p.col + 1;
      })
      cs rest

-- What lies between two states: the bytes passed and the position that they lead to.
pub record Between (l m : Lexer) : Type 0 where
  pub passed : Str
  pub split : l.rest ≡ passed ++ m.rest
  pub located : pos m ≡ locate (pos l) passed m.rest

Between-advance :
    (l m : Lexer) (s : Str)
    → 0 < length s
    → Between (advance (record l { rest = s })) m
    → Between (record l { rest = s }) m
unfolding advance locate
Between-advance l m [] h b = absurd (omega arith)
Between-advance l m (c ∷ cs) h b = record {
  passed = c ∷ b.passed;
  split = ap (λ t. c ∷ t) b.split;
  located = rw (← b.split) b.located;
}

-- At the end of the input `advance` passes no byte and still moves the column, so the position is
-- that of the bytes passed while bytes are left.
pub Moves-Between : {l m : Lexer} → Moves l m → 0 < length m.rest → Between l m
unfolding locate
Moves-Between stay h = record { passed = []; split = refl; located = refl }
Moves-Between {m} (step {l} k) h =
    Between-advance l m l.rest (omega (arith, Moves-length k, length-advance l)) (Moves-Between k h)
Moves-Between {m} (brackets {l} d k) h =
    let b = Moves-Between k h in record { passed = b.passed; split = b.split; located = b.located }

-- The loops move.
pub skip_comment_line-Moves : (f : ℕ) (l : Lexer) → Moves l (skip_comment_line f l)
unfolding skip_comment_line
skip_comment_line-Moves zero l = stay
skip_comment_line-Moves (suc f) l =
    if-elim (Moves l) _ stay (step (skip_comment_line-Moves f (advance l)))

pub skip_comment-Moves : (l : Lexer) → Moves l (skip_comment l)
unfolding skip_comment
skip_comment-Moves l = if-elim (Moves l) _ (skip_comment_line-Moves _ l) stay

pub skip_blanks-Moves : (f : ℕ) (l : Lexer) → Moves l (skip_blanks f l)
unfolding skip_blanks
skip_blanks-Moves zero l = stay
skip_blanks-Moves (suc f) l =
    let m = skip_comment-Moves l in
    let next = Moves-trans m (step (skip_blanks-Moves f (advance (skip_comment l)))) in
    if-elim (Moves l) _ stay (if-elim (Moves l) _ next (if-elim (Moves l) _ m next))

pub skip_newlines-Moves : (f : ℕ) (l : Lexer) → Moves l (skip_newlines f l)
unfolding skip_newlines
skip_newlines-Moves zero l = stay
skip_newlines-Moves (suc f) l =
    let m = step (skip_comment-Moves (advance l)) in
    let next = Moves-trans m (skip_newlines-Moves f (skip_comment (advance l))) in
    if-elim (Moves l) _ next (if-elim (Moves l) _ m next)

-- The newline loop passes at least one byte.
pub skip_newlines-after : (f : ℕ) (l : Lexer) → Moves (advance l) (skip_newlines (suc f) l)
unfolding skip_newlines
skip_newlines-after f l =
    let P = Moves (advance l) in
    let m = skip_comment-Moves (advance l) in
    let next = Moves-trans m (skip_newlines-Moves f (skip_comment (advance l))) in
    if-elim P _ next (if-elim P _ m next)

pub read_ident-Moves : (f : ℕ) (l : Lexer) → Moves l (read_ident f l).1
unfolding read_ident
read_ident-Moves zero l = stay
read_ident-Moves (suc f) l =
    if-elim (λ (r : Str × Lexer). Moves l r.1) _ (step (read_ident-Moves f (advance l))) stay

pub read_number-Moves : (f : ℕ) (dotted : Bool) (l : Lexer) → Moves l (read_number f dotted l).2
unfolding read_number
read_number-Moves zero dotted l = stay
read_number-Moves (suc f) dotted l =
    if-elim (λ (r : Str × Bool × Lexer). Moves l r.2) _ (step (read_number-Moves f _ (advance l)))
      stay

-- What `read_string` leaves is reached from `l`.
data EndsAfter (l : Lexer) : StringScan → Type 0 where
  ends : (r : StringScan) → Moves l r.after → EndsAfter l r

EndsAfter-Moves : {l : Lexer} {r : StringScan} → EndsAfter l r → Moves l r.after
EndsAfter-Moves (ends r h) = h

close-EndsAfter : (text e : Str) {l m : Lexer} → Moves l m → EndsAfter l (close text e m)
close-EndsAfter text [] h = ends _ h
close-EndsAfter text (c ∷ cs) h = ends _ h

EndsAfter-trans : {l m : Lexer} {r : StringScan} → Moves l m → EndsAfter m r → EndsAfter l r
EndsAfter-trans h (ends r k) = ends r (Moves-trans h k)

read_string-EndsAfter : (f : ℕ) (text e : Str) (l : Lexer) → EndsAfter l (read_string f text e l)
unfolding read_string
read_string-EndsAfter zero text e l = ends _ stay
read_string-EndsAfter (suc f) text e l =
    let P = EndsAfter l in
    let l₁ = advance l in
    let l₂ = advance l₁ in
    let one : Moves l l₁ = step stay in
    let two : Moves l l₂ = step (step stay) in
    let c = curr_char l₁ in
    let escaped = unescape (curr_char l₂) in
    let again =
      λ (text' : Str) (e' : Str). EndsAfter-trans one (read_string-EndsAfter f text' e' l₁) in
    if-elim P (is_newline (peek l)) (ends (failed unterminated l) stay) (
      if-elim P (eof l₁) (ends (failed (or_error e unterminated) l₁) one) (
        if-elim P (nat_beq c 0) (again text (or_error e nul_byte)) (
          if-elim P (nat_beq c b'"') (close-EndsAfter text e one) (
            if-elim P (nat_beq c b'\\')
              (if-elim P (is_newline (peek l₁)) (ends (failed unterminated l₁) one) (
                if-elim P (eof l₂) (ends (failed unterminated l₂) two) (
                  EndsAfter-trans two (
                    read_string-EndsAfter f (text ++ escaped) (or_error e (escape_error escaped))
                      l₂))))
              (again (text ++ c ∷ []) e)))))

pub read_string-Moves : (f : ℕ) (text e : Str) (l : Lexer) → Moves l (read_string f text e l).after
read_string-Moves f text e l = EndsAfter-Moves (read_string-EndsAfter f text e l)
