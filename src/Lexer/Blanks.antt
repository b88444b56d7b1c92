-- ===== src/Lexer/Blanks.antt =====
-- Where the two loops of `NextToken` stop, with the fuel that it gives them.
use tascript.Common.{
  ℕ, zero, suc, ◌≤◌, ◌<◌, Bool, true, false, not, ◌&&◌, ◌||◌, [], ◌∷◌, Str, length, ◌≡◌, ◌≢◌, refl,
  arith, ◌∙◌, if-elim_eq, nat_beq, leb, Bool-cases, inl, inr,
}
use mathlib.Core.Path.{subst}
use tascript.Lexer.Cursor.{
  Lexer, curr_char, eof, is_nil, head_or_zero, advance, at_newline, is_newline, is_blank,
  is_comment_start, skip_comment_line, skip_comment, skip_blanks, skip_newlines,
}
use tascript.Lexer.Moves.{Moves-length, length-advance, length-pos, skip_comment-Moves}

false_ne_true : false ≢ true
false_ne_true e = cc

-- The cursor is at no blank and at no comment; `newlines` says that it may be at a line end.
pub data Stopped (depth : ℕ) (newlines : Bool) : Lexer → Type 0 where
  stopped :
      (m : Lexer)
      → m.bracket_depth ≡ depth
      → (at_newline m ≡ true → newlines ≡ true)
      → is_blank (curr_char m) ≡ false
      → is_comment_start m ≡ false
      → Stopped depth newlines m

-- A comment ends at a line end or at the end of the input.
data EndsComment (depth : ℕ) : Lexer → Type 0 where
  ends_comment :
      (m : Lexer) → m.bracket_depth ≡ depth → (eof m || at_newline m) ≡ true → EndsComment depth m

eof-char : (l : Lexer) → eof l ≡ true → curr_char l ≡ 0
eof-char l h = of_rest l.rest h
  where
    of_rest : (s : Str) → is_nil s ≡ true → head_or_zero s ≡ 0
    of_rest [] h = refl
    of_rest (c ∷ cs) h = cc

char-eof : (l : Lexer) → curr_char l ≢ 0 → eof l ≡ false
char-eof l h = elim (Bool-cases (eof l)) [ inl e ↦ absurd (h (eof-char l e)) | inr e ↦ e ]

skip_comment_line-EndsComment :
    (f : ℕ) (l : Lexer) → length l.rest ≤ f → EndsComment l.bracket_depth (skip_comment_line f l)
unfolding skip_comment_line advance
skip_comment_line-EndsComment zero l h = ends_comment l refl (at_end l.rest h)
  where
    at_end : (s : Str) → length s ≤ 0 → (is_nil s || is_newline (head_or_zero s)) ≡ true
    at_end [] h = refl
    at_end (c ∷ cs) h = absurd (omega arith)
skip_comment_line-EndsComment (suc f) l h =
    if-elim_eq (EndsComment l.bracket_depth) (eof l || at_newline l) (λ e. ends_comment l refl e)
      (λ e. skip_comment_line-EndsComment f (advance l) (omega (arith, length-advance l)))

-- After a comment, or where none starts.
data NoComment (depth : ℕ) : Lexer → Type 0 where
  no_comment :
      (m : Lexer) → m.bracket_depth ≡ depth → is_comment_start m ≡ false → NoComment depth m

EndsComment-NoComment : {d : ℕ} {m : Lexer} → EndsComment d m → NoComment d m
EndsComment-NoComment (ends_comment m h e) = no_comment m h (ground (arith, eof-char m))

skip_comment-NoComment : (l : Lexer) → NoComment l.bracket_depth (skip_comment l)
unfolding skip_comment
skip_comment-NoComment l =
    if-elim_eq (NoComment l.bracket_depth) (is_comment_start l)
      (λ _. EndsComment-NoComment (skip_comment_line-EndsComment (length l.rest) l (omega arith)))
      (λ e. no_comment l refl e)

NoComment-parts :
    {d : ℕ} {m : Lexer} → NoComment d m → (m.bracket_depth ≡ d) × (is_comment_start m ≡ false)
NoComment-parts (no_comment m h e) = (h, e)

Stopped-depth : {d : ℕ} {b : Bool} {m : Lexer} → Stopped d b m → m.bracket_depth ≡ d
Stopped-depth (stopped m h _ _ _) = h

Stopped-eof : (b : Bool) (l : Lexer) → eof l ≡ true → Stopped l.bracket_depth b l
Stopped-eof b l e = at_zero (eof-char l e)
  where
    at_zero : curr_char l ≡ 0 → Stopped l.bracket_depth b l
    at_zero z = stopped l refl (rw z (λ h. cc)) (rw z) (rw z)

-- The same loop state with the depth of an earlier one.
Stopped-at : {d e : ℕ} {m : Lexer} → d ≡ e → Stopped d (nat_beq d 0) m → Stopped e (nat_beq e 0) m
Stopped-at p s = rw p at s

advance-depth : (l : Lexer) → (advance l).bracket_depth ≡ l.bracket_depth
unfolding advance
advance-depth l = refl

pub skip_blanks-Stopped :
    (f : ℕ) (l : Lexer)
    → length l.rest < f
    → Stopped l.bracket_depth (nat_beq l.bracket_depth 0) (skip_blanks f l)
unfolding skip_blanks
skip_blanks-Stopped zero l h = absurd (omega arith)
skip_blanks-Stopped (suc f) l h =
    let P = Stopped l.bracket_depth (nat_beq l.bracket_depth 0) in
    let l' = skip_comment l in
    let parts = NoComment-parts (skip_comment-NoComment l) in
    let again : eof l ≡ false → P (skip_blanks f (advance l')) = λ e.
      Stopped-at (advance-depth l' ∙ parts.0) (
        skip_blanks-Stopped f (advance l') (
          omega (arith, length-advance l', length-pos l e, Moves-length (skip_comment-Moves l)))) in
    if-elim_eq P (eof l) (Stopped-eof _ l) λ e.
      if-elim_eq P (at_newline l' && leb 1 l'.bracket_depth) (λ _. again e)
        λ e₁.
          if-elim_eq P (not (is_blank (curr_char l')))
            (λ e₂. stopped l' parts.0 (λ n. ground arith) (ground arith) parts.1) (λ _. again e)

pub skip_newlines-Stopped :
    (f : ℕ) (l : Lexer)
    → length l.rest ≤ f
    → eof l ≡ false
    → Stopped l.bracket_depth false (skip_newlines f l)
unfolding skip_newlines
skip_newlines-Stopped zero l h e = absurd (omega (arith, length-pos l e))
skip_newlines-Stopped (suc f) l h e =
    let P = Stopped l.bracket_depth false in
    let l' = skip_comment (advance l) in
    let parts = NoComment-parts (skip_comment-NoComment (advance l)) in
    let same : l'.bracket_depth ≡ l.bracket_depth = parts.0 ∙ advance-depth l in
    let again : curr_char l' ≢ 0 → P (skip_newlines f l') = λ z.
      subst (λ d. Stopped d false (skip_newlines f l')) same
        (skip_newlines-Stopped f l'
          (omega (
            arith,
            length-advance l,
            length-pos l e,
            Moves-length (skip_comment-Moves (advance l)),
          ))
          (char-eof l' z)) in
    if-elim_eq P (is_blank (curr_char l') || nat_beq (curr_char l') b'\r')
      (λ e₁. again (λ z. ground arith))
      λ e₁.
        if-elim_eq P (eof l' || not (nat_beq (curr_char l') b'\n'))
          (λ e₂. stopped l' same (λ n. ground (arith, eof-char l')) (ground arith) parts.1)
          (λ e₂. again (λ z. ground arith))

-- Where the first loop has stopped it does nothing more.
pub skip_blanks_idem : {d : ℕ} {m : Lexer} (f : ℕ) → Stopped d false m → skip_blanks (suc f) m ≡ m
unfolding skip_blanks skip_comment
skip_blanks_idem f (stopped m h n b c) = elim (Bool-cases (at_newline m)) [
  | inl e ↦ absurd (false_ne_true (n e))
  | inr e ↦ ground arith
]

pub Stopped-newline : {d : ℕ} {m : Lexer} → Stopped d false m → at_newline m ≡ false
Stopped-newline (stopped m h n b c) = elim (Bool-cases (at_newline m)) [
  | inl e ↦ absurd (false_ne_true (n e))
  | inr e ↦ e
]

pub Stopped-brackets :
    {d : ℕ} {m : Lexer} → Stopped d (nat_beq d 0) m → 0 < d → at_newline m ≡ false
Stopped-brackets {d} (stopped m h n b c) p = ground (arith, n)
