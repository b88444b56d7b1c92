-- ===== src/Lexer/Cursor.antt =====
-- lexer/lexer.go: the lexer's state and the loops that move it. `rest` is `src[currCursor:]`, so its
-- first byte is `currChar`, its second is `peek()`, and it is empty at the end of the input. Each
-- loop takes the number of bytes left as its fuel, and moves at least one byte in a round.
use tascript.Common.{
  ℕ, zero, suc, ◌+◌, Bool, true, false, not, ◌&&◌, ◌||◌, [], ◌∷◌, Str, nat_beq, leb, length,
  if◌then◌else◌, codes,
}
use tascript.Token.{Pos, is_ident_part}

pub record Lexer : Type 0 where
  pub rest : Str
  pub line : ℕ
  pub col : ℕ
  pub bracket_depth : ℕ

-- The state after the first `advance` of `New`.
abbrev pub new : Str → Lexer
new input = record { rest = input; line = 1; col = 1; bracket_depth = 0 }

abbrev pub head_or_zero : Str → ℕ
head_or_zero [] = 0
head_or_zero (c ∷ cs) = c

abbrev pub tail : Str → Str
tail [] = []
tail (c ∷ cs) = cs

abbrev pub curr_char : Lexer → ℕ
curr_char l = head_or_zero l.rest

abbrev pub peek : Lexer → ℕ
peek l = head_or_zero (tail l.rest)

abbrev pub is_nil : Str → Bool
is_nil [] = true
is_nil (c ∷ cs) = false

abbrev pub eof : Lexer → Bool
eof l = is_nil l.rest

abbrev pub is_newline : ℕ → Bool
is_newline c = nat_beq c b'\n' || nat_beq c b'\r'

abbrev pub at_newline : Lexer → Bool
at_newline l = is_newline (curr_char l)

-- The byte ends a line: a line feed, or a carriage return that no line feed follows.
abbrev pub ends_line : ℕ → ℕ → Bool
ends_line c next = nat_beq c b'\n' || nat_beq c b'\r' && not (nat_beq next b'\n')

unfoldable pub advance : Lexer → Lexer
advance l =
    let newline = ends_line (curr_char l) (peek l) in
    record l {
      rest = tail l.rest;
      line = if newline then l.line + 1 else l.line;
      col = if newline then 1 else l.col + 1;
    }

abbrev pub pos : Lexer → Pos
pos l = record { line = l.line; col = l.col }

abbrev pub is_comment_start : Lexer → Bool
is_comment_start l = nat_beq (curr_char l) b'/' && nat_beq (peek l) b'/'

unfoldable pub skip_comment_line : ℕ → Lexer → Lexer
skip_comment_line zero l = l
skip_comment_line (suc f) l =
    let next = skip_comment_line f (advance l) in if eof l || at_newline l then l else next

unfoldable pub skip_comment : Lexer → Lexer
skip_comment l = if is_comment_start l then skip_comment_line (length l.rest) l else l

abbrev pub is_blank : ℕ → Bool
is_blank c = nat_beq c b' ' || nat_beq c b'\t'

-- The first loop of `NextToken`.
unfoldable pub skip_blanks : ℕ → Lexer → Lexer
skip_blanks zero l = l
skip_blanks (suc f) l =
    let l' = skip_comment l in
    let next = skip_blanks f (advance l') in
    if eof l
    then l
    else if at_newline l' && leb 1 l'.bracket_depth
    then next
    else if not (is_blank (curr_char l'))
    then l'
    else next

-- The second loop, which begins on a line end and stops behind a run of blank lines.
unfoldable pub skip_newlines : ℕ → Lexer → Lexer
skip_newlines zero l = l
skip_newlines (suc f) l =
    let l' = skip_comment (advance l) in
    let next = skip_newlines f l' in
    if is_blank (curr_char l') || nat_beq (curr_char l') b'\r'
    then next
    else if eof l' || not (nat_beq (curr_char l') b'\n')
    then l'
    else next

-- What follows the letters of `else`: the end of the input or a byte of no identifier.
abbrev pub ends_word : Str → Bool
ends_word [] = true
ends_word (c ∷ cs) = not (is_ident_part c)

-- The input starts with the word, which ends there.
unfoldable pub starts_word : Str → Str → Bool
starts_word [] rest = ends_word rest
starts_word (w ∷ ws) [] = false
starts_word (w ∷ ws) (c ∷ cs) = nat_beq w c && starts_word ws cs

unfoldable pub at_else : Lexer → Bool
at_else l = starts_word (codes "else") l.rest
