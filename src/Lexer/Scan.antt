-- ===== src/Lexer/Scan.antt =====
-- lexer/lexer.go: `NextToken` and `readString`.
use tascript.Common.{
  ℕ, zero, suc, ◌+◌, ◌-◌, ◌/◌, ◌%◌, Bool, false, not, ◌&&◌, ◌||◌, List, [], ◌∷◌, ◌++◌, Str, nat_beq,
  leb, ltb, length, if◌then◌else◌, codes,
}
use tascript.Token.{
  Pos, Token, TokenType, illegal, newline, integer, float, string, assign, eq, neq, lt, gt, lteq,
  gteq, plus, minus, bang, asterisk, slash, percent, and, or, lparen, rparen, lbrace, rbrace,
  lbracket, rbracket, comma, colon, dot, lookup_ident, is_ident_start, is_ident_part,
}
use tascript.Lexer.Cursor.{
  Lexer, curr_char, peek, eof, is_newline, at_newline, advance, pos, skip_blanks, skip_newlines,
  at_else, new,
}

abbrev pub is_digit : ℕ → Bool
is_digit c = leb b'0' c && leb c b'9'

-- The bytes that the cursor passes, `src[startIdx:currCursor]`, and where it stops.
unfoldable pub read_ident : ℕ → Lexer → Str × Lexer
read_ident zero l = ([], l)
read_ident (suc f) l =
    let (bytes, l') = read_ident f (advance l) in
    if is_ident_part (curr_char l) then (curr_char l ∷ bytes, l') else ([], l)

-- The bytes, whether a dot was passed, and where the cursor stops.
unfoldable pub read_number : ℕ → Bool → Lexer → Str × Bool × Lexer
read_number zero dotted l = ([], dotted, l)
read_number (suc f) dotted l =
    let dot_here = nat_beq (curr_char l) b'.' in
    let (bytes, dotted', l') = read_number f (dotted || dot_here) (advance l) in
    if is_digit (curr_char l) || dot_here && not dotted
    then (curr_char l ∷ bytes, dotted', l')
    else ([], dotted, l)

-- The first error wins; `[]` is no error.
abbrev pub or_error : Str → Str → Str
or_error [] e = e
or_error (c ∷ cs) e = c ∷ cs

abbrev pub unterminated : Str
unterminated = codes "unterminated string"

abbrev pub nul_byte : Str
nul_byte = codes "illegal NUL byte"

abbrev pub invalid_escape : Str
invalid_escape = codes "invalid escape sequence"

-- The byte that an escape stands for; `[]` for an invalid one.
unfoldable pub unescape : ℕ → Str
unescape c =
    if nat_beq c b'"'
    then b'"' ∷ []
    else if nat_beq c b'\\'
    then b'\\' ∷ []
    else if nat_beq c b'n'
    then b'\n' ∷ []
    else if nat_beq c b't'
    then b'\t' ∷ []
    else if nat_beq c b'r'
    then b'\r' ∷ []
    else []

abbrev pub escape_error : Str → Str
escape_error [] = invalid_escape
escape_error (c ∷ cs) = []

-- The text and the error that `readString` returns, and the lexer that it leaves.
pub record StringScan : Type 0 where
  pub text : Str
  pub error : Str
  pub after : Lexer

abbrev pub failed : Str → Lexer → StringScan
failed e l = record { text = []; error = e; after = l }

-- At a closing quote: the text, unless there was an error.
abbrev pub close : Str → Str → Lexer → StringScan
close text [] l = record { text = text; error = []; after = l }
close text (c ∷ cs) l = failed (c ∷ cs) l

-- `readString` returns the text and the error; the cursor stays on the last byte that it used. The
-- fuel is the number of bytes left, and what it returns at zero is what it returns at the end.
unfoldable pub read_string : ℕ → Str → Str → Lexer → StringScan
read_string zero text e l = failed (or_error e unterminated) l
read_string (suc f) text e l =
    let l₁ = advance l in
    let c = curr_char l₁ in
    let l₂ = advance l₁ in
    let more = read_string f (text ++ c ∷ []) e l₁ in
    let nul = read_string f text (or_error e nul_byte) l₁ in
    let escaped = unescape (curr_char l₂) in
    let escape = read_string f (text ++ escaped) (or_error e (escape_error escaped)) l₂ in
    if is_newline (peek l)
    then failed unterminated l
    else if eof l₁
    then failed (or_error e unterminated) l₁
    else if nat_beq c 0
    then nul
    else if nat_beq c b'"'
    then close text e l₁
    else if nat_beq c b'\\'
    then if is_newline (peek l₁)
      then failed unterminated l₁
      else if eof l₂
      then failed unterminated l₂
      else escape
    else more

-- Go's `string(b)` of a byte is the UTF-8 text of the code point.
abbrev pub utf8 : ℕ → Str
utf8 c = if ltb c 128 then c ∷ [] else (192 + c / 64) ∷ (128 + c % 64) ∷ []

-- A token, and the lexer that the call leaves.
pub record Scanned : Type 0 where
  pub token : Token
  pub after : Lexer

abbrev pub scanned : Token → Lexer → Scanned
scanned t l = record { token = t; after = l }

abbrev pub make_token : Pos → TokenType → Str → Token
make_token p t literal = record { pos = p; type = t; literal = literal }

-- A token of one byte, or of two if the second byte follows; the cursor ends behind it.
abbrev pub one : TokenType → Lexer → Scanned
one t l = scanned (make_token (pos l) t (curr_char l ∷ [])) (advance l)

abbrev pub one_or_two : TokenType → ℕ → TokenType → Lexer → Scanned
one_or_two t next t₂ l =
    if nat_beq (peek l) next
    then scanned (make_token (pos l) t₂ (curr_char l ∷ next ∷ [])) (advance (advance l))
    else one t l

abbrev pub illegal_char : Lexer → Scanned
illegal_char l = scanned (make_token (pos l) illegal (utf8 (curr_char l))) (advance l)

abbrev pub both_or_illegal : TokenType → Lexer → Scanned
both_or_illegal t l =
    if nat_beq (peek l) (curr_char l)
    then scanned (make_token (pos l) t (curr_char l ∷ curr_char l ∷ [])) (advance (advance l))
    else illegal_char l

abbrev pub open_bracket : Lexer → Lexer
open_bracket l = record l { bracket_depth = l.bracket_depth + 1 }

-- `-` stops at 0, as the guard of the source does.
abbrev pub close_bracket : Lexer → Lexer
close_bracket l = record l { bracket_depth = l.bracket_depth - 1 }

abbrev pub string_or_error : Str → Str → TokenType × Str
string_or_error text [] = (string, text)
string_or_error text (c ∷ cs) = (illegal, c ∷ cs)

abbrev pub string_token : Pos → StringScan → Scanned
string_token p r =
    let t = string_or_error r.text r.error in scanned (make_token p t.0 t.1) (advance r.after)

-- The `switch` on a byte that starts neither a word nor a number.
unfoldable pub scan_symbol : ℕ → Lexer → Scanned
scan_symbol c l =
    if nat_beq c b'='
    then one_or_two assign b'=' eq l
    else if nat_beq c b'<'
    then one_or_two lt b'=' lteq l
    else if nat_beq c b'>'
    then one_or_two gt b'=' gteq l
    else if nat_beq c b'+'
    then one plus l
    else if nat_beq c b'-'
    then one minus l
    else if nat_beq c b'!'
    then one_or_two bang b'=' neq l
    else if nat_beq c b'*'
    then one asterisk l
    else if nat_beq c b'/'
    then one slash l
    else if nat_beq c b'%'
    then one percent l
    else if nat_beq c b'&'
    then both_or_illegal and l
    else if nat_beq c b'|'
    then both_or_illegal or l
    else if nat_beq c b'('
    then one lparen (open_bracket l)
    else if nat_beq c b')'
    then one rparen (close_bracket l)
    else if nat_beq c b'{'
    then one lbrace l
    else if nat_beq c b'}'
    then one rbrace l
    else if nat_beq c b'['
    then one lbracket (open_bracket l)
    else if nat_beq c b']'
    then one rbracket (close_bracket l)
    else if nat_beq c b','
    then one comma l
    else if nat_beq c b':'
    then one colon l
    else if nat_beq c 0
    then scanned (make_token (pos l) illegal nul_byte) (advance l)
    else if nat_beq c b'"'
    then string_token (pos l) (read_string (length l.rest) [] [] l)
    else if nat_beq c b'.'
    then one dot l
    else illegal_char l

abbrev pub word_token : Pos → Str × Lexer → Scanned
word_token p (bytes, l) = scanned (make_token p (lookup_ident bytes) bytes) l

abbrev pub number_token : Pos → Str × Bool × Lexer → Scanned
number_token p (bytes, dotted, l) =
    scanned (make_token p (if dotted then float else integer) bytes) l

-- `NextToken` behind its two loops.
unfoldable pub scan : Lexer → Scanned
scan l =
    if eof l
    then scanned (make_token (pos l) TokenType.eof []) l
    else if is_ident_start (curr_char l)
    then word_token (pos l) (read_ident (length l.rest) l)
    else if is_digit (curr_char l)
    then number_token (pos l) (read_number (length l.rest) false l)
    else scan_symbol (curr_char l) l

-- A line end that `else` follows gives no token: `NextToken` calls itself there, once.
unfoldable pub next_token_from : ℕ → Lexer → Scanned
next_token_from zero l = scanned (make_token (pos l) TokenType.eof []) l
next_token_from (suc f) l =
    let l' = skip_blanks (suc (length l.rest)) l in
    let l'' = skip_newlines (length l'.rest) l' in
    let again = next_token_from f l'' in
    if at_newline l'
    then if at_else l'' then again else scanned (make_token (pos l') newline []) l''
    else scan l'

unfoldable pub next_token : Lexer → Scanned
next_token l = next_token_from 2 l

-- The tokens up to and with the first EOF: the calls of NextToken that a parser makes, one after another. The
-- loop is no code of the lexer.
abbrev pub until_eof : TokenType → Token → List Token → List Token
until_eof TokenType.eof t rest = t ∷ []
until_eof _ t rest = t ∷ rest

unfoldable pub tokens : ℕ → Lexer → List Token
tokens zero l = []
tokens (suc f) l =
    let r = next_token l in let rest = tokens f r.after in until_eof r.token.type r.token rest

abbrev pub tokenize : Str → List Token
tokenize input = tokens (suc (length input)) (new input)
