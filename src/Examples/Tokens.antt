-- ===== src/Examples/Tokens.antt =====
-- lexer/lexer.go: the theorems of the lexer at short scripts.
use tascript.Common.{ℕ, true, false, List, ◌≡◌, ◌≢◌, refl, arith, codes, lookup, str_beq}
use tascript.Token.{
  Token, ident, newline, is_ident, is_keyword, is_ident_start, is_ident_part, lookup_ident,
}
use tascript.Lexer.Cursor.{
  Lexer, new, advance, skip_comment_line, skip_comment, skip_blanks, skip_newlines, starts_word,
  at_else,
}
use tascript.Lexer.Scan.{
  tokens, tokenize, next_token, next_token_from, scan, scan_symbol, read_ident, read_number,
}
use tascript.Lexer.Laws.{
  Advances, IsStream, next_token-Advances, next_token-brackets, next_token-name,
  next_token-newline_once,
}
use tascript.Lexer.Whole.{IsLocated, tokenize-IsStream, tokenize-IsLocated}

abbrev script : List ℕ
script = codes "x = 1\n y"

tokenize-IsStream_example : IsStream (tokenize script)
tokenize-IsStream_example = tokenize-IsStream script

-- The name on the second line.
abbrev name_token : Token
name_token = record { pos = record { line = 2; col = 2 }; type = ident; literal = codes "y" }

tokenize-IsLocated_example : IsLocated script name_token
unfolding tokens next_token next_token_from scan scan_symbol read_ident read_number skip_blanks
    skip_newlines skip_comment skip_comment_line advance at_else starts_word is_ident_start
    is_ident_part lookup_ident lookup str_beq
tokenize-IsLocated_example = tokenize-IsLocated script 4 name_token refl refl

next_token-Advances_example : Advances (new script) (next_token (new script))
next_token-Advances_example = next_token-Advances (new script)

-- A line end inside a parenthesis.
abbrev in_brackets : Lexer
in_brackets = record (new (codes "\n )")) { bracket_depth = 1 }

next_token-brackets_example : (next_token in_brackets).token.type ≢ newline
next_token-brackets_example = next_token-brackets in_brackets (omega arith)

next_token-name_example :
    (is_ident (next_token (new script)).token.literal ≡ true)
    × (is_keyword (next_token (new script)).token.literal ≡ false)
unfolding next_token next_token_from scan read_ident skip_blanks skip_comment advance at_else
    starts_word is_ident_start is_ident_part lookup_ident lookup str_beq
next_token-name_example = next_token-name (new script) refl

-- Two line ends, with a blank between them.
abbrev blank_lines : Lexer
blank_lines = new (codes "\n \nx")

next_token-newline_once_example : (next_token (next_token blank_lines).after).token.type ≢ newline
unfolding next_token next_token_from scan read_ident skip_blanks skip_newlines skip_comment advance
    at_else starts_word is_ident_start is_ident_part lookup_ident lookup str_beq
next_token-newline_once_example = next_token-newline_once blank_lines refl
