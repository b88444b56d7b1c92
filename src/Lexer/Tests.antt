-- ===== src/Lexer/Tests.antt =====
-- Tests of the lexer on short scripts.
use tascript.Common.{List, [], ◌∷◌, ◌≡◌, refl, codes, lookup, str_beq}
use tascript.Token.{
  Token, TokenType, ident, integer, float, newline, eof, lparen, rparen, lbrace, rbrace, assign,
  kw_if, is_ident_start, is_ident_part, lookup_ident, kw_else, comma,
}
use tascript.Lexer.Cursor.{
  advance, skip_comment_line, skip_comment, skip_blanks, skip_newlines, starts_word, at_else,
}
use tascript.Lexer.Scan.{
  tokens, tokenize, next_token, next_token_from, scan, scan_symbol, read_ident, read_number,
  read_string, unescape,
}

abbrev types : List Token → List TokenType
types [] = []
types (t ∷ ts) = t.type ∷ types ts

script :
    types (tokenize (codes "x = f(1,\n 2.5) // c\r\n\n  \nif (y) {}\n else {}"))
    ≡ ident ∷ assign ∷ ident ∷ lparen ∷ integer ∷ comma ∷ float ∷ rparen ∷ newline ∷ kw_if ∷ lparen
      ∷ ident ∷ rparen ∷ lbrace ∷ rbrace ∷ kw_else ∷ lbrace ∷ rbrace ∷ eof ∷ []
unfolding tokens next_token next_token_from scan scan_symbol read_ident read_number read_string
    skip_blanks skip_newlines skip_comment skip_comment_line advance at_else starts_word
    is_ident_start is_ident_part lookup_ident unescape lookup str_beq
script = refl
