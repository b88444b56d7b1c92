-- ===== src/Token.antt =====
-- token/token.go: token types, positions, keywords and the classes of identifier bytes.
use mathlib.Core.Bool.{decide, decide_iff}
use tascript.Common.{
  ℕ, Eq, ◌↔◌, Bool, true, false, ◌&&◌, ◌||◌, none, some, List, [], ◌∷◌, Str, codes, leb, Map,
  lookup, has_key, ◌≡◌, ◌==◌, nat_beq, str_eq,
}

pub data TokenType : Type 0 where
  illegal eof newline : TokenType
  ident integer float string : TokenType
  assign eq neq lt gt lteq gteq plus minus bang asterisk slash percent and or : TokenType
  lparen rparen lbrace rbrace lbracket rbracket comma colon dot : TokenType
  kw_let kw_const kw_input kw_output kw_function kw_if kw_else kw_true kw_false : TokenType

unfoldable pub TokenType-discrete : Discrete TokenType
TokenType-discrete = hlevel

unfoldable pub token_beq : TokenType → TokenType → Bool
unfolding TokenType-discrete decide
token_beq a b = decide (TokenType-discrete a b)

pub token_beq_iff : (a b : TokenType) → (token_beq a b ≡ true) ↔ (a ≡ b)
unfolding token_beq
token_beq_iff a b = decide_iff (TokenType-discrete a b)

instance abbrev pub token_type_eq : Eq TokenType
token_type_eq = record { same = token_beq; same_iff = token_beq_iff }

pub record Pos : Type 0 where
  pub line : ℕ
  pub col : ℕ

pub record Token : Type 0 where
  pub pos : Pos
  pub type : TokenType
  pub literal : Str

-- `keywordsMap`
abbrev pub keywords : Map Str TokenType
keywords =
    (codes "let", kw_let)
    ∷ (codes "const", kw_const)
    ∷ (codes "input", kw_input)
    ∷ (codes "output", kw_output)
    ∷ (codes "function", kw_function)
    ∷ (codes "if", kw_if)
    ∷ (codes "else", kw_else)
    ∷ (codes "true", kw_true)
    ∷ (codes "false", kw_false)
    ∷ []

unfoldable pub lookup_ident : Str → TokenType
lookup_ident word = elim (lookup word keywords) [ some t ↦ t | none ↦ ident ]

unfoldable pub is_keyword : Str → Bool
is_keyword word = has_key word keywords

abbrev pub reserved_idents : List Str
reserved_idents = codes "emit" ∷ codes "Init" ∷ codes "Run" ∷ []

-- `slices.Contains`
unfoldable pub contains : Str → List Str → Bool
contains word [] = false
contains word (w ∷ ws) = w == word || contains word ws

unfoldable pub is_reserved_ident : Str → Bool
unfolding contains
is_reserved_ident word = contains word reserved_idents

unfoldable pub is_ident_start : ℕ → Bool
is_ident_start ch = leb b'a' ch && leb ch b'z' || leb b'A' ch && leb ch b'Z' || nat_beq ch b'_'

unfoldable pub is_ident_part : ℕ → Bool
unfolding is_ident_start
is_ident_part ch = is_ident_start ch || leb b'0' ch && leb ch b'9'

unfoldable pub all_ident_part : Str → Bool
unfolding is_ident_part
all_ident_part [] = true
all_ident_part (c ∷ cs) = is_ident_part c && all_ident_part cs

unfoldable pub is_ident : Str → Bool
unfolding is_ident_start all_ident_part
is_ident [] = false
is_ident (c ∷ cs) = is_ident_start c && all_ident_part cs
