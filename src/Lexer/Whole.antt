-- ===== src/Lexer/Whole.antt =====
-- lexer/lexer.go: the token stream of a whole script.
use tascript.Common.{
  ℕ, zero, suc, ◌<◌, List, [], ◌∷◌, ◌++◌, Str, length, ◌≡◌, ◌≢◌, refl, ◌∙◌, arith, ◌⊎◌, inl, inr,
  some, get_elem?, nat_beq, true, false, ap, sym, subst,
}
use tascript.Token.{Token, TokenType, ident, is_ident, is_ident_start}
use tascript.Lexer.Cursor.{Lexer, new, pos, head_or_zero}
use tascript.Lexer.Moves.{Moves, stay, Moves-trans, Moves-Between}
use tascript.Lexer.Places.{unix, place, locate-place}
use tascript.Lexer.Tokens.{scans}
use tascript.Lexer.Scan.{Scanned, next_token, until_eof, tokens, tokenize}
use tascript.Lexer.Stream.{Gives, at_end, at_line_end, at_token, next_token-Gives}
use tascript.Lexer.Laws.{next_token-Advances, Gives-Moves, IsStream}

until_eof-stop :
    (ty : TokenType) (t : Token) (rest : List Token)
    → ty ≡ TokenType.eof
    → until_eof ty t rest ≡ t ∷ []
until_eof-stop ty t rest h = rw h

until_eof-go :
    (ty : TokenType) (t : Token) (rest : List Token)
    → ty ≢ TokenType.eof
    → until_eof ty t rest ≡ t ∷ rest
until_eof-go TokenType.eof t rest h = absurd (h refl)
until_eof-go _ t rest h = refl

IsStream-cons :
    (t : Token) (ts : List Token) → t.type ≢ TokenType.eof → IsStream ts → IsStream (t ∷ ts)
IsStream-cons t [] h k = absurd k
IsStream-cons t (u ∷ ts) h k = (h, k)

-- With more fuel than bytes the loop ends by EOF.
tokens-IsStream : (f : ℕ) (l : Lexer) → length l.rest < f → IsStream (tokens f l)
unfolding tokens
tokens-IsStream zero l h = absurd (omega arith)
tokens-IsStream (suc f) l h =
    let r = next_token l in
    elim (next_token-Advances l) [
      | inl (e, _) ↦ rw (until_eof-stop r.token.type r.token (tokens f r.after) e) e
      | inr (ne, lt) ↦
          rw (until_eof-go r.token.type r.token (tokens f r.after) ne)
            (IsStream-cons r.token (tokens f r.after) ne (tokens-IsStream f r.after (omega arith)))
    ]

-- Lexing ends on every input: the tokens of a script are finitely many, the last is EOF, and no
-- other is.
pub tokenize-IsStream : (input : Str) → IsStream (tokenize input)
tokenize-IsStream input = tokens-IsStream (suc (length input)) (new input) (omega arith)

-- A name of the script: the bytes before it, its own bytes and those behind it, and its position, which
-- is the line and the column that the bytes before it make.
pub record IsLocated (input : Str) (t : Token) : Type 0 where
  pub before : Str
  pub after : Str
  pub split : input ≡ before ++ (t.literal ++ after)
  pub located : t.pos ≡ place (record { line = 1; col = 1 }) (unix before)

ident-head : (s rest : Str) → is_ident s ≡ true → nat_beq (head_or_zero (s ++ rest)) b'\n' ≡ false
unfolding is_ident is_ident_start
ident-head [] rest h = cc
ident-head (c ∷ cs) rest h = ground arith

Gives-at :
    {l : Lexer} {r : Scanned}
    → Gives l r
    → r.token.type ≡ ident
    → (m : Lexer) × Moves l m
      × (0 < length m.rest)
      × (r.token.pos ≡ pos m)
      × (m.rest ≡ r.token.literal ++ r.after.rest)
      × (is_ident r.token.literal ≡ true)
Gives-at (at_end m h e) q = cc
Gives-at (at_line_end m n h _ e _ _ _) q = cc
Gives-at (at_token m r h (scans _ p _ lt i text)) q =
    (m, h, omega arith, p, text q, (i.name_ok q).0)

token-IsLocated :
    (input : Str) (l : Lexer)
    → Moves (new input) l
    → (next_token l).token.type ≡ ident
    → IsLocated input (next_token l).token
token-IsLocated input l h q =
    let r = next_token l in
    let (m, k, lt, p, text, name) = Gives-at (next_token-Gives l) q in
    let b = Moves-Between (Moves-trans h k) lt in
    let head =
      subst (λ s. nat_beq (head_or_zero s) b'\n' ≡ false) (sym text)
        (ident-head r.token.literal r.after.rest name) in
    record {
      before = b.passed;
      after = r.after.rest;
      split = b.split ∙ ap (λ s. b.passed ++ s) text;
      located = p ∙ b.located ∙ locate-place b.passed m.rest _ head;
    }

-- An element of a list is its head or one of its tail.
head_or_later :
    (u : Token) (ts : List Token) (i : ℕ) {t : Token}
    → get_elem? (u ∷ ts) i ≡ some t
    → (u ≡ t) ⊎ ((j : ℕ) × (get_elem? ts j ≡ some t))
head_or_later u ts zero g = inl cc
head_or_later u ts (suc i) g = inr (i, g)

tokens-IsLocated :
    (input : Str) (f i : ℕ) (l : Lexer) (t : Token)
    → Moves (new input) l
    → get_elem? (tokens f l) i ≡ some t
    → t.type ≡ ident
    → IsLocated input t
unfolding tokens
tokens-IsLocated input zero i l t h g ne = cc
tokens-IsLocated input (suc f) i l t h g ne =
    let r = next_token l in
    let rest = tokens f r.after in
    elim (next_token-Advances l) [
      | inl (e, _) ↦
          elim (head_or_later r.token [] i (rw (until_eof-stop r.token.type r.token rest e) at g)) [
            | inl same ↦ let q : r.token.type ≡ ident = rw same ne in cc
            | inr (j, g') ↦ cc
          ]
      | inr (ne', _) ↦
          elim (head_or_later r.token rest i
            (rw (until_eof-go r.token.type r.token rest ne') at g)) [
              | inl same ↦ rw (← same) (token-IsLocated input l h (rw same ne))
              | inr (j, g') ↦
                  tokens-IsLocated input f j r.after t
                    (Moves-trans h (Gives-Moves (next_token-Gives l))) g' ne
            ]
    ]

-- Each name of a script carries the line and the column at which its first byte stands: those that the
-- bytes before it make, where a line ends by a line feed, a carriage return, or the two together, and the
-- name's text is the bytes that stand there.
pub tokenize-IsLocated :
    (input : Str) (i : ℕ) (t : Token)
    → get_elem? (tokenize input) i ≡ some t
    → t.type ≡ ident
    → IsLocated input t
tokenize-IsLocated input i t = tokens-IsLocated input (suc (length input)) i (new input) t stay
