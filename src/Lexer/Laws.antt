-- ===== src/Lexer/Laws.antt =====
-- lexer/lexer.go: what `NextToken` and the token stream of a script guarantee the parser.
use tascript.Common.{
  ℕ, ◌<◌, true, false, List, [], ◌∷◌, length, ◌≡◌, ◌≢◌, refl, arith, ◌⊎◌, inl, inr,
}
use tascript.Token.{Token, TokenType, newline, ident, is_ident, is_keyword}
use tascript.Lexer.Cursor.{Lexer, eof, pos}
use tascript.Lexer.Moves.{Moves, Moves-trans, Moves-length}
use tascript.Lexer.Blanks.{Stopped}
use tascript.Lexer.Tokens.{IsProper, Scans, scans}
use tascript.Lexer.Scan.{Scanned, next_token}
use tascript.Lexer.Stream.{
  Gives, at_end, at_line_end, at_token, next_token-Gives, scan_again, scan-ne-newline,
}

-- The call ends the stream, or uses up bytes.
abbrev pub Advances : Lexer → Scanned → Type 0
Advances l r =
    ((r.token.type ≡ TokenType.eof) × (eof r.after ≡ true))
    ⊎ ((r.token.type ≢ TokenType.eof) × (length r.after.rest < length l.rest))

Scans-parts :
    {m : Lexer} {r : Scanned}
    → Scans m r
    → (r.token.pos ≡ pos m)
      × Moves m r.after
      × (length r.after.rest < length m.rest)
      × IsProper r.token
Scans-parts (scans r p h k i _) = (p, h, k, i)

Gives-Advances : {l : Lexer} {r : Scanned} → Gives l r → Advances l r
Gives-Advances (at_end m h e) = inl (refl, e)
Gives-Advances (at_line_end m n h k e d lt s) = inr ((λ q. cc), lt)
Gives-Advances (at_token m r h s) =
    let (p, k, lt, i) = Scans-parts s in inr (i.not_eof, omega (arith, Moves-length h))

pub Gives-Moves : {l : Lexer} {r : Scanned} → Gives l r → Moves l r.after
Gives-Moves (at_end m h e) = h
Gives-Moves (at_line_end m n h k e d lt s) = Moves-trans h k
Gives-Moves (at_token m r h s) = Moves-trans h (Scans-parts s).1

-- A call of `NextToken` returns EOF at the end of the input, or another token with fewer bytes left.
pub next_token-Advances : (l : Lexer) → Advances l (next_token l)
next_token-Advances l = Gives-Advances (next_token-Gives l)

-- Inside parentheses and brackets no line end is a token.
pub next_token-brackets : (l : Lexer) → 0 < l.bracket_depth → (next_token l).token.type ≢ newline
next_token-brackets l h = of_Gives (next_token-Gives l)
  where
    of_Gives : {r : Scanned} → Gives l r → r.token.type ≢ newline
    of_Gives (at_end m _ e) = λ q. cc
    of_Gives (at_line_end m n _ _ e d _ _) = absurd (omega arith)
    of_Gives (at_token m r _ s) = (Scans-parts s).3.not_newline

Gives-name :
    {l : Lexer} {r : Scanned}
    → Gives l r
    → r.token.type ≡ ident
    → (is_ident r.token.literal ≡ true) × (is_keyword r.token.literal ≡ false)
Gives-name (at_end m _ e) q = cc
Gives-name (at_line_end m n _ _ e d _ _) q = cc
Gives-name (at_token m r _ s) q = (Scans-parts s).3.name_ok q

-- A name token's text is an identifier and no keyword.
pub next_token-name :
    (l : Lexer)
    → (next_token l).token.type ≡ ident
    → (is_ident (next_token l).token.literal ≡ true)
      × (is_keyword (next_token l).token.literal ≡ false)
next_token-name l = Gives-name (next_token-Gives l)

after_line_end : {d : ℕ} {n : Lexer} → Stopped d false n → (next_token n).token.type ≢ newline
unfolding next_token
after_line_end {n} s = rw (scan_again 1 s) (scan-ne-newline n)

-- Two line ends never follow one another.
pub next_token-newline_once :
    (l : Lexer)
    → (next_token l).token.type ≡ newline
    → (next_token (next_token l).after).token.type ≢ newline
next_token-newline_once l = of_Gives (next_token-Gives l)
  where
    of_Gives :
        {r : Scanned}
        → Gives l r
        → r.token.type ≡ newline
        → (next_token r.after).token.type ≢ newline
    of_Gives (at_end m _ e) q = cc
    of_Gives (at_line_end m n _ _ e d _ s) q = after_line_end s
    of_Gives (at_token m r _ s) q = absurd ((Scans-parts s).3.not_newline q)

-- A stream ends with its only EOF.
abbrev pub IsStream : List Token → Type 0
IsStream [] = ⊥
IsStream (t ∷ []) = t.type ≡ TokenType.eof
IsStream (t ∷ u ∷ ts) = (t.type ≢ TokenType.eof) × IsStream (u ∷ ts)
