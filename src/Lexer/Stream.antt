-- ===== src/Lexer/Stream.antt =====
-- `NextToken` as a whole: the bytes that it uses, its positions, and what it says of
-- line ends.
use tascript.Common.{
  ℕ, zero, suc, ◌<◌, true, false, [], ◌∷◌, Str, length, ◌≡◌, ◌≢◌, refl, sym, arith, inl, inr,
  Bool-cases, if-elim_eq, nat_beq,
}
use mathlib.Core.Path.{subst}
use tascript.Token.{TokenType, newline}
use tascript.Lexer.Cursor.{
  Lexer, eof, is_nil, is_newline, head_or_zero, pos, at_newline, at_else, skip_blanks,
  skip_newlines,
}
use tascript.Lexer.Moves.{
  Moves, Moves-trans, Moves-length, length-pos, skip_blanks-Moves, skip_newlines-Moves,
  skip_newlines-after, length-advance,
}
use tascript.Lexer.Blanks.{
  Stopped, skip_blanks-Stopped, skip_newlines-Stopped, skip_blanks_idem, Stopped-newline,
  Stopped-brackets,
}
use tascript.Lexer.Tokens.{Scans, scans, scan-Scans}
use tascript.Lexer.Scan.{Scanned, scanned, make_token, scan, next_token_from, next_token}

-- The token stands at a state that `l` moves to, and one of three things holds of it: it is the end
-- of the input, a line end, or proper; the last two use up bytes.
pub data Gives (l : Lexer) : Scanned → Type 0 where
  at_end :
      (m : Lexer)
      → Moves l m
      → eof m ≡ true
      → Gives l (scanned (make_token (pos m) TokenType.eof []) m)
  at_line_end :
      (m n : Lexer)
      → Moves l m
      → Moves m n
      → at_newline m ≡ true
      → l.bracket_depth ≡ 0
      → length n.rest < length l.rest
      → Stopped m.bracket_depth false n
      → Gives l (scanned (make_token (pos m) newline []) n)
  at_token : (m : Lexer) (r : Scanned) → Moves l m → Scans m r → Gives l r

scan-Gives : (l m : Lexer) → Moves l m → Gives l (scan m)
unfolding scan
scan-Gives l m h = elim (Bool-cases (eof m)) [
  | inl e ↦ rw e (at_end m h e)
  | inr e ↦ at_token m (scan m) h (scan-Scans m e)
]

pub scan_again :
    {d : ℕ} {n : Lexer} (f : ℕ) → Stopped d false n → next_token_from (suc f) n ≡ scan n
unfolding next_token_from
scan_again {n} f s = rw (skip_blanks_idem (length n.rest) s, Stopped-newline s)

skip_newlines-lt :
    (f : ℕ) (l : Lexer) → 0 < f → eof l ≡ false → length (skip_newlines f l).rest < length l.rest
skip_newlines-lt zero l h e = absurd (omega arith)
skip_newlines-lt (suc f) l h e =
    omega (arith, Moves-length (skip_newlines-after f l), length-advance l, length-pos l e)

depth_zero :
    (l : Lexer) {m : Lexer}
    → Stopped l.bracket_depth (nat_beq l.bracket_depth 0) m
    → at_newline m ≡ true
    → l.bracket_depth ≡ 0
depth_zero l {m} s e = elim (Bool-cases (nat_beq l.bracket_depth 0)) [
  | inl z ↦ ground arith
  | inr z ↦ cc (Stopped-brackets s (ground arith))
]

pub at_newline-eof : (l : Lexer) → at_newline l ≡ true → eof l ≡ false
at_newline-eof l h = of_rest l.rest h
  where
    of_rest : (s : Str) → is_newline (head_or_zero s) ≡ true → is_nil s ≡ false
    of_rest [] h = cc
    of_rest (c ∷ cs) h = refl

pub next_token-Gives : (l : Lexer) → Gives l (next_token l)
unfolding next_token next_token_from
next_token-Gives l =
    let l' = skip_blanks (suc (length l.rest)) l in
    let l'' = skip_newlines (length l'.rest) l' in
    let m = skip_blanks-Moves (suc (length l.rest)) l in
    let m' = skip_newlines-Moves (length l'.rest) l' in
    if-elim_eq (Gives l) (at_newline l')
      (λ e.
        let more = at_newline-eof l' e in
        let s = skip_newlines-Stopped (length l'.rest) l' (omega arith) more in
        if-elim_eq (Gives l) (at_else l'')
          (λ _. subst (Gives l) (sym (scan_again 0 s)) (scan-Gives l l'' (Moves-trans m m')))
          (λ _.
            at_line_end l' l'' m m' e (depth_zero l (skip_blanks-Stopped _ l (omega arith)) e)
              (omega (
                arith,
                skip_newlines-lt (length l'.rest) l' (length-pos l' more) more,
                Moves-length m,
              ))
              s))
      (λ _. scan-Gives l l' m)

-- One call of itself is all that `NextToken` makes.
pub next_token_from-fuel :
    (f : ℕ) (l : Lexer) → next_token_from (suc (suc f)) l ≡ next_token_from 2 l
unfolding next_token_from
next_token_from-fuel f l =
    let l' = skip_blanks (suc (length l.rest)) l in
    let l'' = skip_newlines (length l'.rest) l' in
    elim (Bool-cases (at_newline l')) [
      | inl e ↦
          let s = skip_newlines-Stopped (length l'.rest) l' (omega arith) (at_newline-eof l' e) in
          rw e (rw (scan_again f s) (rw (scan_again 0 s) refl))
      | inr e ↦ rw e refl
    ]

pub scan-ne-newline : (m : Lexer) → (scan m).token.type ≢ newline
unfolding scan
scan-ne-newline m = elim (Bool-cases (eof m)) [
  | inl e ↦ rw e (λ q. cc)
  | inr e ↦ of_Scans (scan-Scans m e)
]
  where
    of_Scans : {r : Scanned} → Scans m r → r.token.type ≢ newline
    of_Scans (scans r _ _ _ i _) = i.not_newline
