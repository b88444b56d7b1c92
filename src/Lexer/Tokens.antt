-- ===== src/Lexer/Tokens.antt =====
-- What `NextToken` returns behind its two loops: where the token stands, that bytes are used up, and
-- which token it can be.
use tascript.Common.{
  ℕ, zero, suc, ◌<◌, Bool, true, false, [], ◌∷◌, Str, length, ◌≡◌, ◌≢◌, refl, arith, if◌then◌else◌,
  ◌++◌, ◌∙◌, ap, if-elim, if-elim_eq, nat_beq, lookup, Bool-cases, inl, inr, ◌||◌,
}
use tascript.Token.{
  Pos, Token, TokenType, illegal, newline, ident, integer, float, assign, eq, neq, lt, gt, lteq,
  gteq, plus, minus, bang, asterisk, slash, percent, and, or, lparen, rparen, lbrace, rbrace,
  lbracket, rbracket, comma, colon, dot, lookup_ident, is_keyword, is_ident, is_ident_start,
  is_ident_part, all_ident_part,
}
use tascript.Lexer.Cursor.{head_or_zero, tail, is_nil, Lexer, curr_char, peek, eof, advance, pos}
use tascript.Lexer.Moves.{
  Moves, stay, step, brackets, Moves-advance, Moves-length, length-advance, length-pos,
  read_ident-Moves, read_number-Moves, read_string-Moves,
}
use tascript.Lexer.Scan.{
  read_ident, read_number, is_digit, Scanned, scanned, make_token, one, one_or_two, both_or_illegal,
  string_token, string_or_error, StringScan, word_token, number_token, scan_symbol, scan, nul_byte,
}

-- A token other than a line end, the end of the input and a name.
abbrev plain : TokenType → Bool
plain newline = false
plain TokenType.eof = false
plain ident = false
plain _ = true

-- What a token between two blanks is: no line end, not the end of the input, and a name only if its
-- text is an identifier and no keyword.
pub record IsProper (t : Token) : Type 0 where
  pub not_newline : t.type ≢ newline
  pub not_eof : t.type ≢ TokenType.eof
  pub name_ok : t.type ≡ ident → (is_ident t.literal ≡ true) × (is_keyword t.literal ≡ false)

plain-IsProper : (p : Pos) (t : TokenType) (s : Str) → plain t ≡ true → IsProper (make_token p t s)
plain-IsProper p newline s h = cc
plain-IsProper p TokenType.eof s h = cc
plain-IsProper p ident s h = cc
plain-IsProper p _ s h = record { not_newline = λ e. cc; not_eof = λ e. cc; name_ok = λ e. cc }

plain-not_name : (t : TokenType) → plain t ≡ true → t ≢ ident
plain-not_name ident h = cc
plain-not_name _ h = λ e. cc

plain-text : {A : Type 0} (t : TokenType) → plain t ≡ true → t ≡ ident → A
plain-text t h e = absurd (plain-not_name t h e)

-- A proper token that stands at `l`, with bytes of it used up; a name is the bytes that stand there.
pub data Scans (l : Lexer) : Scanned → Type 0 where
  scans :
      (r : Scanned)
      → r.token.pos ≡ pos l
      → Moves l r.after
      → length r.after.rest < length l.rest
      → IsProper r.token
      → (r.token.type ≡ ident → l.rest ≡ r.token.literal ++ r.after.rest)
      → Scans l r

module _ (l : Lexer) (more : eof l ≡ false) where
  advance-lt : length (advance l).rest < length l.rest
  advance-lt = omega (arith, length-advance l, length-pos l more)

  one-Scans : (t : TokenType) → plain t ≡ true → Scans l (one t l)
  one-Scans t h = scans _ refl (step stay) advance-lt (plain-IsProper _ t _ h) (plain-text t h)

  bracket-Scans :
      (t : TokenType) (d : ℕ) → plain t ≡ true → Scans l (one t (record l { bracket_depth = d }))
  bracket-Scans t d h =
      let l' = record l { bracket_depth = d } in
      scans _ refl (brackets d (step stay)) (omega (arith, length-advance l', length-pos l more))
        (plain-IsProper _ t _ h) (plain-text t h)

  two-Scans :
      (t : TokenType) (s : Str)
      → plain t ≡ true
      → Scans l (scanned (make_token (pos l) t s) (advance (advance l)))
  two-Scans t s h =
      scans _ refl (step (step stay))
        (omega (arith, length-advance l, length-advance (advance l), length-pos l more))
        (plain-IsProper _ t s h) (plain-text t h)

  one_or_two-Scans :
      (t : TokenType) (next : ℕ) (t₂ : TokenType)
      → plain t ≡ true
      → plain t₂ ≡ true
      → Scans l (one_or_two t next t₂ l)
  one_or_two-Scans t next t₂ h h₂ =
      if-elim (Scans l) (nat_beq (peek l) next) (two-Scans t₂ _ h₂) (one-Scans t h)

  illegal-Scans : (s : Str) → Scans l (scanned (make_token (pos l) illegal s) (advance l))
  illegal-Scans s =
      scans _ refl (step stay) advance-lt (plain-IsProper _ illegal s refl)
        (plain-text illegal refl)

  both_or_illegal-Scans : (t : TokenType) → plain t ≡ true → Scans l (both_or_illegal t l)
  both_or_illegal-Scans t h =
      if-elim (Scans l) (nat_beq (peek l) (curr_char l)) (two-Scans t _ h) (illegal-Scans _)

  string_token-Scans : (r : StringScan) → Moves l r.after → Scans l (string_token (pos l) r)
  string_token-Scans r m =
      scans _ refl (Moves-advance m)
        (omega (arith, length-advance r.after, Moves-length m, length-pos l more))
        (plain-IsProper _ (string_or_error r.text r.error).0 _ (either r.text r.error))
        (plain-text _ (either r.text r.error))
    where
      either : (text e : Str) → plain (string_or_error text e).0 ≡ true
      either text [] = refl
      either text (c ∷ cs) = refl

  scan_symbol-Scans : (c : ℕ) → Scans l (scan_symbol c l)
  unfolding scan_symbol
  scan_symbol-Scans c =
      let P = Scans l in
      if-elim P (nat_beq c b'=') (one_or_two-Scans assign b'=' eq refl refl) (
        if-elim P (nat_beq c b'<') (one_or_two-Scans lt b'=' lteq refl refl) (
          if-elim P (nat_beq c b'>') (one_or_two-Scans gt b'=' gteq refl refl) (
            if-elim P (nat_beq c b'+') (one-Scans plus refl) (
              if-elim P (nat_beq c b'-') (one-Scans minus refl) (
                if-elim P (nat_beq c b'!') (one_or_two-Scans bang b'=' neq refl refl) (
                  if-elim P (nat_beq c b'*') (one-Scans asterisk refl) (
                    if-elim P (nat_beq c b'/') (one-Scans slash refl) (
                      if-elim P (nat_beq c b'%') (one-Scans percent refl) (
                        if-elim P (nat_beq c b'&') (both_or_illegal-Scans and refl) (
                          if-elim P (nat_beq c b'|') (both_or_illegal-Scans or refl) (
                            if-elim P (nat_beq c b'(') (bracket-Scans lparen _ refl) (
                              if-elim P (nat_beq c b')') (bracket-Scans rparen _ refl) (
                                if-elim P (nat_beq c b'{') (one-Scans lbrace refl) (
                                  if-elim P (nat_beq c b'}') (one-Scans rbrace refl) (
                                    if-elim P (nat_beq c b'[') (bracket-Scans lbracket _ refl) (
                                      if-elim P (nat_beq c b']') (bracket-Scans rbracket _ refl) (
                                        if-elim P (nat_beq c b',') (one-Scans comma refl) (
                                          if-elim P (nat_beq c b':') (one-Scans colon refl) (
                                            if-elim P (nat_beq c 0) (illegal-Scans nul_byte) (
                                              if-elim P (nat_beq c b'"')
                                                (string_token-Scans _ (read_string-Moves _ [] [] l))
                                                (if-elim P (nat_beq c b'.') (one-Scans dot refl)
                                                  (illegal-Scans _))))))))))))))))))))))

lookup_ident-kind :
    (s : Str)
    → (lookup_ident s ≢ newline)
      × (lookup_ident s ≢ TokenType.eof)
      × (lookup_ident s ≡ ident → is_keyword s ≡ false)
unfolding lookup_ident is_keyword lookup
lookup_ident-kind s = ground arith

read_ident-all : (f : ℕ) (l : Lexer) → all_ident_part (read_ident f l).0 ≡ true
unfolding read_ident all_ident_part
read_ident-all zero l = refl
read_ident-all (suc f) l = elim (Bool-cases (is_ident_part (curr_char l))) [
  | inl e ↦ rw (e, e) (read_ident-all f (advance l))
  | inr e ↦ rw e
]

is_ident_start→part : (c : ℕ) → is_ident_start c ≡ true → is_ident_part c ≡ true
unfolding is_ident_part
is_ident_start→part c h = ground arith

word-IsProper :
    (p : Pos) (c : ℕ) (cs : Str)
    → is_ident_start c ≡ true
    → all_ident_part cs ≡ true
    → IsProper (make_token p (lookup_ident (c ∷ cs)) (c ∷ cs))
unfolding is_ident
word-IsProper p c cs h k =
    let kind = lookup_ident-kind (c ∷ cs) in
    record { not_newline = kind.0; not_eof = kind.1; name_ok = λ e. (rw (h, k), kind.2 e) }

-- What is read of a word, and what is left.
read_ident-text : (f : ℕ) (l : Lexer) → l.rest ≡ (read_ident f l).0 ++ (read_ident f l).1.rest
unfolding read_ident advance is_ident_part is_ident_start
read_ident-text zero l = refl
read_ident-text (suc f) l = elim (Bool-cases (is_ident_part (curr_char l))) [
  | inl e ↦ rw e (nonempty l.rest e ∙ ap (λ s. curr_char l ∷ s) (read_ident-text f (advance l)))
  | inr e ↦ rw e refl
]
  where
    nonempty : (s : Str) → is_ident_part (head_or_zero s) ≡ true → s ≡ head_or_zero s ∷ tail s
    nonempty [] h = cc
    nonempty (c ∷ cs) h = refl

starts :
    (l : Lexer)
    → eof l ≡ false
    → (f : ℕ)
    → l.rest ≡ curr_char l ∷ ((read_ident f (advance l)).0 ++ (read_ident f (advance l)).1.rest)
unfolding advance
starts l more f = first l.rest more ∙ ap (λ s. curr_char l ∷ s) (read_ident-text f (advance l))
  where
    first : (s : Str) → is_nil s ≡ false → s ≡ head_or_zero s ∷ tail s
    first [] h = cc
    first (c ∷ cs) h = refl

module _ (l : Lexer) (more : eof l ≡ false) where
  word-Scans :
      (n : ℕ)
      → 0 < n
      → is_ident_start (curr_char l) ≡ true
      → Scans l (word_token (pos l) (read_ident n l))
  unfolding read_ident
  word-Scans zero pos_n h = absurd (omega arith)
  word-Scans (suc n) pos_n h = rw (is_ident_start→part _ h) (
      scans _ refl (step (read_ident-Moves n (advance l)))
        (omega (arith, Moves-length (read_ident-Moves n (advance l)), advance-lt l more))
        (word-IsProper _ (curr_char l) _ h (read_ident-all n (advance l))) (λ _. starts l more n))

  number-Scans :
      (n : ℕ)
      → 0 < n
      → is_digit (curr_char l) ≡ true
      → Scans l (number_token (pos l) (read_number n false l))
  unfolding read_number
  number-Scans zero pos_n h = absurd (omega arith)
  number-Scans (suc n) pos_n h =
      let m = read_number-Moves n (false || nat_beq (curr_char l) b'.') (advance l) in
      rw h (
        scans _ refl (step m) (omega (arith, Moves-length m, advance-lt l more))
          (plain-IsProper _ _ _ (either _)) (plain-text _ (either _)))
    where
      either : (b : Bool) → plain (if b then float else integer) ≡ true
      either true = refl
      either false = refl

  pub scan-Scans : Scans l (scan l)
  unfolding scan
  scan-Scans = rw more (
      if-elim_eq (Scans l) (is_ident_start (curr_char l))
        (word-Scans (length l.rest) (length-pos l more))
        λ _.
          if-elim_eq (Scans l) (is_digit (curr_char l))
            (number-Scans (length l.rest) (length-pos l more))
            λ _. scan_symbol-Scans l more (curr_char l))
