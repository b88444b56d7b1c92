-- ===== src/Evaluator/Effects.antt =====
-- What a statement can change, however it ends: of the slots, of the log of emitted
-- values and of the names in scope.
use tascript.Common.{
  ℕ, zero, suc, Bool, true, false, some, List, [], ◌∷◌, ◌++◌, Str, ◌≡◌, refl, sym, ◌∙◌, ap, length,
  get_elem?, set, length-set, ltb, Bool-cases, inl, inr, Option-cases, lookup, ok, err, panic,
  str_eq,
}
use mathlib.Core.List.{append-nil, append_assoc}
use tascript.Registry.Value.{World, Value, nil}
use tascript.Resolved.{
  Stmt, let_stmt, assign_name, assign_slot, emit, expr_stmt, block, if_stmt, bad_stmt, Stmts, done,
  then_do, Else, no_else, otherwise,
}
use tascript.Evaluator.Env.{Env, assign}
use tascript.Evaluator.Names.{
  SameNames, GrowsTop, GrowsTop-refl, GrowsTop-trans, SameNames-GrowsTop, set_name-GrowsTop,
  assign-SameNames,
}
use tascript.Evaluator.Failure.{Eval}
use tascript.Evaluator.Expr.{Slots}
use tascript.Evaluator.Stmt.{
  Wiring, State, M, and_then, leave, enter_scope, leave_scope, write_slot, bind_name, assign_to,
  send, choose, exec, exec_all, exec_else,
}

module _ {w : World} where
  -- The cell holds a value.
  abbrev pub IsFilled : Slots w → ℕ → Type 0
  IsFilled slots i = (v : Value w) × (get_elem? slots i ≡ some (some v))

  abbrev pub StaysFilled : Slots w → Slots w → Type 0
  StaysFilled a b = (i : ℕ) → IsFilled a i → IsFilled b i

  pub record Extends (s s' : State w) : Type 0 where
    pub slot_count : length s'.slots ≡ length s.slots
    pub stay_filled : StaysFilled s.slots s'.slots
    pub log : List (Str × Value w)
    pub emitted_more : s'.emitted ≡ s.emitted ++ log
    pub names_grow : GrowsTop s.env s'.env

  pub Extends-refl : (s : State w) → Extends s s
  Extends-refl s = record {
    slot_count = refl;
    stay_filled = λ i h. h;
    log = [];
    emitted_more = sym (append-nil _);
    names_grow = GrowsTop-refl s.env;
  }

  pub Extends-trans : (a b c : State w) → Extends a b → Extends b c → Extends a c
  Extends-trans a b c h k = record {
    slot_count = k.slot_count ∙ h.slot_count;
    stay_filled = λ i f. k.stay_filled i (h.stay_filled i f);
    log = h.log ++ k.log;
    emitted_more =
        k.emitted_more ∙ ap (λ t. t ++ k.log) h.emitted_more ∙ append_assoc _ h.log k.log;
    names_grow = GrowsTop-trans a.env b.env c.env h.names_grow k.names_grow;
  }

  -- A call in the state `s`, whatever its result, leaves an extension.
  pub data Keeps {A : Type 0} (s : State w) : Eval A × State w → Type 0 where
    keeps : (r : Eval A) (s' : State w) → Extends s s' → Keeps s (r, s')

  pub Keeps-Extends : {A : Type 0} {s : State w} {p : Eval A × State w} → Keeps s p → Extends s p.1
  Keeps-Extends (keeps r s' h) = h

  pub Keeps-same : {A : Type 0} (r : Eval A) (s : State w) → Keeps s (r, s)
  Keeps-same r s = keeps r s (Extends-refl s)

  pub Keeps-from :
      {A : Type 0} {s t : State w} {p : Eval A × State w} → Extends s t → Keeps t p → Keeps s p
  Keeps-from h (keeps r s' k) = keeps r s' (Extends-trans _ _ s' h k)

  pub and_then-Keeps :
      {A B : Type 0} {s : State w} {p : Eval A × State w} (k : A → M w B)
      → Keeps s p
      → ((a : A) (s' : State w) → Keeps s' (k a s'))
      → Keeps s (and_then p k)
  and_then-Keeps k (keeps (ok a) s' h) g = Keeps-from h (g a s')
  and_then-Keeps k (keeps (err e) s' h) g = keeps (err e) s' h
  and_then-Keeps k (keeps (panic e) s' h) g = keeps (panic e) s' h

  pub choose-Keeps :
      {A : Type 0} (a b : M w A)
      → ((s : State w) → Keeps s (a s))
      → ((s : State w) → Keeps s (b s))
      → (t : Bool) (s : State w) → Keeps s (choose a b t s)
  choose-Keeps a b h k true s = h s
  choose-Keeps a b h k false s = k s

  -- A scope that is left takes its names with it.
  pub leave-SameNames : (e e' : Env w) → GrowsTop ([] ∷ e) e' → SameNames e (leave e')
  leave-SameNames e [] h = absurd h
  leave-SameNames e (f ∷ fs) h = h.1

  pub Extends-scope :
      (s s' : State w) → Extends (enter_scope s) s' → Extends s (record s' { env = leave s'.env })
  Extends-scope s s' h = record {
    slot_count = h.slot_count;
    stay_filled = h.stay_filled;
    log = h.log;
    emitted_more = h.emitted_more;
    names_grow = SameNames-GrowsTop s.env _ (leave-SameNames s.env s'.env h.names_grow);
  }

  pub leave_scope-Keeps :
      {A : Type 0} (s : State w) {p : Eval A × State w}
      → Keeps (enter_scope s) p
      → Keeps s (leave_scope p)
  leave_scope-Keeps s (keeps r s' h) = keeps r _ (Extends-scope s s' h)

  pub set-StaysFilled :
      (slots : Slots w) (i : ℕ) (v : Value w) → StaysFilled slots (set slots i (some v))
  set-StaysFilled [] i v j h = h
  set-StaysFilled (c ∷ cs) zero v zero h = (v, refl)
  set-StaysFilled (c ∷ cs) zero v (suc j) h = h
  set-StaysFilled (c ∷ cs) (suc i) v zero h = h
  set-StaysFilled (c ∷ cs) (suc i) v (suc j) h = set-StaysFilled cs i v j h

  pub write_slot-Keeps : (i : ℕ) (v : Value w) (s : State w) → Keeps s (write_slot i v s)
  unfolding write_slot
  write_slot-Keeps i v s = elim (Bool-cases (ltb i (length s.slots))) [
    | inl e ↦ rw e (
        keeps _ _ (record {
          slot_count = length-set s.slots i (some v);
          stay_filled = set-StaysFilled s.slots i v;
          log = [];
          emitted_more = sym (append-nil _);
          names_grow = GrowsTop-refl s.env;
        }))
    | inr e ↦ rw e (Keeps-same _ s)
  ]

  pub bind_name-Keeps : (k : Str) (v : Value w) (s : State w) → Keeps s (bind_name k v s)
  unfolding bind_name
  bind_name-Keeps k v s = keeps _ _ (record {
    slot_count = refl;
    stay_filled = λ i h. h;
    log = [];
    emitted_more = sym (append-nil _);
    names_grow = set_name-GrowsTop k v s.env;
  })

  assign_to-Keeps : (k : Str) (v : Value w) (s : State w) → Keeps s (assign_to k v s)
  unfolding assign_to
  assign_to-Keeps k v s = elim (Option-cases (assign k v s.env)) [
    | inl e ↦ rw (e, assign_to) (Keeps-same _ s)
    | inr (env, e) ↦
        rw (e, assign_to)
          (keeps _ _ (record {
            slot_count = refl;
            stay_filled = λ i h. h;
            log = [];
            emitted_more = sym (append-nil _);
            names_grow = SameNames-GrowsTop s.env env (assign-SameNames k v s.env e);
          }))
  ]

  send-Keeps :
      (x : Wiring w) (output : Str) (v : Value w) (s : State w) → Keeps s (send x output v s)
  unfolding send
  send-Keeps x output v s = elim (Option-cases (lookup output x.outputs)) [
    | inl e ↦ rw (e, send) (Keeps-same _ s)
    | inr (sink, e) ↦ elim (Bool-cases (sink.accepts v)) [
      | inl a ↦
          rw (e, a, send)
            (keeps _ _ (record {
              slot_count = refl;
              stay_filled = λ i h. h;
              log = (output, v) ∷ [];
              emitted_more = refl;
              names_grow = GrowsTop-refl s.env;
            }))
      | inr a ↦ rw (e, a, send) (Keeps-same _ s)
    ]
  ]

mutual
  unfolding exec

  pub exec-Keeps : {w : World} (x : Wiring w) (t : Stmt w) (s : State w) → Keeps s (exec x t s)
  exec-Keeps x (let_stmt _ name value _) s =
      and_then-Keeps _ (Keeps-same _ s) (bind_name-Keeps name)
  exec-Keeps x (assign_name _ target value _) s =
      and_then-Keeps _ (Keeps-same _ s) (assign_to-Keeps target)
  exec-Keeps x (expr_stmt _ e) s = Keeps-same _ s
  exec-Keeps x (block _ body) s = leave_scope-Keeps s (exec_all-Keeps x body nil (enter_scope s))
  exec-Keeps x (if_stmt _ condition _ consequence alternative) s =
      and_then-Keeps (choose _ _) (Keeps-same _ s) (
        choose-Keeps _ _
          (λ s'. leave_scope-Keeps s' (exec_all-Keeps x consequence nil (enter_scope s')))
          (exec_else-Keeps x alternative))
  exec-Keeps x (emit _ output args t) s = and_then-Keeps _ (Keeps-same _ s) (send-Keeps x output)
  exec-Keeps x (assign_slot _ target value _) s =
      and_then-Keeps _ (Keeps-same _ s) (write_slot-Keeps target.index)
  exec-Keeps x (bad_stmt _) s = Keeps-same _ s

  pub exec_all-Keeps :
      {w : World} (x : Wiring w) (b : Stmts w) (last : Value w) (s : State w)
      → Keeps s (exec_all x b last s)
  exec_all-Keeps x done last s = Keeps-same _ s
  exec_all-Keeps x (then_do t rest) last s =
      and_then-Keeps _ (exec-Keeps x t s) (exec_all-Keeps x rest)

  pub exec_else-Keeps :
      {w : World} (x : Wiring w) (e : Else w) (s : State w) → Keeps s (exec_else x e s)
  exec_else-Keeps x no_else s = Keeps-same _ s
  exec_else-Keeps x (otherwise t) s = exec-Keeps x t s

-- However a statement ends, in a value, an error or a panic: there are as many slots as before, each
-- filled slot is still filled, the log of emitted values is the old one with entries added behind
-- it, enclosing scopes bind the names that they bound, and the innermost scope at least its own.
pub exec-Extends : {w : World} (x : Wiring w) (t : Stmt w) (s : State w) → Extends s (exec x t s).1
exec-Extends x t s = Keeps-Extends (exec-Keeps x t s)
