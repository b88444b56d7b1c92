-- ===== src/Evaluator/FullRun.antt =====
-- evaluator/evaluator.go: statements and runs on slots that are all filled.
use tascript.Common.{
  ℕ, zero, suc, Bool, true, false, Option, none, some, List, [], ◌∷◌, Str, ◌≡◌, refl, sym, ◌∙◌,
  subst, arith, length, get_elem?, inl, inr, Option-cases, Bool-cases, lookup, ok, err, panic, Map,
  str_eq, codes, ltb,
}
use tascript.Registry.Value.{World, Value, nil, empty, FieldDef, TypeId}
use tascript.Registry.Script.{type_fields}
use tascript.Resolved.{
  Args, no_args, arg, Stmt, let_stmt, assign_name, assign_slot, emit, expr_stmt, block, if_stmt,
  bad_stmt, Stmts, done, then_do, Else, no_else, otherwise, PortDecl,
}
use tascript.Evaluator.Env.{Env, assign}
use tascript.Evaluator.Failure.{Eval}
use tascript.Evaluator.Expr.{Slots}
use tascript.Evaluator.Stmt.{
  Wiring, State, M, and_then, enter_scope, write_slot, bind_name, assign_to, send, emit_value,
  choose, exec, exec_all, exec_else,
}
use tascript.Evaluator.Machine.{
  Evaluator, bind_inputs, call_run_fn, run_body, entered, finish, eval_run, wiring, start, recover,
}
use tascript.Evaluator.Effects.{StaysFilled, Extends, Keeps, Keeps-Extends, Keeps-same, exec-Keeps}
use tascript.Evaluator.Activation.{bind_inputs-Keeps}
use tascript.Evaluator.Laws.{activate-idle}
use tascript.Evaluator.Full.{
  Clean, clean_ok, clean_err, clean_panic, Full, >>=-Clean, to_condition-Clean, eval_expr-Clean,
  eval_args-Clean,
}

get_elem?-same_length :
    {A : Type 0} (xs ys : List A) (i : ℕ) (a : A)
    → length ys ≡ length xs
    → get_elem? ys i ≡ some a
    → (b : A) × (get_elem? xs i ≡ some b)
get_elem?-same_length [] [] i a h k = cc
get_elem?-same_length [] (y ∷ ys) i a h k = absurd (omega arith)
get_elem?-same_length (x ∷ xs) [] i a h k = cc
get_elem?-same_length (x ∷ xs) (y ∷ ys) zero a h k = (x, refl)
get_elem?-same_length (x ∷ xs) (y ∷ ys) (suc i) a h k =
    get_elem?-same_length xs ys i a (omega arith) k

module _ {w : World} where
  not_empty :
      (i : ℕ) (slots slots' : Slots w) (c : Option (Value w))
      → StaysFilled slots slots'
      → get_elem? slots' i ≡ some none
      → get_elem? slots i ≡ some c
      → get_elem? slots i ≡ some none
  not_empty i slots slots' none h e k = k
  not_empty i slots slots' (some v) h e k = let (u, f) = h i (v, k) in let g = sym f ∙ e in cc

  Extends-Full : (s s' : State w) → Extends s s' → Full s.slots → Full s'.slots
  Extends-Full s s' h full i e =
      let (c, k) = get_elem?-same_length s.slots s'.slots i none h.slot_count e in
      full i (not_empty i s.slots s'.slots c h.stay_filled e k)

  and_then-Clean :
      {A B : Type 0} (s : State w) (p : Eval A × State w) (k : A → M w B)
      → Full s.slots
      → Keeps s p
      → Clean p.0
      → ((a : A) (s' : State w) → Full s'.slots → Clean (k a s').0)
      → Clean (and_then p k).0
  and_then-Clean s (ok a, s') k full kept c g = g a s' (Extends-Full s s' (Keeps-Extends kept) full)
  and_then-Clean s (err f, s') k full kept (clean_err _ n) g = clean_err f n
  and_then-Clean s (panic x, s') k full kept c g = clean_panic x

  write_slot-Clean : (i : ℕ) (v : Value w) (s : State w) → Clean (write_slot i v s).0
  unfolding write_slot
  write_slot-Clean i v s = elim (Bool-cases (ltb i (length s.slots))) [
    | inl e ↦ rw e (clean_ok v)
    | inr e ↦ rw e (clean_panic _)
  ]

  assign_to-Clean : (k : Str) (v : Value w) (s : State w) → Clean (assign_to k v s).0
  unfolding assign_to
  assign_to-Clean k v s = elim (Option-cases (assign k v s.env)) [
    | inl e ↦ rw (e, assign_to) (clean_panic _)
    | inr (env, e) ↦ rw (e, assign_to) (clean_ok v)
  ]

  send-Clean :
      (x : Wiring w) (output : Str) (v : Value w) (s : State w) → Clean (send x output v s).0
  unfolding send
  send-Clean x output v s = elim (Option-cases (lookup output x.outputs)) [
    | inl e ↦ rw (e, send) (clean_panic _)
    | inr (sink, e) ↦ elim (Bool-cases (sink.accepts v)) [
      | inl a ↦ rw (e, a, send) (clean_ok _)
      | inr a ↦ rw (e, a, send) (clean_panic _)
    ]
  ]

  emit_value-Clean :
      (slots : Slots w) (env : Env w) (fields : List FieldDef) (t : TypeId) (args : Args w)
      → Full slots
      → Clean (emit_value slots env fields t args)
  unfolding emit_value
  emit_value-Clean slots env [] t no_args full = clean_panic _
  emit_value-Clean slots env [] t (arg _ _ value _) full = eval_expr-Clean slots env value full
  emit_value-Clean slots env (_ ∷ _) t args full =
      >>=-Clean (eval_args-Clean slots env args empty full) (λ fields. clean_ok _)

  choose-Clean :
      {A : Type 0} (a b : M w A) (t : Bool) (s : State w)
      → Clean (a s).0
      → Clean (b s).0
      → Clean (choose a b t s).0
  choose-Clean a b true s h k = h
  choose-Clean a b false s h k = k

mutual
  unfolding exec bind_name

  exec-Clean :
      {w : World} (x : Wiring w) (t : Stmt w) (s : State w) → Full s.slots → Clean (exec x t s).0
  exec-Clean x (let_stmt _ name value _) s full =
      and_then-Clean s _ (bind_name name) full (Keeps-same _ s)
        (eval_expr-Clean s.slots s.env value full) λ v s' k. clean_ok v
  exec-Clean x (assign_name _ target value _) s full =
      and_then-Clean s _ (assign_to target) full (Keeps-same _ s)
        (eval_expr-Clean s.slots s.env value full) λ v s' k. assign_to-Clean target v s'
  exec-Clean x (expr_stmt _ e) s full = eval_expr-Clean s.slots s.env e full
  exec-Clean x (block _ body) s full = exec_all-Clean x body nil (enter_scope s) full
  exec-Clean x (if_stmt _ condition _ consequence alternative) s full =
      and_then-Clean s _ (choose _ _) full (Keeps-same _ s)
        (>>=-Clean (eval_expr-Clean s.slots s.env condition full) to_condition-Clean)
        λ b s' k.
          choose-Clean _ _ b s' (exec_all-Clean x consequence nil (enter_scope s') k)
            (exec_else-Clean x alternative s' k)
  exec-Clean x (emit _ output args t) s full =
      and_then-Clean s _ (send x output) full (Keeps-same _ s)
        (emit_value-Clean s.slots s.env (type_fields x.registry t) t args full)
        λ v s' k. send-Clean x output v s'
  exec-Clean x (assign_slot _ target value _) s full =
      and_then-Clean s _ (write_slot target.index) full (Keeps-same _ s)
        (eval_expr-Clean s.slots s.env value full) λ v s' k. write_slot-Clean target.index v s'
  exec-Clean x (bad_stmt _) s full = clean_panic _

  exec_all-Clean :
      {w : World} (x : Wiring w) (b : Stmts w) (last : Value w) (s : State w)
      → Full s.slots
      → Clean (exec_all x b last s).0
  exec_all-Clean x done last s full = clean_ok last
  exec_all-Clean x (then_do t rest) last s full =
      and_then-Clean s (exec x t s) (exec_all x rest) full (exec-Keeps x t s)
        (exec-Clean x t s full) (exec_all-Clean x rest)

  exec_else-Clean :
      {w : World} (x : Wiring w) (e : Else w) (s : State w)
      → Full s.slots
      → Clean (exec_else x e s).0
  exec_else-Clean x no_else s full = clean_ok nil
  exec_else-Clean x (otherwise t) s full = exec-Clean x t s full

module _ {w : World} where
  bind_inputs-Clean :
      (inputs : Map Str (Value w)) (ds : List PortDecl) (s : State w)
      → Clean (bind_inputs inputs ds s).0
  unfolding bind_inputs bind_name
  bind_inputs-Clean inputs [] s = clean_ok _
  bind_inputs-Clean inputs (d ∷ ds) s = elim (Option-cases (lookup d.name inputs)) [
    | inl e ↦ rw (e, bind_inputs) (clean_err _ (λ h. h))
    | inr (v, e) ↦ rw (e, bind_inputs) (bind_inputs-Clean inputs ds _)
  ]

  call_run_fn-Clean :
      (x : Wiring w) (o : Option (Stmts w)) (s : State w)
      → Full s.slots
      → Clean (call_run_fn x o s).0
  unfolding call_run_fn
  call_run_fn-Clean x none s full = clean_panic _
  call_run_fn-Clean x (some b) s full = exec_all-Clean x b nil s full

  run_body-Clean : (e : Evaluator w) (s : State w) → Full s.slots → Clean (run_body e s).0
  unfolding run_body
  run_body-Clean e s full =
      and_then-Clean (enter_scope s) (bind_inputs e.inputs e.input_decls (enter_scope s))
        (λ _. call_run_fn (wiring e) e.prog.run_fn) full
        (bind_inputs-Keeps e.inputs e.input_decls (enter_scope s))
        (bind_inputs-Clean e.inputs e.input_decls (enter_scope s))
        λ _ s' k. call_run_fn-Clean (wiring e) e.prog.run_fn s' k

  recover-Clean : (fn : Str) (r : Eval (Value w)) → Clean r → Clean (recover fn r)
  recover-Clean fn (ok v) c = c
  recover-Clean fn (err f) c = c
  recover-Clean fn (panic p) c = clean_err _ (λ h. h)

  -- If no cell is empty when `EvalRun` starts, then whatever the script does, its outcome is not the
  -- failure of a read of an empty slot.
  pub eval_run-Clean : (e : Evaluator w) → e.in_tick ≡ false → Full e.slots → Clean (eval_run e).0
  unfolding eval_run finish
  eval_run-Clean e idle full =
      subst (λ (p : Eval (Value w) × Evaluator w). Clean p.0)
        (sym (activate-idle (codes "Run") run_body e idle))
        (recover-Clean (codes "Run") _
          (run_body-Clean (entered (codes "Run") e) (start (entered (codes "Run") e)) full))
