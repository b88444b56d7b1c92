-- ===== src/Evaluator/Refused.antt =====
-- evaluator/evaluator.go: the activations that `EvalInit` and `EvalRun` refuse because the host has
-- not bound an output or an input.
use tascript.Common.{
  false, none, some, List, [], ◌∷◌, ◌++◌, Str, Map, ◌≡◌, refl, ◌∙◌, ap, lookup, ok, err, panic,
  str_eq, codes, All,
}
use tascript.Registry.Value.{World}
use tascript.Resolved.{PortDecl}
use tascript.Evaluator.Failure.{Eval, Failure, output_missing, input_missing}
use tascript.Evaluator.Env.{Frame, set_name}
use tascript.Evaluator.Stmt.{Sink, State, M, and_then, leave_scope, bind_name}
use tascript.Evaluator.Machine.{
  Evaluator, check_outputs, init_body, bind_inputs, run_body, entered, finish, eval_init, eval_run,
  start,
}
use tascript.Evaluator.Laws.{activate-idle}

-- The name has an entry.
abbrev pub IsBound : {A : Type 0} → Map Str A → PortDecl → Type 0
IsBound {A} m d = (a : A) × (lookup d.name m ≡ some a)

module _ {w : World} where
  check_outputs-missing :
      (outputs : Map Str (Sink w)) (before after : List PortDecl) (d : PortDecl) (s : State w)
      → All (IsBound outputs) before
      → lookup d.name outputs ≡ none
      → check_outputs outputs (before ++ d ∷ after) s ≡ (err (output_missing d.token.pos d.name), s)
  unfolding check_outputs
  check_outputs-missing outputs [] after d s h e = rw (e, check_outputs)
  check_outputs-missing outputs (b ∷ bs) after d s ((sink, k), h) e =
      rw (k, check_outputs) (check_outputs-missing outputs bs after d s h e)

  and_then-err :
      {A B : Type 0} (p : Eval A × State w) (k : A → M w B) (f : Failure) (s : State w)
      → p ≡ (err f, s)
      → and_then p k ≡ (err f, s)
  and_then-err p k f s h = rw h refl

  finish-start :
      (fn : Str) (e : Evaluator w) (f : Failure)
      → finish (entered fn e) (err f, start (entered fn e))
        ≡ (err f, record e { curr_fn = fn; in_tick = false })
  unfolding finish
  finish-start fn e f = refl

  -- `EvalInit` stops at the first declared output that has no sink, with that declaration's error,
  -- before it evaluates anything: of the evaluator, only the name of the entry function changes.
  pub eval_init-unwired :
      (e : Evaluator w) (before after : List PortDecl) (d : PortDecl)
      → e.in_tick ≡ false
      → e.output_decls ≡ before ++ d ∷ after
      → All (IsBound e.outputs) before
      → lookup d.name e.outputs ≡ none
      → eval_init e ≡ (
        err (output_missing d.token.pos d.name),
        record e { curr_fn = codes "Init"; in_tick = false },
      )
  unfolding eval_init init_body
  eval_init-unwired e before after d idle split bound missing =
      activate-idle (codes "Init") init_body e idle
      ∙ ap (finish (entered (codes "Init") e)) (
          and_then-err _ _ _ _ (
            ap
              (λ (ds : List PortDecl).
                check_outputs e.outputs ds (start (entered (codes "Init") e)))
              split
            ∙ check_outputs-missing e.outputs before after d _ bound missing))
      ∙ finish-start (codes "Init") e _

  -- The state of a run that has bound some inputs in its own scope.
  abbrev in_scope : Evaluator w → Frame w → State w
  in_scope e f = record (start e) { env = f ∷ e.globals ∷ [] }

  bind_inputs-missing :
      (e : Evaluator w) (before after : List PortDecl) (d : PortDecl) (f : Frame w)
      → All (IsBound e.inputs) before
      → lookup d.name e.inputs ≡ none
      → leave_scope (bind_inputs e.inputs (before ++ d ∷ after) (in_scope e f))
        ≡ (err (input_missing d.token.pos d.name), start e)
  unfolding bind_inputs bind_name set_name
  bind_inputs-missing e [] after d f h missing = rw (missing, bind_inputs)
  bind_inputs-missing e (b ∷ bs) after d f ((v, k), h) missing =
      rw (k, bind_inputs) (bind_inputs-missing e bs after d _ h missing)

  leave_scope-and_then-err :
      {A B : Type 0} (p : Eval A × State w) (k : A → M w B) (f : Failure) (s : State w)
      → leave_scope p ≡ (err f, s)
      → leave_scope (and_then p k) ≡ (err f, s)
  leave_scope-and_then-err (ok a, s') k f s h = cc
  leave_scope-and_then-err (err g, s') k f s h = cc
  leave_scope-and_then-err (panic g, s') k f s h = cc

  -- `EvalRun` stops at the first declared input that the host has not bound, with that declaration's
  -- error, and the inputs bound before it are dropped with their scope: of the evaluator, only the
  -- name of the entry function changes.
  pub eval_run-unbound :
      (e : Evaluator w) (before after : List PortDecl) (d : PortDecl)
      → e.in_tick ≡ false
      → e.input_decls ≡ before ++ d ∷ after
      → All (IsBound e.inputs) before
      → lookup d.name e.inputs ≡ none
      → eval_run e ≡ (
        err (input_missing d.token.pos d.name),
        record e { curr_fn = codes "Run"; in_tick = false },
      )
  unfolding eval_run run_body
  eval_run-unbound e before after d idle split bound missing =
      activate-idle (codes "Run") run_body e idle
      ∙ ap (finish (entered (codes "Run") e)) (
          leave_scope-and_then-err _ _ _ _ (
            ap
              (λ (ds : List PortDecl).
                leave_scope (bind_inputs e.inputs ds (in_scope (entered (codes "Run") e) [])))
              split
            ∙ bind_inputs-missing (entered (codes "Run") e) before after d [] bound missing))
      ∙ finish-start (codes "Run") e _
