-- ===== src/Builder/Laws.antt =====
-- tascript.go: `Compile` on each of its branches, and what it makes of a program.
use tascript.Common.{
  Option, some, All, true, false, [], ◌∷◌, ◌≡◌, ◌≢◌, refl, sym, ◌∙◌, ap, subst, inl, inr,
  Bool-cases, Outcome, ok, err, panic, if_true, if_false,
}
use tascript.Registry.Value.{World}
use tascript.Registry.Rule.{Registry, RegistryError, registry_sealed}
use tascript.Registry.Laws.{Step, sealed-refuses}
use tascript.Registry.Register.{seal}
use tascript.Registry.Good.{GoodReg}
use tascript.Resolved.{Program}
use tascript.Ast
use tascript.Evaluator.Failure.{Failure}
use tascript.Evaluator.Machine.{slots_of}
use tascript.Evaluator.Full.{IsEmptyRead}
use tascript.Executable.{Executable, compiled, stage_initialized, engine, run}
use tascript.Executable.Laws.{Steps}
use tascript.Executable.Reach.{Numbered, run-no-IsEmptyRead}
use tascript.Resolver.Check.{Errs}
use tascript.Resolver.Whole.{resolve}
use tascript.Resolver.Plain.{PlainProgram}
use tascript.Resolver.Post.{IsCheck, Grows, Grows-IsCheck, Post}
use tascript.Resolver.ProgramTyping.{TypedProgram}
use tascript.Resolver.EnvGood.{UndottedTypes}
use tascript.Resolver.WholeTyped.{ResolvedOk, resolve-ResolvedOk}
use tascript.Builder.{
  Builder, CompileError, builder_spent, Compiled, built, rejected, executable_if, after_resolve,
  compile_parsed, compile,
}

module _ {w : World} where
  -- The builder after a call.
  abbrev pub left : Outcome CompileError (Compiled w) × Builder w → Builder w
  left p = p.1

  after_resolve-spent :
      (b : Builder w) (o : Outcome ⊥ ((Program w × Registry w) × Errs))
      → (left (after_resolve b o)).spent ≡ b.spent
  after_resolve-spent b (ok ((prog, r), errs)) = refl
  after_resolve-spent b (err e) = absurd e
  after_resolve-spent b (panic p) = refl

  compile_parsed-spent :
      (b : Builder w) (prog : Ast.Program w) (errs : Errs)
      → (left (compile_parsed b prog errs)).spent ≡ b.spent
  unfolding compile_parsed
  compile_parsed-spent b prog [] = after_resolve-spent b (resolve b.reg prog [])
  compile_parsed-spent b prog (d ∷ ds) = refl

  compile-spent :
      (b : Builder w) (prog : Ast.Program w) (errs : Errs)
      → (left (compile b prog errs)).spent ≡ true
  unfolding compile
  compile-spent b prog errs = elim (Bool-cases b.spent) [
    | inl e ↦ ap (λ p. (left p).spent) (if_true _ _ e) ∙ e
    | inr n ↦
        ap (λ p. (left p).spent) (if_false _ _ n)
        ∙ compile_parsed-spent (record b { spent = true }) prog errs
  ]

  spent-refuses :
      (b : Builder w) (prog : Ast.Program w) (errs : Errs)
      → b.spent ≡ true
      → compile b prog errs ≡ (err builder_spent, b)
  unfolding compile
  spent-refuses b prog errs e = if_true _ _ e

  -- A builder compiles once: whatever the first call was given and however it ended, a second call
  -- returns the error for a spent builder and changes nothing.
  pub compile-once :
      (b : Builder w) (first second : Ast.Program w) (errs errs' : Errs)
      → compile (compile b first errs).1 second errs'
        ≡ (err builder_spent, (compile b first errs).1)
  compile-once b first second errs errs' =
      spent-refuses (compile b first errs).1 second errs' (compile-spent b first errs)

  compile-fresh :
      (b : Builder w) (prog : Ast.Program w) (errs : Errs)
      → b.spent ≡ false
      → compile b prog errs ≡ compile_parsed (record b { spent = true }) prog errs
  unfolding compile
  compile-fresh b prog errs n = if_false _ _ n

  -- What `Compile` returns for a program that the parser accepts: an executable of a program that
  -- follows the typing rules, its slots numbered in order, or diagnostics, at least one, of the check
  -- phase.
  pub data CompiledOk (r : Registry w) : Outcome CompileError (Compiled w) → Type 0 where
    executable :
        (prog : Program w) (r' : Registry w)
        → TypedProgram r prog r'
        → Numbered 0 (slots_of prog.decls)
        → CompiledOk r (ok (built (compiled prog (seal r'))))
    diagnostics : (errs : Errs) → errs ≢ [] → All IsCheck errs → CompiledOk r (ok (rejected errs))

  -- With the builder that it leaves, whose registry is sealed.
  abbrev pub CompileOk : Registry w → Outcome CompileError (Compiled w) × Builder w → Type 0
  CompileOk r p = CompiledOk r p.0 × (p.1.reg.sealed ≡ true)

  executable_if-Ok :
      (r r' : Registry w) (prog : Program w) (errs : Errs)
      → Grows [] errs
      → ResolvedOk r (prog, r') errs
      → CompiledOk r (ok (executable_if prog (seal r') errs))
  executable_if-Ok r r' prog [] g h = executable prog r' (h.typed refl) h.numbered
  executable_if-Ok r r' prog (d ∷ ds) g h =
      diagnostics (d ∷ ds) (λ e. cc) (Grows-IsCheck (d ∷ ds) g)

  after_resolve-Ok :
      (r : Registry w) (b : Builder w) (o : Outcome ⊥ ((Program w × Registry w) × Errs))
      → Post [] (ResolvedOk r) o
      → CompileOk r (after_resolve b o)
  unfolding seal
  after_resolve-Ok r b o (Post.post (prog, r') errs g h) =
      (executable_if-Ok r r' prog errs g h, refl)

  -- Given a program that the parser accepts, with `Run`, a fresh builder whose registry has no rule
  -- or type that names the error type, no dot in a type's name and none in a declaration word, returns:
  -- `Compile` does not panic and has no error. It seals the registry, and it returns an executable, of a
  -- program that follows the typing rules and whose slots are numbered in order, or else diagnostics, at
  -- least one, and all of the check phase.
  pub compile-CompileOk :
      (b : Builder w) (prog : Ast.Program w)
      → b.spent ≡ false
      → GoodReg b.reg
      → UndottedTypes b.reg
      → PlainProgram prog
      → CompileOk b.reg (compile b prog [])
  unfolding compile_parsed
  compile-CompileOk b prog n good dots p =
      subst (CompileOk b.reg) (sym (compile-fresh b prog [] n)) (
        after_resolve-Ok b.reg (record b { spent = true }) (resolve b.reg prog [])
          (resolve-ResolvedOk b.reg prog good dots p))

  -- After `Compile`, in the setting of `compile-CompileOk`, the builder's registry is closed: each
  -- registration fails with the error of a sealed registry, and leaves the registry as it is.
  pub compile-closes :
      (b : Builder w) (prog : Ast.Program w) (r : Registry w) (e : Option RegistryError)
      → b.spent ≡ false
      → GoodReg b.reg
      → UndottedTypes b.reg
      → PlainProgram prog
      → Step (compile b prog []).1.reg e r
      → (e ≡ some registry_sealed) × (r ≡ (compile b prog []).1.reg)
  compile-closes b prog r e n good dots p step =
      sealed-refuses _ r e (compile-CompileOk b prog n good dots p).1 step

  built_same :
      (a b : Executable w) (o : Outcome CompileError (Compiled w))
      → o ≡ ok (built a)
      → o ≡ ok (built b)
      → a ≡ b
  built_same a b o h k = cc

  built-no-IsEmptyRead :
      (r : Registry w) (o : Outcome CompileError (Compiled w)) (x y : Executable w) (f : Failure)
      → CompiledOk r o
      → o ≡ ok (built x)
      → Steps x y
      → y.stage ≡ stage_initialized
      → (run y).0 ≡ err (engine f)
      → ¬ IsEmptyRead f
  built-no-IsEmptyRead r o x y f (executable prog r' t numbered) e steps =
      run-no-IsEmptyRead prog (seal r') y f numbered
        (subst (λ (z : Executable w). Steps z y) (built_same _ _ _ e refl) steps)
  built-no-IsEmptyRead r o x y f (diagnostics errs n c) e steps = absurd (cc)

  -- An executable that `Compile` returns, in the setting of `compile-CompileOk`, never fails in `Run`
  -- because a slot is read before it was filled, once it is initialized, whatever calls the host made.
  pub compile-run-no-IsEmptyRead :
      (b : Builder w) (prog : Ast.Program w) (x y : Executable w) (f : Failure)
      → b.spent ≡ false
      → GoodReg b.reg
      → UndottedTypes b.reg
      → PlainProgram prog
      → (compile b prog []).0 ≡ ok (built x)
      → Steps x y
      → y.stage ≡ stage_initialized
      → (run y).0 ≡ err (engine f)
      → ¬ IsEmptyRead f
  compile-run-no-IsEmptyRead b prog x y f n good dots p =
      built-no-IsEmptyRead b.reg (compile b prog []).0 x y f
        (compile-CompileOk b prog n good dots p).0
