-- ===== src/Resolver/WholeTyped.antt =====
-- resolver/resolver.go: what `Resolve` leaves.
use tascript.Common.{Option, none, some, List, [], ◌∷◌, Str, codes, ◌≡◌, ◌≢◌, refl, sym, subst, All}
use tascript.Registry.Value.{World}
use tascript.Registry.Rule.{Registry}
use tascript.Registry.Good.{GoodReg}
use tascript.Resolved
use tascript.Ast
use tascript.Evaluator.Machine.{slots_of}
use tascript.Executable.Reach.{Numbered}
use tascript.Resolver.Scope.{Symbol, Scope, env_from_registry, enclosed}
use tascript.Resolver.Check.{Errs}
use tascript.Resolver.Decl.{Walk, resolve_decl}
use tascript.Resolver.Whole.{
  declared_symbols, resolve_decls, resolve_func, resolve_init_fn, resolve_run_fn, start_walk,
  resolve,
}
use tascript.Resolver.Plain.{PlainDecl, PlainFn, PlainStmts, PlainProgram}
use tascript.Resolver.Post.{Grows-nil, Post, Ensures, Clear, bind-Post, give-Post}
use tascript.Resolver.Typing.{TypedStmts}
use tascript.Resolver.ProgramTyping.{TypedDecls, TypedFn, TypedProgram}
use tascript.Resolver.ProgramTyping
use tascript.Resolver.ScopeLaws.{enclosed-GoodScope, enclosed-SlotNames}
use tascript.Resolver.BlockTyped.{resolve_stmts-Typed}
use tascript.Resolver.EnvGood.{UndottedTypes, env_from_registry-Good}
use tascript.Resolver.DeclTyped.{
  WalkOk, WalkOk-Grows, resolve_const-Ok, resolve_input-Ok, resolve_output-Ok,
}
use tascript.Resolver.SlotTyped.{resolve_kind_decl-Ok}

module _ {w : World} (r : Registry w) (Γ : Scope) where
  resolve_decl-Ok :
      (symbols : List Symbol) (d : Ast.Decl w) (k : Walk w) (errs : Errs)
      → WalkOk r Γ k errs
      → PlainDecl d
      → Ensures errs (WalkOk r Γ) (resolve_decl symbols d k)
  unfolding resolve_decl
  resolve_decl-Ok symbols (Ast.const_decl d) k errs h p = resolve_const-Ok r Γ symbols d k errs h p
  resolve_decl-Ok symbols (Ast.input_decl d) k errs h p = resolve_input-Ok r Γ d k errs h p
  resolve_decl-Ok symbols (Ast.output_decl d) k errs h p = resolve_output-Ok r Γ d k errs h p
  resolve_decl-Ok symbols (Ast.kind_decl d) k errs h p =
      resolve_kind_decl-Ok r Γ symbols d k errs h p
  resolve_decl-Ok symbols (Ast.other_decl _) k errs h p = absurd p

  resolve_decls-Ok :
      (symbols : List Symbol) (ds : List (Ast.Decl w)) (k : Walk w) (errs : Errs)
      → WalkOk r Γ k errs
      → All PlainDecl ds
      → Ensures errs (WalkOk r Γ) (resolve_decls symbols ds k)
  unfolding resolve_decls
  resolve_decls-Ok symbols [] k errs h p = give-Post k errs h
  resolve_decls-Ok symbols (d ∷ ds) k errs h p =
      bind-Post _ _ (resolve_decl-Ok symbols d k errs h p.0)
        (λ k' e1 g1 h1. resolve_decls-Ok symbols ds k' e1 h1 p.1)

  resolve_func-Typed :
      (name : Str) (symbols : List Symbol) (k : Walk w) (f : Ast.FunctionDecl w) (errs : Errs)
      → WalkOk r Γ k errs
      → PlainStmts f.body
      → Ensures errs
          (Clear (TypedStmts k.reg name (enclosed k.scope)))
          (resolve_func name symbols k f)
  unfolding resolve_func
  resolve_func-Typed name symbols k f errs h p =
      resolve_stmts-Typed (record { reg = k.reg; curr_fn = name; declared_names = symbols })
        (enclosed k.scope) f.body errs
        (record { good = h.good; names = enclosed-SlotNames k.scope h.names }) p
        (λ q. enclosed-GoodScope k.scope (h.scope q))

  resolve_init_fn-Typed :
      (symbols : List Symbol) (k : Walk w) (f : Option (Ast.FunctionDecl w)) (errs : Errs)
      → WalkOk r Γ k errs
      → PlainFn f
      → Ensures errs (Clear (TypedFn k.reg k.scope (codes "Init"))) (resolve_init_fn symbols k f)
  unfolding resolve_init_fn
  resolve_init_fn-Typed symbols k none errs h p = give-Post _ errs (λ _. ProgramTyping.absent)
  resolve_init_fn-Typed symbols k (some f) errs h p =
      bind-Post _ _ (resolve_func-Typed (codes "Init") symbols k f errs h p)
        (λ ss e1 g1 t. give-Post _ e1 (λ q. ProgramTyping.present ss (t q)))

  -- The function that is there.
  abbrev RunTyped : Walk w → Option (Resolved.Stmts w) → Type 0
  RunTyped k o =
      (ss : Resolved.Stmts w) × (o ≡ some ss) × TypedFn k.reg k.scope (codes "Run") (some ss)

  resolve_run_fn-Typed :
      (symbols : List Symbol) (k : Walk w) (f : Option (Ast.FunctionDecl w)) (errs : Errs)
      → WalkOk r Γ k errs
      → PlainFn f
      → f ≢ none
      → Ensures errs (Clear (RunTyped k)) (resolve_run_fn symbols k f)
  unfolding resolve_run_fn
  resolve_run_fn-Typed symbols k none errs h p n = absurd (n refl)
  resolve_run_fn-Typed symbols k (some f) errs h p n =
      bind-Post _ _ (resolve_func-Typed (codes "Run") symbols k f errs h p)
        (λ ss e1 g1 t. give-Post _ e1 (λ q. (ss, refl, ProgramTyping.present ss (t q))))

module _ {w : World} where
  start_walk-Ok :
      (r : Registry w)
      → GoodReg r
      → UndottedTypes r
      → WalkOk r (env_from_registry r) (start_walk r) []
  unfolding slots_of
  start_walk-Ok r good dots =
      let env = env_from_registry-Good r good dots in
      record {
        good = good;
        names = env.1;
        scope = λ _. env.0;
        counted = (tt, refl);
        typed = λ _. ProgramTyping.no_decls;
      }

  -- What `Resolve` returns, and the registry beside it.
  pub record ResolvedOk (r : Registry w) (p : Resolved.Program w × Registry w) (errs : Errs)
      : Type 0 where
    pub good : GoodReg p.1
    pub numbered : Numbered 0 (slots_of p.0.decls)
    pub typed : errs ≡ [] → TypedProgram r p.0 p.1

  -- On a program as the parser builds it when it reports nothing, and a registry in which no rule or
  -- type names the error type, no declaration word has a dot and no type's name has one, the resolver
  -- returns: it does not panic. In the registry that it leaves, still no rule or type names the error type
  -- and no declaration word has a dot; it numbers the slots in the order of their declarations, and if it
  -- reports nothing, the program that it returns follows the typing rules.
  pub resolve-ResolvedOk :
      (r : Registry w) (prog : Ast.Program w)
      → GoodReg r
      → UndottedTypes r
      → PlainProgram prog
      → Post [] (ResolvedOk r) (resolve r prog [])
  unfolding resolve
  resolve-ResolvedOk r prog good dots p =
      let Γ = env_from_registry r in
      let symbols = declared_symbols r prog.decls in
      bind-Post _ _
        (resolve_decls-Ok r Γ symbols prog.decls (start_walk r) [] (start_walk-Ok r good dots) p.0)
        (λ k e1 g1 h1.
          bind-Post _ _ (resolve_init_fn-Typed r Γ symbols k prog.init_fn e1 h1 p.1.0)
            (λ i e2 g2 t2.
              let h2 = WalkOk-Grows r Γ k e1 e2 g2 h1 in
              bind-Post _ _ (resolve_run_fn-Typed r Γ symbols k prog.run_fn e2 h2 p.1.1.0 p.1.1.1)
                (λ o e3 g3 t3. give-Post _ e3 (record {
                  good = h1.good;
                  numbered = h1.counted.0;
                  typed = λ q.
                      whole k i o (h2.typed (Grows-nil e2 e3 g3 q)) (t2 (Grows-nil e2 e3 g3 q))
                        (t3 q);
                }))))
    where
      whole :
          (k : Walk w) (i o : Option (Resolved.Stmts w))
          → TypedDecls r (env_from_registry r) k.decls k.reg k.scope
          → TypedFn k.reg k.scope (codes "Init") i
          → RunTyped r (env_from_registry r) k o
          → TypedProgram r (record { decls = k.decls; init_fn = i; run_fn = o }) k.reg
      whole k i o ds t run =
          subst
            (λ (f : Option (Resolved.Stmts w)).
              TypedProgram r (record { decls = k.decls; init_fn = i; run_fn = f }) k.reg)
            (sym run.1) (ProgramTyping.program k.decls i run.0 ds t run.2)
