-- ===== src/Resolver/Whole.antt =====
-- resolver/resolver.go: `Resolve`, the walk over the top-level declarations and then the functions.
use tascript.Common.{Option, none, some, List, [], ◌∷◌, Str, codes, str_eq, nil_dereference}
use tascript.Registry.Value.{World}
use tascript.Registry.Rule.{Registry}
use tascript.Registry.Register.{lookup_decl_kind}
use tascript.Resolved.{SlotHead, expr_type}
use tascript.Resolved
use tascript.Ast
use tascript.Resolver.Scope.{Symbol, slot_symbol, enclosed, env_from_registry}
use tascript.Resolver.Check.{Check, ◌>>=◌, give, crash}
use tascript.Resolver.Stmt.{resolve_stmts}
use tascript.Resolver.Decl.{Walk, resolve_decl}

module _ {w : World} where
  unfoldable pub declared_symbols : Registry w → List (Ast.Decl w) → List Symbol
  declared_symbols r [] = []
  declared_symbols r (Ast.const_decl d ∷ ds) = d.identifier.literal ∷ declared_symbols r ds
  declared_symbols r (Ast.input_decl d ∷ ds) = d.identifier.literal ∷ declared_symbols r ds
  declared_symbols r (Ast.output_decl d ∷ ds) = d.identifier.literal ∷ declared_symbols r ds
  declared_symbols r (Ast.kind_decl d ∷ ds) =
      let rest = declared_symbols r ds in
      elim (lookup_decl_kind r d.keyword) [
        | some kind ↦ slot_symbol kind d.identifier.literal ∷ rest
        | none ↦ rest
      ]
  declared_symbols r (Ast.other_decl _ ∷ ds) = declared_symbols r ds

  unfoldable pub resolve_decls : List Symbol → List (Ast.Decl w) → Walk w → Check (Walk w)
  resolve_decls names [] k = give k
  resolve_decls names (d ∷ ds) k = do k' ← resolve_decl names d k; resolve_decls names ds k'

  unfoldable pub resolve_func :
      Str → List Symbol → Walk w → Ast.FunctionDecl w → Check (Resolved.Stmts w)
  resolve_func name names k f =
      resolve_stmts (record { reg = k.reg; curr_fn = name; declared_names = names })
        (enclosed k.scope) f.body

  unfoldable pub resolve_init_fn :
      List Symbol → Walk w → Option (Ast.FunctionDecl w) → Check (Option (Resolved.Stmts w))
  resolve_init_fn names k none = give none
  resolve_init_fn names k (some f) = do
    body ← resolve_func (codes "Init") names k f
    give (some body)

  -- `Resolve` reads the body of `Run` without a test for nil.
  unfoldable pub resolve_run_fn :
      List Symbol → Walk w → Option (Ast.FunctionDecl w) → Check (Option (Resolved.Stmts w))
  resolve_run_fn names k none = crash nil_dereference
  resolve_run_fn names k (some f) = do body ← resolve_func (codes "Run") names k f; give (some body)

  abbrev pub start_walk : Registry w → Walk w
  start_walk r = record { reg = r; scope = env_from_registry r; decls = []; slot_count = 0 }

  -- `Resolve`, with the registry as it leaves it.
  unfoldable pub resolve : Registry w → Ast.Program w → Check (Resolved.Program w × Registry w)
  resolve r prog = do
    k ← resolve_decls (declared_symbols r prog.decls) prog.decls (start_walk r)
    init ← resolve_init_fn (declared_symbols r prog.decls) k prog.init_fn
    run ← resolve_run_fn (declared_symbols r prog.decls) k prog.run_fn
    give (record { decls = k.decls; init_fn = init; run_fn = run }, k.reg)
