-- ===== src/Builder.antt =====
-- tascript.go: the builder. `Compile` is modelled from where the parser has returned, with the
-- program that it built and its diagnostics.
pub mod Laws
use tascript.Common.{Bool, true, false, List, [], ◌∷◌, Outcome, ok, err, panic, if◌then◌else◌}
use tascript.Registry.Value.{World}
use tascript.Registry.Rule.{Registry}
use tascript.Registry.Register.{seal}
use tascript.Registry.Default.{default_registry}
use tascript.Resolved.{Program}
use tascript.Ast
use tascript.Executable.{Executable, compiled}
use tascript.Resolver.Check.{Errs}
use tascript.Resolver.Whole.{resolve}

pub record Builder (w : World) : Type 0 where
  pub reg : Registry w
  pub spent : Bool

-- `ErrBuilderSpent`
pub data CompileError : Type 0 where
  builder_spent : CompileError

-- An executable, or the diagnostics for which there is none.
pub data Compiled (w : World) : Type 0 where
  built : Executable w → Compiled w
  rejected : Errs → Compiled w

module _ {w : World} where
  unfoldable pub new_builder : Builder w
  new_builder = record { reg = default_registry; spent = false }

  abbrev pub executable_if : Program w → Registry w → Errs → Compiled w
  executable_if prog r [] = built (compiled prog r)
  executable_if prog r (d ∷ ds) = rejected (d ∷ ds)

  -- What follows the resolver. If the resolver panics, the registry stays unsealed; what the resolver
  -- had added to it by then is not followed.
  abbrev pub after_resolve :
      Builder w
      → Outcome ⊥ ((Program w × Registry w) × Errs)
      → Outcome CompileError (Compiled w) × Builder w
  after_resolve b (ok ((prog, r), errs)) =
      (ok (executable_if prog (seal r) errs), record b { reg = seal r })
  after_resolve b (err e) = elim e [ ]
  after_resolve b (panic p) = (panic p, b)

  unfoldable pub compile_parsed :
      Builder w → Ast.Program w → Errs → Outcome CompileError (Compiled w) × Builder w
  compile_parsed b prog [] = after_resolve b (resolve b.reg prog [])
  compile_parsed b prog (d ∷ ds) = (ok (rejected (d ∷ ds)), b)

  -- `Compile`
  unfoldable pub compile :
      Builder w → Ast.Program w → Errs → Outcome CompileError (Compiled w) × Builder w
  compile b prog parse_errs =
      if b.spent
      then (err builder_spent, b)
      else compile_parsed (record b { spent = true }) prog parse_errs
