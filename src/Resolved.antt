-- ===== src/Resolved.antt =====
-- resolved/resolved.go: the typed tree that the resolver produces and the evaluator runs.
use tascript.Common.{ℕ, ℤ, Bool, Option, List, Str, Outcome}
use tascript.Token.{Token}
use tascript.Registry.Value.{TypeId, World, Value, Fields, bool_id, error_type_id}
use tascript.Registry.Rule.{Call}

-- A `SlotDecl` without its initializer: what a reference to the slot reads of it.
pub record SlotHead : Type 0 where
  pub token : Token
  pub kind : Str
  pub name : Str
  pub type : TypeId
  pub index : ℕ

mutual
  pub data Expr (w : World) : Type 0 where
    bad : Token → Expr w
    ident : Token → TypeId → Expr w
    integer : Token → ℤ → TypeId → Expr w
    float : Token → w.Float → TypeId → Expr w
    string : Token → Str → TypeId → Expr w
    boolean : Token → Bool → TypeId → Expr w
    infix_expr : Token → Expr w → Expr w → TypeId → (Value w → Value w → Call w) → Expr w
    logical : Token → Expr w → Expr w → Expr w
    prefix_expr : Token → Expr w → (Value w → Call w) → TypeId → Expr w
    member_access : Token → Expr w → Str → TypeId → (Value w → Call w) → Expr w
    slot_ref : Token → SlotHead → Expr w
    index_expr : Token → Expr w → Expr w → TypeId → Expr w
    method_call : Token → Expr w → Str → Args w → TypeId → (Value w → Fields w → Call w) → Expr w
    coerce : Expr w → TypeId → (Value w → Outcome ⊥ (Value w)) → Expr w

  -- `[]*CallArgExpr`: token, parameter name and value of each argument.
  pub data Args (w : World) : Type 0 where
    no_args : Args w
    arg : Token → Str → Expr w → Args w → Args w

-- `Expression.Type()`
unfoldable pub expr_type : {w : World} → Expr w → TypeId
expr_type (bad _) = error_type_id
expr_type (ident _ t) = t
expr_type (integer _ _ t) = t
expr_type (float _ _ t) = t
expr_type (string _ _ t) = t
expr_type (boolean _ _ t) = t
expr_type (infix_expr _ _ _ t _) = t
expr_type (logical _ _ _) = bool_id
expr_type (prefix_expr _ _ _ t) = t
expr_type (member_access _ _ _ t _) = t
expr_type (slot_ref _ s) = s.type
expr_type (index_expr _ _ _ t) = t
expr_type (method_call _ _ _ _ t _) = t
expr_type (coerce _ t _) = t

mutual
  pub data Stmt (w : World) : Type 0 where
    let_stmt : Token → Str → Expr w → TypeId → Stmt w
    assign_name : Token → Str → Expr w → TypeId → Stmt w
    assign_slot : Token → SlotHead → Expr w → TypeId → Stmt w
    emit : Token → Str → Args w → TypeId → Stmt w
    expr_stmt : Token → Expr w → Stmt w
    block : Token → Stmts w → Stmt w
    if_stmt : Token → Expr w → Token → Stmts w → Else w → Stmt w
    bad_stmt : Token → Stmt w

  -- The statements of a `BlockStmt`.
  pub data Stmts (w : World) : Type 0 where
    done : Stmts w
    then_do : Stmt w → Stmts w → Stmts w

  -- The `Else` of an `IfStmt`, which may be nil.
  pub data Else (w : World) : Type 0 where
    no_else : Else w
    otherwise : Stmt w → Else w

pub record SlotDecl (w : World) : Type 0 where
  pub head : SlotHead
  pub init : Option (Expr w)

-- An input or an output declaration.
pub record PortDecl : Type 0 where
  pub token : Token
  pub name : Str
  pub type : TypeId

pub record ConstDecl (w : World) : Type 0 where
  pub token : Token
  pub name : Str
  pub value : Expr w
  pub type : TypeId

pub data Decl (w : World) : Type 0 where
  const_decl : ConstDecl w → Decl w
  slot_decl : SlotDecl w → Decl w
  input_decl : PortDecl → Decl w
  output_decl : PortDecl → Decl w

-- A function is its body; `none` stands for a nil `*FunctionDecl`.
pub record Program (w : World) : Type 0 where
  pub decls : List (Decl w)
  pub init_fn : Option (Stmts w)
  pub run_fn : Option (Stmts w)
