-- ===== src/Ast.antt =====
-- ast/ast.go: the syntax tree that the parser produces. An `IdentExpr` in a place that takes nothing
-- else is its token, and `String()` of it is the token's literal. A field that may be nil is an
-- `Option`, or has a constructor for nil.
use tascript.Common.{ℤ, Bool, false, true, Option, List, [], ◌∷◌, Str}
use tascript.Token.{Token, Pos}
use tascript.Registry.Value.{World}

mutual
  pub data Expr (w : World) : Type 0 where
    bad : Token → Expr w
    ident : Token → Expr w
    integer : Token → ℤ → Expr w
    float : Token → w.Float → Expr w
    string : Token → Str → Expr w
    boolean : Token → Bool → Expr w
    infix_expr : Token → Expr w → Expr w → Expr w
    prefix_expr : Token → Expr w → Expr w
    member_access : Token → Expr w → Token → Expr w
    index_expr : Token → Expr w → Expr w → Expr w
    call : Token → Expr w → Exprs w → Kwargs w → Expr w

  pub data Exprs (w : World) : Type 0 where
    no_exprs : Exprs w
    expr : Expr w → Exprs w → Exprs w

  -- `[]*KwargsExpr`: token, key and value of each.
  pub data Kwargs (w : World) : Type 0 where
    no_kwargs : Kwargs w
    kwarg : Token → Token → Expr w → Kwargs w → Kwargs w

-- `FieldExpr`
pub record Field : Type 0 where
  pub token : Token
  pub name : Token
  pub type : Token

-- `TypeDecl`: an `IdentExpr`, a `TypeExpr`, or nil.
pub data TypeDecl : Type 0 where
  type_ident : Token → TypeDecl
  type_expr : Token → List Field → TypeDecl
  no_type : TypeDecl

mutual
  pub data Stmt (w : World) : Type 0 where
    let_stmt : Token → Token → Expr w → Stmt w
    assign_stmt : Token → Expr w → Expr w → Stmt w
    expr_stmt : Token → Expr w → Stmt w
    block : Token → Stmts w → Stmt w
    if_stmt : Token → Expr w → Token → Stmts w → Else w → Stmt w
    bad_stmt : Pos → Pos → Stmt w

  -- The statements of a `BlockStmt`.
  pub data Stmts (w : World) : Type 0 where
    done : Stmts w
    then_do : Stmt w → Stmts w → Stmts w

  -- The `Else` of an `IfStmt`, which may be nil.
  pub data Else (w : World) : Type 0 where
    no_else : Else w
    otherwise : Stmt w → Else w

pub record ConstDecl (w : World) : Type 0 where
  pub token : Token
  pub identifier : Token
  pub value : Expr w

-- `InputDecl` and `OutputDecl`.
pub record PortDecl : Type 0 where
  pub token : Token
  pub identifier : Token
  pub type : TypeDecl

pub record KindDecl (w : World) : Type 0 where
  pub token : Token
  pub keyword : Str
  pub identifier : Token
  pub type : Option Token
  pub value : Option (Expr w)

-- An element of `Program.Decls`: one of the four declarations, or another statement.
pub data Decl (w : World) : Type 0 where
  const_decl : ConstDecl w → Decl w
  input_decl : PortDecl → Decl w
  output_decl : PortDecl → Decl w
  kind_decl : KindDecl w → Decl w
  other_decl : Stmt w → Decl w

pub record FunctionDecl (w : World) : Type 0 where
  pub token : Token
  pub identifier : Token
  pub body_token : Token
  pub body : Stmts w

pub record Program (w : World) : Type 0 where
  pub decls : List (Decl w)
  pub init_fn : Option (FunctionDecl w)
  pub run_fn : Option (FunctionDecl w)
  pub valid : Bool

-- `Tok()` of an expression.
unfoldable pub tok : {w : World} → Expr w → Token
tok (bad t) = t
tok (ident t) = t
tok (integer t _) = t
tok (float t _) = t
tok (string t _) = t
tok (boolean t _) = t
tok (infix_expr t _ _) = t
tok (prefix_expr t _) = t
tok (member_access t _ _) = t
tok (index_expr t _ _) = t
tok (call t _ _ _) = t

-- `IsBadExpr`
unfoldable pub is_bad_expr : {w : World} → Expr w → Bool
is_bad_expr (bad _) = true
is_bad_expr _ = false

module _ {w : World} where
  -- `Consts()`, `Inputs()`, `Outputs()` and `KindDecls()`.
  unfoldable pub consts : List (Decl w) → List (ConstDecl w)
  consts [] = []
  consts (const_decl d ∷ ds) = d ∷ consts ds
  consts (_ ∷ ds) = consts ds

  unfoldable pub inputs : List (Decl w) → List PortDecl
  inputs [] = []
  inputs (input_decl d ∷ ds) = d ∷ inputs ds
  inputs (_ ∷ ds) = inputs ds

  unfoldable pub outputs : List (Decl w) → List PortDecl
  outputs [] = []
  outputs (output_decl d ∷ ds) = d ∷ outputs ds
  outputs (_ ∷ ds) = outputs ds

  unfoldable pub kind_decls : List (Decl w) → List (KindDecl w)
  kind_decls [] = []
  kind_decls (kind_decl d ∷ ds) = d ∷ kind_decls ds
  kind_decls (_ ∷ ds) = kind_decls ds
