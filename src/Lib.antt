-- ===== src/Lib.antt =====
-- tascript: a verification of the engine behind the trading scripts of the tascript language.
--
-- A builder (tascript.go) compiles one script: the script is lexed (lexer/lexer.go), parsed, and
-- resolved (resolver/) against a registry of types, operators and host rules (registry/). What comes
-- of it is run by an evaluator (evaluator/) that the host drives through an executable
-- (executable.go): the host fills slots and binds inputs and outputs, calls `Init` once
-- and then `Run` for each tick.
--
-- What models what:
--   Token            token/token.go: token types, keywords, the tests on identifiers.
--   Lexer            lexer/lexer.go. Cursor has the state and the loops that skip blanks, comments
--                    and line ends; Scan has NextToken and readString, and the loop that takes all
--                    tokens. Moves, Blanks and Tokens say how the cursor moves, where the loops stop
--                    and what a scanned token is like; Places has the lines and columns of a script
--                    apart from the code; Stream, Laws and Whole are about NextToken and about whole
--                    scripts.
--   Registry         registry/: Value and Rule have the values and the rules, Register and Script the
--                    registrations and lookups of registry.go, StdMath and Default the operators of
--                    std_math.go and DefaultRegistry. Laws, Widens, Widening, Sound, Integers, Good,
--                    GoodSteps and GoodDefault are about them.
--   Stdlib           stdlib/math.go: Math has RegisterMath, MathSound is about its functions.
--   Diag             diag/diag.go: the diagnostics of the parser and of the resolver.
--   Ast              ast/ast.go: the tree that the parser makes.
--   Resolver         resolver/: Scope is env.go, Report is helpers.go, and resolver.go is in Check (what
--                    the methods share), Operand, Args, Expr, Stmt, TypeDecl, Decl and Whole. Plain says
--                    which trees the parser makes when it reports nothing. Typing and ProgramTyping
--                    state the typing rules of the resolved tree, apart from the code. Post is what a
--                    method leaves, as a predicate on its outcome, with a rule for each way of putting
--                    methods together; OperandTyped, ReferenceTyped, ArgsTyped, ExprTyped, StmtTyped,
--                    BlockTyped, Fields, DeclTyped, SlotTyped and WholeTyped follow the code with it,
--                    and ScopeLaws and EnvGood are about scopes.
--   Builder          tascript.go: the builder's single use, and Compile from where the parser has
--                    returned; Laws is about it.
--   Resolved         resolved/resolved.go: the tree that the evaluator runs.
--   Evaluator        evaluator/: Env is env.go; Expr, Stmt, Machine and Host are evaluator.go, in the
--                    order expressions, statements, activations, calls of the host; Failure has the
--                    diagnostics of diag/diag.go that they return. Names, Effects and Activation say
--                    what a run can change; Laws, Ready, Refused, Full, FullRun and Lookup follow.
--   Executable       executable.go, with Init and Run also as they are when a rule or a sink of the
--                    host calls the executable meanwhile; Reentry is about such calls, Laws, Invariant
--                    and Reach about the host's calls as a step relation, Slots about what the host reads
--                    of what it wrote.
--   Common           lists, maps, 64-bit integers, outcomes and tests that these share.
--   Examples         the theorems at concrete scripts, programs and registries.
--
-- How the code is read. A call returns its result beside the state that it leaves. The result is an
-- outcome: a value, an error or a panic, and a panic is an error only where the code recovers it, in
-- EvalInit and EvalRun. Go's int is an integer that the operations wrap to 64 bits. A Go map is an
-- association list. The lexer's source and cursor are the rest of the input. Environments are never
-- shared beyond the block that made them, so the chain of environments is a stack of maps, the
-- innermost first. A cell of a slot is an optional value. Sinks belong to the host: a sink is its
-- type and the test of which values its Emit takes without a panic; the values that were emitted are
-- kept in a log with the name of their output. A sink that is nil does not occur. Floats, and values
-- of types that the host registers, are a record of operations, World, of which nothing is assumed.
-- Rules of the host are functions on values, so a rule that keeps a state of its own is not covered.
-- The calls of the executable that rules and sinks make while Init or Run is at work are a list beside
-- the activation, applied to the executable whose evaluator has `in_tick` set; the activation's body is
-- not affected by them, since the slots are closed to them, and outputs and inputs are read where no
-- such call can rebind them: Init looks at its sinks first and a compiled Init never emits, and no call
-- rebinds during Run. Reading the stage or a slot from within is not modelled.
--
-- Fuel. The lexer's loops take the number of bytes left and move at least one byte in a round, and
-- NextToken calls itself at most once, for which it has two rounds; until EOF, NextToken is called at
-- most once more than there are bytes. All other loops
-- are structural recursions.
--
-- A method of the resolver takes the diagnostics so far and returns its result with those that it
-- leaves; a panic of the resolver is not recovered. Go's scope is a chain of maps, of which the
-- resolver writes the innermost, and the code drops a map when it leaves the block that made it, so a
-- statement returns the scope as it leaves it. A binding has what a reference reads of the slot's
-- declaration in place of a pointer to it. A reference to a name that is bound without a slot panics
-- where it is made; in Go it does when its type is first read.
--
-- Not modelled: the parser (parser/), for whose result the builder takes the program and the
-- diagnostics as arguments, the module time of stdlib/, the text of messages, the printing of
-- nodes, and the example host. The evaluator's promises that rest on the resolver say so in their
-- conditions. Which programs the parser makes is the predicate PlainProgram: no bad nodes, a type at
-- each port, no dot in a name that is bound, and `Run` present.
pub mod Common
pub mod Stdlib
pub mod Token
pub mod Lexer
pub mod Registry
pub mod Resolved
pub mod Diag
pub mod Ast
pub mod Resolver
pub mod Builder
pub mod Evaluator
pub mod Executable
pub mod Examples
