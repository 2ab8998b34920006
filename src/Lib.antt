-- ===== src/Lib.antt =====
-- Verification library of xDSL, a Python framework for compilers built on SSA-based IRs.
--
-- The parts and how they interact
--   Affine       xdsl/ir/affine: affine expressions with their simplifying arithmetic, and affine maps
--   Ir           xdsl/ir/core.py and xdsl/rewriter.py: operations in blocks, blocks in
--                regions, the uses of values, erasing, and the rewriter
--   PatternRewriter  the rewriter of patterns and the walker, xdsl/pattern_rewriter.py, on Ir
--   Transforms   dead code elimination of xdsl/transforms, on PatternRewriter
--   Irdl         the segments of operations' arguments, xdsl/irdl/irdl.py
--   Lexer        the lexer of the MLIR syntax, xdsl/utils/lexer.py
--   Parser       the parser's tokens, lists and literals, and that of affine maps, in xdsl/parser
--   Context      the registry of dialects in xdsl/ir/core.py
--   Pipeline     the parser of pass pipelines, xdsl/utils/parse_pipeline.py
--   Passes       passes made from the specifications of Pipeline, and their application,
--                xdsl/passes.py
--   Riscv        register types of xdsl/dialects/riscv.py, and the queue and the allocation of registers
--                in xdsl/backend/riscv
--   Interpreter  the running of regions of Ir, xdsl/interpreter.py
--   Interpreters integers and arrays of xdsl/interpreters
--   Prelude      shared tests, lists, and Python's integers
--   Result       Python code that may raise
--   Examples     tests, and each theorem at a concrete input
--
-- How the code is read
--   Python's `int` is ℤ with floor division and modulo (Prelude/Int); what cannot be negative in the
--   code's use is the native ℕ. A function that may raise returns a `Result`, whose error is the class
--   of the exception. Objects of the IR are numbers that index the cells of a store (Ir/Store), and a
--   method is a state passing function that keeps what was written before a raise.
--   Affine/Expr, Affine/Arith and Affine/Map are affine_expr.py and affine_map.py, one function for each
--   method. `__add__` and `__mul__` run on fuel, the number of operations down the two left sides and
--   one; that is enough since each recursive call takes the left side of a left side.
--   Ir/Block is the part of `Operation` and `Block` that links operations into blocks, and Ir/Rewriter
--   the part of `Rewriter` that moves operations. `is_ancestor` runs on the fuel `depth`, enough if it is
--   more than the number of parents above the block; the iteration over a block runs on fuel, enough if
--   it is the length of the list that the block holds. Ir/Uses is the uses of SSA values and the operands
--   of operations, with `replace_by` and `erase`; the set of uses is a list. Ir/Region is the methods of
--   `Region` that add, insert, detach and move blocks.
--   Ir/Erase is the methods that drop references and erase, with `Rewriter.erase_op` and `replace_op`; the
--   recursion into regions runs on fuel, enough if it is more than the depth of the nesting, and the
--   number given for a new `ErasedSSAValue` is a parameter.
--   PatternRewriter is the class of that name, whose methods change its record and the store;
--   PatternRewriter/Methods are its methods, and PatternRewriter/Walker is `PatternRewriteWalker`. A pattern
--   is a function. Transforms/DeadCode is dead_code_elimination.py; which operations are pure is a parameter.
--   Irdl is the part of irdl.py on segment sizes: their computation and the accessors of definitions, with
--   Irdl/Build for the building of an operation and Irdl/Verify for the verification of its arguments. The
--   kinds of definitions, the options for the sizes and the two dictionaries of an operation are kept;
--   arguments and names are numbers, sizes are not negative, and the constraints are parameters.
--   Lexer is lexer.py: Lexer/Input and Lexer/Kind are its spans and kinds of tokens, Lexer/Regex its
--   regular expressions, Lexer/State and Lexer/Lex the class `Lexer`. Characters are numbers. The loop over
--   a string literal runs on fuel, one more than the characters of the text, of which each turn reads one.
--   Parser is `ParserState` and the token and list methods of `BaseParser`, and Parser/Literals those of
--   literals, on the lexer; a list is parsed on fuel, enough if it is more than what is left of the text. A
--   lexer or parser that raises leaves no state, as the code that catches its errors is not modelled.
--   Parser/AffineParser is the part of affine_parser.py for expressions and maps, which builds those of
--   Affine; its recursion runs on fuel.
--
--   Context is `Dialect` and `MLContext`, with the classes that xdsl/dialects/builtin.py makes for names
--   that are not registered; names are numbers, and a dictionary is an association list.
--   Pipeline is the parser on the tokens of its lexer, one function for each of its functions. Its loops
--   run on fuel, enough if it is more than the number of passes, and than that of the arguments of each.
--   Passes/Hints is the types of options with `isa`, Passes/Spec is `from_pass_spec` and what it calls, with
--   `setup_pipeline` of xdsl/xdsl_opt_main.py, and Passes/Run is `PipelinePass.apply`. A text is a number, the
--   replacement of dashes a function on numbers, and a default any object.
--   Riscv is the register types; Riscv/Queue is register_queue.py, and Riscv/Allocation the steps of
--   register_allocation.py for operations other than loops, on a state of the queue and the types;
--   Riscv/Exclude is its exclusion of the registers that a function uses already.
--   Interpreter/Scopes is `InterpreterContext`, Interpreter/Impls the registration of implementations, and
--   Interpreter/Run the class `Interpreter`, with its calls in Interpreter/Calls. An implementation is a function on the state, which has the
--   scopes and anything else that implementations keep. The loop over blocks runs on fuel, and so does that
--   over the operations of a block, enough if it is more than the list that the block holds.
--   Interpreters/Integers is comparisons.py and the integer operations of arith.py, and
--   Interpreters/ShapedArray is shaped_array.py at indices that are not negative.
--
-- Not modelled
--   Printing of the IR, the parsers of attributes and operations, the dialects' operation definitions, the
--   command line tools, and all else that PROJECT.json lists as not modelled.
pub mod Prelude
pub mod Result
pub mod Affine
pub mod Ir
pub mod PatternRewriter
pub mod Transforms
pub mod Context
pub mod Lexer
pub mod Parser
pub mod Pipeline
pub mod Passes
pub mod Riscv
pub mod Interpreter
pub mod Interpreters
mod Examples
pub mod Irdl
