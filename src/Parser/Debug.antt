-- ===== src/Parser/Debug.antt =====
-- The derived `Debug` of the kinds, which the parser's messages show.
use asatsuyu.Base.{String}
use asatsuyu.Syntax.Kind.{SyntaxKind}

unfoldable pub debug_name : SyntaxKind → String
debug_name SyntaxKind.fn_kw = "FnKw"
debug_name SyntaxKind.pub_kw = "PubKw"
debug_name SyntaxKind.let_kw = "LetKw"
debug_name SyntaxKind.type_kw = "TypeKw"
debug_name SyntaxKind.match_kw = "MatchKw"
debug_name SyntaxKind.if_kw = "IfKw"
debug_name SyntaxKind.else_kw = "ElseKw"
debug_name SyntaxKind.import_kw = "ImportKw"
debug_name SyntaxKind.from_kw = "FromKw"
debug_name SyntaxKind.python_kw = "PythonKw"
debug_name SyntaxKind.as_kw = "AsKw"
debug_name SyntaxKind.true_kw = "TrueKw"
debug_name SyntaxKind.false_kw = "FalseKw"
debug_name SyntaxKind.try_kw = "TryKw"
debug_name SyntaxKind.mut_kw = "MutKw"
debug_name SyntaxKind.async_kw = "AsyncKw"
debug_name SyntaxKind.await_kw = "AwaitKw"
debug_name SyntaxKind.pure_kw = "PureKw"
debug_name SyntaxKind.int_lit = "IntLit"
debug_name SyntaxKind.float_lit = "FloatLit"
debug_name SyntaxKind.string_lit = "StringLit"
debug_name SyntaxKind.ident = "Ident"
debug_name SyntaxKind.plus = "Plus"
debug_name SyntaxKind.minus = "Minus"
debug_name SyntaxKind.star = "Star"
debug_name SyntaxKind.slash = "Slash"
debug_name SyntaxKind.percent = "Percent"
debug_name SyntaxKind.eq = "Eq"
debug_name SyntaxKind.eq_eq = "EqEq"
debug_name SyntaxKind.bang_eq = "BangEq"
debug_name SyntaxKind.lt = "Lt"
debug_name SyntaxKind.lt_eq = "LtEq"
debug_name SyntaxKind.gt = "Gt"
debug_name SyntaxKind.gt_eq = "GtEq"
debug_name SyntaxKind.bang = "Bang"
debug_name SyntaxKind.ampersand = "Ampersand"
debug_name SyntaxKind.pipe_single = "PipeSingle"
debug_name SyntaxKind.amp_amp = "AmpAmp"
debug_name SyntaxKind.pipe_pipe = "PipePipe"
debug_name SyntaxKind.pipe = "Pipe"
debug_name SyntaxKind.string_concat = "StringConcat"
debug_name SyntaxKind.l_paren = "LParen"
debug_name SyntaxKind.r_paren = "RParen"
debug_name SyntaxKind.l_brace = "LBrace"
debug_name SyntaxKind.r_brace = "RBrace"
debug_name SyntaxKind.l_bracket = "LBracket"
debug_name SyntaxKind.r_bracket = "RBracket"
debug_name SyntaxKind.comma = "Comma"
debug_name SyntaxKind.colon = "Colon"
debug_name SyntaxKind.semicolon = "Semicolon"
debug_name SyntaxKind.dot = "Dot"
debug_name SyntaxKind.dot_dot = "DotDot"
debug_name SyntaxKind.arrow = "Arrow"
debug_name SyntaxKind.underscore = "Underscore"
debug_name SyntaxKind.whitespace = "Whitespace"
debug_name SyntaxKind.newline = "Newline"
debug_name SyntaxKind.comment = "Comment"
debug_name SyntaxKind.error = "Error"
debug_name SyntaxKind.eof = "Eof"
debug_name SyntaxKind.source_file = "SourceFile"
debug_name SyntaxKind.fn_def = "FnDef"
debug_name SyntaxKind.type_def = "TypeDef"
debug_name SyntaxKind.import_stmt = "ImportStmt"
debug_name SyntaxKind.from_python_import_stmt = "FromPythonImportStmt"
debug_name SyntaxKind.let_stmt = "LetStmt"
debug_name SyntaxKind.assign_stmt = "AssignStmt"
debug_name SyntaxKind.literal_expr = "LiteralExpr"
debug_name SyntaxKind.ident_expr = "IdentExpr"
debug_name SyntaxKind.call_expr = "CallExpr"
debug_name SyntaxKind.pipeline_expr = "PipelineExpr"
debug_name SyntaxKind.match_expr = "MatchExpr"
debug_name SyntaxKind.if_expr = "IfExpr"
debug_name SyntaxKind.lambda_expr = "LambdaExpr"
debug_name SyntaxKind.block_expr = "BlockExpr"
debug_name SyntaxKind.binary_expr = "BinaryExpr"
debug_name SyntaxKind.unary_expr = "UnaryExpr"
debug_name SyntaxKind.field_access_expr = "FieldAccessExpr"
debug_name SyntaxKind.list_expr = "ListExpr"
debug_name SyntaxKind.tuple_expr = "TupleExpr"
debug_name SyntaxKind.record_expr = "RecordExpr"
debug_name SyntaxKind.paren_expr = "ParenExpr"
debug_name SyntaxKind.try_expr = "TryExpr"
debug_name SyntaxKind.await_expr = "AwaitExpr"
debug_name SyntaxKind.wildcard_pat = "WildcardPat"
debug_name SyntaxKind.ident_pat = "IdentPat"
debug_name SyntaxKind.literal_pat = "LiteralPat"
debug_name SyntaxKind.constructor_pat = "ConstructorPat"
debug_name SyntaxKind.list_pat = "ListPat"
debug_name SyntaxKind.tuple_pat = "TuplePat"
debug_name SyntaxKind.type_expr = "TypeExpr"
debug_name SyntaxKind.type_param = "TypeParam"
debug_name SyntaxKind.variant = "Variant"
debug_name SyntaxKind.field = "Field"
debug_name SyntaxKind.match_arm = "MatchArm"
debug_name SyntaxKind.guard = "Guard"
debug_name SyntaxKind.param = "Param"
debug_name SyntaxKind.param_list = "ParamList"
debug_name SyntaxKind.arg_list = "ArgList"
debug_name SyntaxKind.return_type = "ReturnType"
debug_name SyntaxKind.visibility = "Visibility"
debug_name SyntaxKind.path = "Path"
debug_name SyntaxKind.node_error = "NodeError"
debug_name SyntaxKind.last = "__LAST"
