-- ===== src/Parser/Handlers.antt =====
-- The handlers of the four languages in internal/parser/languages, each with the parser of its
-- grammar: the bytes of a file give the tree, or the text of an error.
use codewalker.Prelude.{Bytes, bytes, [], ◌∷◌, ◌++◌, Option, none, some, Result, ok, err, ◌>>=◌}
use codewalker.Parser.Tree.{Tree, children_of}
use codewalker.Parser.Registry.{LanguageHandler, ParserError, failed, panicked}
use codewalker.Parser.Golang
use codewalker.Parser.Python
use codewalker.Parser.Php
use codewalker.Parser.Typescript

abbrev pub Grammar : Type 0
Grammar = Bytes → Result Bytes Tree

unfoldable pub parse_ctx : Bytes → Grammar → Bytes → Result ParserError Tree
parse_ctx context grammar src = elim (grammar src) [
  | err e ↦ err (failed (context ++ (bytes ": " ++ e)))
  | ok root ↦ ok root
]

unfoldable pub or_panic {ℓ} : {A : Type ℓ} → Option A → Result ParserError A
or_panic none = err panicked
or_panic (some a) = ok a

unfoldable pub go_handler : Grammar → LanguageHandler
unfolding parse_ctx or_panic Golang.extract_top_level Golang.symbols
go_handler grammar = record {
  language = bytes "Go";
  extensions = bytes ".go" ∷ [];
  nodes = λ src. parse_ctx (bytes "golang parser") grammar src >>= λ root.
      or_panic (Golang.extract_top_level (children_of root));
  symbols = λ src. parse_ctx (bytes "golang symbols") grammar src >>= λ root.
      ok (Golang.symbols (children_of root));
}

unfoldable pub py_handler : Grammar → LanguageHandler
unfolding parse_ctx Python.extract_top_level Python.symbols
py_handler grammar = record {
  language = bytes "Python";
  extensions = bytes ".py" ∷ [];
  nodes = λ src. parse_ctx (bytes "python parser") grammar src >>= λ root.
      ok (Python.extract_top_level (children_of root));
  symbols = λ src. parse_ctx (bytes "python symbols") grammar src >>= λ root.
      ok (Python.symbols (children_of root));
}

unfoldable pub ts_handler : Grammar → LanguageHandler
unfolding parse_ctx Typescript.extract_top_level Typescript.symbols
ts_handler grammar = record {
  language = bytes "TypeScript";
  extensions = bytes ".ts" ∷ bytes ".tsx" ∷ [];
  nodes = λ src. parse_ctx (bytes "typescript parser") grammar src >>= λ root.
      ok (Typescript.extract_top_level (children_of root));
  symbols = λ src. parse_ctx (bytes "typescript symbols") grammar src >>= λ root.
      ok (Typescript.symbols (children_of root));
}

unfoldable pub php_handler : Grammar → LanguageHandler
unfolding parse_ctx Php.extract_top_level Php.symbols
php_handler grammar = record {
  language = bytes "PHP";
  extensions = bytes ".php" ∷ [];
  nodes = λ src. parse_ctx (bytes "php parser") grammar src >>= λ root.
      ok (Php.extract_top_level (children_of root));
  symbols = λ src. parse_ctx (bytes "php symbols") grammar src >>= λ root. ok (Php.symbols root);
}
