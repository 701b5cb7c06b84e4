-- ===== src/Tests/Parsers.antt =====
-- A Go file of two functions and a method, and the theorems on parsers applied to it.
use codewalker.Prelude.{
  Bytes, bytes, false, List, [], some, Result, ok, ◌≡◌, refl, arith, ◌==◌, if◌then◌else◌, length,
  ◌≤◌, ◌+◌,
}
use codewalker.Prelude.Strings.{to_lower}
use codewalker.Graph.Builder.{Node, build}
use codewalker.Parser.Tree.{TreeInfo, Tree, Trees, tree, ended, child}
use codewalker.Parser.Labels.{trim_text, length-trim_text}
use codewalker.Parser.Golang.{extract_top_level, symbols}
use codewalker.Parser.Golang.Functions.{IsNamed, AllNamed, extract_top_level-AllNamed}
use codewalker.Parser.Golang.Symbol.{IsName, build-any_name}
use codewalker.Parser.Registry.{register, handler_for, claims_ext, file_ext, handler_for-register}
use codewalker.Parser.Handlers.{go_handler, py_handler}

abbrev leaf : Bytes → Bytes → Tree
leaf type_name content =
    tree
      (record {
        type_name = type_name;
        start_row = 2;
        start_column = 0;
        end_row = 3;
        end_column = 1;
        content = content;
      })
      ended

abbrev pub declaration : Bytes → Trees → Tree
declaration type_name children =
    tree
      (record {
        type_name = type_name;
        start_row = 2;
        start_column = 0;
        end_row = 3;
        end_column = 1;
        content = [];
      })
      children

abbrev name_field : Bytes → Trees → Trees
name_field name rest = child (bytes "name") (leaf (bytes "identifier") name) rest

abbrev pub declarations : Trees
declarations =
    child [] (declaration (bytes "function_declaration") (name_field (bytes "f") ended)) (
      child [] (leaf (bytes "comment") []) (
        child []
          (declaration (bytes "method_declaration") (
            name_field (bytes "g")
              (child (bytes "receiver") (leaf (bytes "parameter_list") (bytes "(t T)")) ended)))
          ended))

pub declarations-IsNamed : IsNamed declarations
unfolding codewalker.Parser.Tree.field_text ◌==◌
declarations-IsNamed = (λ _ e. cc, (λ h. absurd (ground arith), (λ _ e. cc, tt)))

extract_top_level-AllNamed_example :
    (nodes : List Node) × (extract_top_level declarations ≡ some nodes)
    × AllNamed (symbols declarations) nodes
extract_top_level-AllNamed_example = extract_top_level-AllNamed declarations declarations-IsNamed

f-IsName : IsName (bytes "f")
f-IsName = (λ e. cc, (λ e. omega arith, tt))

g-IsName : IsName (bytes "g")
g-IsName = (λ e. cc, (λ e. omega arith, tt))

build-any_name_example :
    build extract_top_level-AllNamed_example.0 false (bytes "f")
    ≡ build extract_top_level-AllNamed_example.0 false (bytes "g")
build-any_name_example =
    build-any_name declarations extract_top_level-AllNamed_example.0 false (bytes "f") (bytes "g")
      declarations-IsNamed extract_top_level-AllNamed_example.1 f-IsName g-IsName

length-trim_text_example : length (trim_text (bytes "a  bcdef") 4) ≤ 4 + 2
length-trim_text_example = length-trim_text (bytes "a  bcdef") 4 (omega arith)

-- The bound is met: three bytes of the text and the three of the ellipsis.
trim_text-six : length (trim_text (bytes "a  bcdef") 4) ≡ 6
unfolding trim_text
trim_text-six = refl

abbrev pub grammar : Bytes → Result Bytes Tree
grammar src = ok (declaration (bytes "source_file") declarations)

handler_for-register_example :
    handler_for
      (register (py_handler grammar) (register (go_handler grammar) []))
      (bytes "cmd/a.GO")
    ≡ (if claims_ext (py_handler grammar) (to_lower (file_ext (bytes "cmd/a.GO")))
        then ok (py_handler grammar)
        else handler_for (register (go_handler grammar) []) (bytes "cmd/a.GO"))
handler_for-register_example =
    handler_for-register (py_handler grammar) (register (go_handler grammar) []) (bytes "cmd/a.GO")

-- The case of the extension does not matter.
go-handled :
    handler_for
      (register (py_handler grammar) (register (go_handler grammar) []))
      (bytes "cmd/a.GO")
    ≡ ok (go_handler grammar)
unfolding handler_for register py_handler go_handler
go-handled = refl
