-- ===== src/Parser/Registry.antt =====
-- internal/parser/registry.go and parser.go: the handlers by file extension, `Parse` and
-- `ListSymbols`. The lock is taken around every access, so the operations are atomic. Also
-- `filepath.Ext`.
use codewalker.Prelude.{
  Bytes, Bool, false, not, List, [], ◌∷◌, none, some, Result, ok, err, ◌>>=◌, ◌==◌, ◌&&◌, ◌||◌, eqb,
  if◌then◌else◌, ◌≡◌, refl, arith, ◌∙◌, map,
}
use codewalker.Prelude.Assoc.{Assoc, lookup, put, lookup-put}
use codewalker.Prelude.Strings.{to_lower}
use codewalker.Graph.Builder.{Node}

pub data ParserError : Type 0 where
  no_handler : Bytes → Bytes → ParserError
  failed : Bytes → ParserError
  panicked : ParserError

pub record LanguageHandler : Type 0 where
  pub language : Bytes
  pub extensions : List Bytes
  pub nodes : Bytes → Result ParserError (List Node)
  pub symbols : Bytes → Result ParserError (List Bytes)

abbrev pub Handlers : Type 0
Handlers = Assoc LanguageHandler

unfoldable pub register_all : LanguageHandler → List Bytes → Handlers → Handlers
unfolding put to_lower
register_all h [] handlers = handlers
register_all h (ext ∷ exts) handlers = register_all h exts (put (to_lower ext) h handlers)

unfoldable pub register : LanguageHandler → Handlers → Handlers
unfolding register_all
register h handlers = register_all h h.extensions handlers

has_slash : Bytes → Bool
has_slash [] = false
has_slash (c ∷ s) = eqb c 47 || has_slash s

-- `filepath.Ext`: from the last dot of the last element of the path.
unfoldable pub file_ext : Bytes → Bytes
unfolding has_slash ◌==◌
file_ext [] = []
file_ext (c ∷ s) =
    let later = file_ext s in
    if not (later == []) then later else if eqb c 46 && not (has_slash s) then c ∷ s else []

-- `For(filePath)`
unfoldable pub handler_for : Handlers → Bytes → Result ParserError LanguageHandler
unfolding to_lower file_ext lookup
handler_for handlers file_path = elim (lookup (to_lower (file_ext file_path)) handlers) [
  | none ↦ err (no_handler (to_lower (file_ext file_path)) file_path)
  | some h ↦ ok h
]

abbrev among : Bytes → List Bytes → Bool
among name [] = false
among name (n ∷ names) = n == name || among name names

-- `Registered()`, in an order that the program leaves open.
unfoldable pub names_from : Handlers → List Bytes → List Bytes
unfolding ◌==◌
names_from [] seen = []
names_from ((ext, h) ∷ handlers) seen =
    let again = names_from handlers seen in
    let fresh = names_from handlers (h.language ∷ seen) in
    if among h.language seen then again else h.language ∷ fresh

unfoldable pub registered : Handlers → List Bytes
unfolding names_from
registered handlers = names_from handlers []

-- The nodes with the name of the language.
unfoldable pub parse : Handlers → Bytes → Bytes → Result ParserError (List Node × Bytes)
unfolding handler_for
parse handlers src file_path =
    handler_for handlers file_path >>= λ h. h.nodes src >>= λ nodes. ok (nodes, h.language)

unfoldable pub list_symbols : Handlers → Bytes → Bytes → Result ParserError (List Bytes)
unfolding handler_for
list_symbols handlers src file_path = handler_for handlers file_path >>= λ h. h.symbols src

-- An extension that the handler claims_ext, in lower case.
abbrev pub claims_ext : LanguageHandler → Bytes → Bool
claims_ext h ext = among ext (map to_lower h.extensions)

lookup-register_all :
    (h : LanguageHandler) (exts : List Bytes) (handlers : Handlers) (ext : Bytes)
    → lookup ext (register_all h exts handlers)
      ≡ (if among ext (map to_lower exts) then some h else lookup ext handlers)
unfolding register_all
lookup-register_all h [] handlers ext = refl
lookup-register_all h (e ∷ exts) handlers ext =
    lookup-register_all h exts (put (to_lower e) h handlers) ext
    ∙ ground (arith, lookup-put (to_lower e) ext h handlers)

-- After a registration, a file is handled by the new handler exactly if that claims_ext the extension
-- of its name, whatever the case of its letters; any other file is handled as before.
pub handler_for-register :
    (h : LanguageHandler) (handlers : Handlers) (file_path : Bytes)
    → handler_for (register h handlers) file_path ≡ (
        if claims_ext h (to_lower (file_ext file_path))
        then ok h
        else handler_for handlers file_path)
unfolding handler_for register
handler_for-register h handlers file_path =
    ground (arith, lookup-register_all h h.extensions handlers (to_lower (file_ext file_path)))
