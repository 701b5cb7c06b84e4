-- ===== src/Git/Manifest/GoMod.antt =====
-- internal/git/manifest.go: what a requirement in a go.mod file is parsed into.
use codewalker.Prelude.{
  ◌&&◌, ◌||◌, ℕ, Bytes, bytes, true, false, List, [], ◌∷◌, ◌++◌, Option, none, some, ◌≡◌, ◌≢◌, refl,
  arith, if◌then◌else◌, ◌==◌, eq_iff, Bool-cases, Option-cases, inl, inr, sym, ap, ◌∙◌, All, length,
  ◌+◌, ◌≤◌, All-append, length-append, append_assoc, drop, append_assoc, append-nil, eq_refl, ◌⊎◌,
}
use codewalker.Prelude.Assoc.{Assoc, lookup, put, lookup-put}
use codewalker.Prelude.Strings.{
  has_prefix, trim_prefix, trim_space, fields, fields_two, fields_more, IsInk, trim_space-indent,
}
use codewalker.Git.Manifest.{
  Root, first_found, gomod_lines, gomod_entry, parse_gomod, detect_manifest, Bool,
}
use codewalker.Git.Manifest.Scan.{IsLine, unlines, scan_lines-unlines}

-- A word: not empty, and of bytes above every white space.
abbrev pub IsWord : Bytes → Type 0
IsWord [] = ⊥
IsWord (c ∷ w) = All IsInk (c ∷ w)

has_prefix-word :
    (v w u : Bytes)
    → All IsInk v
    → All IsInk u
    → has_prefix (v ++ (32 ∷ w)) (u ++ (32 ∷ [])) ≡ true
    → v ≡ u
unfolding has_prefix
has_prefix-word [] w [] hv hu h = refl
has_prefix-word [] w (d ∷ u) hv (hd, hu) h = absurd (ground arith)
has_prefix-word (c ∷ v) w [] (hc, hv) hu h = absurd (ground arith)
has_prefix-word (c ∷ v) w (d ∷ u) (hc, hv) (hd, hu) h =
    let same : c ≡ d = ground arith in
    let rest : has_prefix (v ++ (32 ∷ w)) (u ++ (32 ∷ [])) ≡ true = ground arith in
    rw (same, has_prefix-word v w u hv hu rest) refl

require-IsInk : All IsInk (bytes "require")
require-IsInk = (
  omega arith,
  (omega arith, (omega arith, (omega arith, (omega arith, (omega arith, (omega arith, tt)))))),
)

has_end : (v w : Bytes) (c : ℕ) → v ++ (c ∷ w) ≢ []
has_end [] w c e = cc
has_end (b ∷ v) w c e = cc

indirect-IsInk : All IsInk (bytes "indirect")
indirect-IsInk = (
  omega arith,
  (
    omega arith,
    (omega arith, (omega arith, (omega arith, (omega arith, (omega arith, (omega arith, tt)))))),
  ),
)

-- A line of the block that is neither its end nor a directive.
gomod_lines-inside :
    (text : Bytes) (lines : List Bytes) (deps : Assoc Bytes)
    → (trim_space text == bytes "require (") ≡ false
    → (trim_space text == bytes ")") ≡ false
    → has_prefix (trim_space text) (bytes "require ") ≡ false
    → gomod_lines (text ∷ lines) true deps
      ≡ gomod_lines lines true (gomod_entry (fields (trim_space text)) deps)
unfolding gomod_lines trim_prefix
gomod_lines-inside text lines deps opening closing directive =
    rw (opening, closing, directive, gomod_lines, trim_prefix) refl

-- What may stand behind a version: nothing, or the mark of an indirect requirement.
pub data Remark : Type 0 where
  plain indirect : Remark

abbrev remark : Remark → Bytes
remark plain = []
remark indirect = bytes " // indirect"

-- The line of a requirement in a block.
abbrev pub required : Bytes → Bytes → Remark → Bytes
required name version r = 9 ∷ name ++ (32 ∷ version ++ remark r)

-- The words of a line, the directive left out.
abbrev pub words : Bytes → List Bytes
words text = fields (trim_prefix (trim_space text) (bytes "require "))

module _ (c d : ℕ) (name version : Bytes) (hn : All IsInk (c ∷ name))
    (hv : All IsInk (d ∷ version)) where
  abbrev line : Remark → Bytes
  line r = c ∷ name ++ (32 ∷ (d ∷ version) ++ remark r)

  trimmed : (r : Remark) → trim_space (required (c ∷ name) (d ∷ version) r) ≡ line r
  unfolding codewalker.Prelude.Strings.is_space
  trimmed plain =
      let tail : name ++ (32 ∷ (d ∷ version) ++ []) ≡ (name ++ 32 ∷ []) ++ (d ∷ version) =
        ap (λ s. name ++ (32 ∷ s)) (append-nil (d ∷ version))
        ∙ sym (append_assoc name (32 ∷ []) (d ∷ version)) in
      ap (λ s. trim_space (9 ∷ c ∷ s)) tail
      ∙ trim_space-indent 9 c d (name ++ 32 ∷ []) version refl hn.0 hv
      ∙ ap (◌∷◌ c) (sym tail)
  trimmed indirect =
      let tail : name ++ (32 ∷ (d ∷ version) ++ bytes " // indirect")
          ≡ (name ++ (32 ∷ (d ∷ version) ++ bytes " // ")) ++ bytes "indirect" =
        ap (λ s. name ++ (32 ∷ s))
          (sym (append_assoc (d ∷ version) (bytes " // ") (bytes "indirect")))
        ∙ sym (append_assoc name (32 ∷ (d ∷ version) ++ bytes " // ") (bytes "indirect")) in
      ap (λ s. trim_space (9 ∷ c ∷ s)) tail
      ∙ trim_space-indent 9 c 105 (name ++ (32 ∷ (d ∷ version) ++ bytes " // ")) (bytes "ndirect")
          refl hn.0 indirect-IsInk
      ∙ ap (◌∷◌ c) (sym tail)

  fields-line :
      (r : Remark) → (rest : List Bytes) × (fields (line r) ≡ (c ∷ name) ∷ (d ∷ version) ∷ rest)
  fields-line plain = (
    [],
    ap (λ s. fields (c ∷ name ++ (32 ∷ s))) (append-nil (d ∷ version))
        ∙ fields_two c d name version hn hv,
  )
  fields-line indirect =
      (fields (bytes "// indirect"), fields_more c d name version (bytes "// indirect") hn hv)

  line-no_directive :
      (r : Remark) → c ∷ name ≢ bytes "require" → has_prefix (line r) (bytes "require ") ≡ false
  line-no_directive r other = elim (Bool-cases (has_prefix (line r) (bytes "require "))) [
    | inl e ↦ absurd (
        other (
          has_prefix-word (c ∷ name) ((d ∷ version) ++ remark r) (bytes "require") hn require-IsInk
            e))
    | inr e ↦ e
  ]

  line-not : (r : Remark) (s : Bytes) → line r ≢ s → (line r == s) ≡ false
  line-not r s other = elim (Bool-cases (line r == s)) [
    | inl e ↦ absurd (other ((eq_iff (line r) s).0 e))
    | inr e ↦ e
  ]

  line-not_opening :
      (r : Remark) → has_prefix (line r) (bytes "require ") ≡ false → line r ≢ bytes "require ("
  unfolding has_prefix
  line-not_opening r directive e =
      let is_one : has_prefix (line r) (bytes "require ") ≡ true =
        ap (λ s. has_prefix s (bytes "require ")) e in
      cc

  -- The line of a requirement, in the block.
  gomod_lines-required :
      (r : Remark) (lines : List Bytes) (deps : Assoc Bytes)
      → c ∷ name ≢ bytes "require"
      → gomod_lines (required (c ∷ name) (d ∷ version) r ∷ lines) true deps
        ≡ gomod_lines lines true (put (c ∷ name) (d ∷ version) deps)
  unfolding gomod_entry
  gomod_lines-required r lines deps other =
      let directive = line-no_directive r other in
      let (rest, parts) = fields-line r in
      gomod_lines-inside (required (c ∷ name) (d ∷ version) r) lines deps
        (rw trimmed (line-not r (bytes "require (") (line-not_opening r directive)))
        (rw trimmed (
          line-not r (bytes ")")
            (λ e. has_end name ((d ∷ version) ++ remark r) 32 (ap (drop 1) e))))
        (rw trimmed directive)
      ∙ ap (λ t. gomod_lines lines true (gomod_entry t deps)) (ap fields (trimmed r) ∙ parts)

abbrev Lines : Type 0
Lines = List Bytes

-- What one line does: it may open or close a block, and may add the requirement that it spells.
step_cases :
    (text : Bytes) (lines : Lines) (b : Bool) (m : Assoc Bytes)
    → (b' : Bool) × (m' : Assoc Bytes) × (gomod_lines (text ∷ lines) b m ≡ gomod_lines lines b' m')
      × (b ≡ true → (trim_space text == bytes ")") ≡ false → b' ≡ true)
      × ((m' ≡ m) ⊎ (m' ≡ gomod_entry (words text) m))
unfolding gomod_lines
step_cases text lines b m = elim (Bool-cases (trim_space text == bytes "require (")) [
  | inl o ↦ (true, m, rw (o, gomod_lines) refl, (λ _ _. refl), inl refl)
  | inr o ↦ elim (Bool-cases (b && (trim_space text == bytes ")"))) [
    | inl c ↦ (false, m, rw (o, c, gomod_lines) refl, (λ q h. absurd (ground arith)), inl refl)
    | inr c ↦ elim (Bool-cases (b || has_prefix (trim_space text) (bytes "require "))) [
      | inl r ↦
          (b, gomod_entry (words text) m, rw (o, c, r, gomod_lines) refl, (λ q _. q), inr refl)
      | inr r ↦ (b, m, rw (o, c, r, gomod_lines) refl, (λ q _. q), inl refl)
    ]
  ]
]

-- Lines that come first lead to some state.
gomod_lines-before :
    (before lines : Lines) (b : Bool) (m : Assoc Bytes)
    → (b' : Bool) × (m' : Assoc Bytes) × (gomod_lines (before ++ lines) b m
        ≡ gomod_lines lines b' m')
gomod_lines-before [] lines b m = (b, m, refl)
gomod_lines-before (text ∷ before) lines b m =
    let (b1, m1, e1, _, _) = step_cases text (before ++ lines) b m in
    let (b2, m2, e2) = gomod_lines-before before lines b1 m1 in (b2, m2, e1 ∙ e2)

-- The line does not close a block.
abbrev pub IsInside : Bytes → Type 0
IsInside text = (trim_space text == bytes ")") ≡ false

gomod_lines-IsInside :
    (inside lines : Lines) (m : Assoc Bytes)
    → All IsInside inside
    → (m' : Assoc Bytes) × (gomod_lines (inside ++ lines) true m ≡ gomod_lines lines true m')
gomod_lines-IsInside [] lines m h = (m, refl)
gomod_lines-IsInside (text ∷ inside) lines m (ht, h) =
    let (b1, m1, e1, keeps, _) = step_cases text (inside ++ lines) true m in
    let (m2, e2) = gomod_lines-IsInside inside lines m1 h in
    (m2, e1 ∙ ap (λ b. gomod_lines (inside ++ lines) b m1) (keeps refl ht) ∙ e2)

-- The first word is not the package.
abbrev pub StartsOther : Bytes → List Bytes → Type 0
StartsOther name [] = Unit
StartsOther name (w ∷ ws) = (w == name) ≡ false

lookup-gomod_entry :
    (name : Bytes) (ws : List Bytes) (m : Assoc Bytes)
    → StartsOther name ws
    → lookup name (gomod_entry ws m) ≡ lookup name m
unfolding gomod_entry
lookup-gomod_entry name [] m h = refl
lookup-gomod_entry name (w ∷ []) m h = refl
lookup-gomod_entry name (w ∷ v ∷ ws) m h = lookup-put w name v m ∙ rw h refl

gomod_lines-after :
    (name : Bytes) (after : Lines) (b : Bool) (m : Assoc Bytes)
    → All (λ text. StartsOther name (words text)) after
    → lookup name (gomod_lines after b m) ≡ lookup name m
gomod_lines-after name [] b m h = unfold gomod_lines in refl
gomod_lines-after name (text ∷ after) b m (ht, h) =
    let (b1, m1, e1, _, adds) = step_cases text after b m in
    ap (lookup name) e1 ∙ gomod_lines-after name after b1 m1 h ∙ elim adds [
      | inl e ↦ ap (lookup name) e
      | inr e ↦ ap (lookup name) e ∙ lookup-gomod_entry name (words text) m ht
    ]

gomod_lines-opening :
    (lines : Lines) (b : Bool) (m : Assoc Bytes)
    → gomod_lines (bytes "require (" ∷ lines) b m ≡ gomod_lines lines true m
unfolding gomod_lines trim_space ◌==◌
gomod_lines-opening lines b m = refl

-- The lines of a go.mod file with a requirement in a block, between any other lines.
abbrev pub with_required : Lines → Lines → Bytes → Bytes → Remark → Lines → Lines
with_required before inside name version r after =
    before ++ (bytes "require (" ∷ (inside ++ (required name version r ∷ after)))

gomod_lines-with_required :
    (before inside after : Lines) (name version : Bytes) (r : Remark)
    → IsWord name
    → IsWord version
    → name ≢ bytes "require"
    → All IsInside inside
    → All (λ text. StartsOther name (words text)) after
    → lookup name (gomod_lines (with_required before inside name version r after) false [])
      ≡ some version
gomod_lines-with_required before inside after [] version r hn hv other hi ha = absurd hn
gomod_lines-with_required before inside after (c ∷ name) [] r hn hv other hi ha = absurd hv
gomod_lines-with_required before inside after (c ∷ name) (d ∷ version) r hn hv other hi ha =
    let line = required (c ∷ name) (d ∷ version) r in
    let (b1, m1, e1) =
      gomod_lines-before before (bytes "require (" ∷ (inside ++ (line ∷ after))) false [] in
    let (m2, e2) = gomod_lines-IsInside inside (line ∷ after) m1 hi in
    ap (lookup (c ∷ name)) (
      e1
      ∙ gomod_lines-opening (inside ++ (line ∷ after)) b1 m1
      ∙ e2
      ∙ gomod_lines-required c d name version hn hv r after m2 other)
    ∙ gomod_lines-after (c ∷ name) after true (put (c ∷ name) (d ∷ version) m2) ha
    ∙ lookup-put (c ∷ name) (c ∷ name) (d ∷ version) m2
    ∙ rw (eq_refl (c ∷ name)) refl

-- The go.mod file is found before any other manifest.
pub detect_manifest-gomod :
    (root : Root) (lines : Lines)
    → All IsLine lines
    → root.open_file (bytes "go.mod") ≡ some (unlines lines)
    → detect_manifest root
      ≡ some (record { kind = bytes "gomod"; dependencies = gomod_lines lines false [] })
unfolding detect_manifest parse_gomod first_found
detect_manifest-gomod root lines h found =
    rw (found, parse_gomod, first_found, scan_lines-unlines lines h) refl

-- A go.mod file, of which a line in a block requires the package: no line in front of it in the block
-- closes that, and no later line starts with the package again.
pub record IsRequired (name version file : Bytes) : Type 0 where
  pub before : List Bytes
  pub inside : List Bytes
  pub after : List Bytes
  pub remark : Remark
  pub is_name : IsWord name
  pub is_version : IsWord version
  pub no_directive : name ≢ bytes "require"
  pub open_block : All IsInside inside
  pub last_one : All (λ text. StartsOther name (words text)) after
  pub lines : All IsLine (with_required before inside name version remark after)
  pub spelled : file ≡ unlines (with_required before inside name version remark after)

pub lookup_version-required :
    (root : Root) (name version : Bytes) {file : Bytes}
    → root.open_file (bytes "go.mod") ≡ some file
    → IsRequired name version file
    → (deps : Assoc Bytes) × (detect_manifest root
        ≡ some (record { kind = bytes "gomod"; dependencies = deps }))
      × (lookup name deps ≡ some version)
lookup_version-required root name version found h = (
  gomod_lines (with_required h.before h.inside name version h.remark h.after) false [],
  detect_manifest-gomod root (with_required h.before h.inside name version h.remark h.after) h.lines
      (found ∙ ap some h.spelled),
  gomod_lines-with_required h.before h.inside h.after name version h.remark h.is_name h.is_version
      h.no_directive h.open_block h.last_one,
)
