-- ===== src/Config/Tree.antt =====
-- The tree of sections and scalars of internal/config/config.go, its accessors, and parseTree.
-- A section that hangs in the tree is changed through its path from the root: the frames of the stack
-- are pointers to the sections on one path, and a section leaves the stack before its key can be given
-- another value. The order of a section's entries is that of their first lines.
use rateforge.Base.{
  ℕ, true, false, Option, none, some, List, [], ◌∷◌, ◌++◌, if◌then◌else◌, Str, str_eq, ltb, length,
  ◌==◌, cut,
}
use rateforge.Config.Text.{leading_spaces, strip_comment, unquote}

mutual
  pub data Value : Type 0 where
    scalar : Str → Value
    section : Node → Value

  pub data Node : Type 0 where
    nothing : Node
    entry : Str → Value → Node → Node

-- `n[key]`, and `n[key] = v`
unfoldable pub find : Str → Node → Option Value
find key nothing = none
find key (entry k v n) = if str_eq k key then some v else find key n

unfoldable pub put : Str → Value → Node → Node
put key v nothing = entry key v nothing
put key v (entry k w n) = if str_eq k key then entry key v n else entry k w (put key v n)

unfoldable pub child : Str → Node → Option Node
child key n = elim (find key n) [
  | none ↦ none
  | some v ↦ elim v [ scalar s ↦ none | section c ↦ some c ]
]

unfoldable pub text : Str → Node → Option Str
text key n = elim (find key n) [
  | none ↦ none
  | some v ↦ elim v [ scalar s ↦ some s | section c ↦ none ]
]

-- `n.str(key, def)`
unfoldable pub str : Str → Str → Node → Str
str key old n = elim (text key n) [ none ↦ old | some s ↦ s ]

-- The accessors that parse: `i64`, `i`, `f64`, `b` and `dur`, by the parser that each calls.
unfoldable pub read {ℓ} : {A : Type ℓ} → (Str → Option A) → Str → A → Node → A
read parse key old n = elim (text key n) [
  | none ↦ old
  | some s ↦ elim (parse s) [ none ↦ old | some v ↦ v ]
]

-- The assignment to a key of the section at a path.
unfoldable pub put_at : List Str → Str → Value → Node → Node
put_at [] key v n = put key v n
put_at (p ∷ path) key v n = elim (child p n) [
  | none ↦ n
  | some c ↦ put p (section (put_at path key v c)) n
]

-- A frame of the stack above the root: its indent, and the path of its section.
abbrev pub Frame : Type 0
Frame = ℕ × List Str

-- The loop that drops the frames that are indented at least as far; the root stays.
unfoldable pub drop_frames : ℕ → List Frame → List Frame
drop_frames indent [] = []
drop_frames indent (f ∷ stack) =
    let rest = drop_frames indent stack in if ltb f.0 indent then f ∷ stack else rest

abbrev pub top_path : List Frame → List Str
top_path [] = []
top_path (f ∷ stack) = f.1

module _ (trim_space : Str → Str) where
  -- What a line with a colon does to the tree and the stack.
  unfoldable pub add_line : ℕ → Str → Str → Node × List Frame → Node × List Frame
  add_line indent key val (root, stack) =
      let kept = drop_frames indent stack in
      let path = top_path kept in
      if length val == 0
      then (put_at path key (section nothing) root, (indent, path ++ key ∷ []) ∷ kept)
      else (put_at path key (scalar val) root, kept)

  -- The loop of parseTree over the lines of the file; `none` is a line without a colon.
  unfoldable pub parse_lines : List Str → Node × List Frame → Option (Node × List Frame)
  parse_lines [] state = some state
  parse_lines (raw ∷ lines) state =
      let line = strip_comment raw in
      let trimmed = trim_space line in
      elim (length trimmed == 0) [
        | true ↦ parse_lines lines state
        | false ↦ elim (cut b':' trimmed) [
          | none ↦ none
          | some (before, after) ↦ parse_lines lines (
              add_line (leading_spaces line) (trim_space before) (unquote (trim_space after)) state)
        ]
      ]

  unfoldable pub parse_tree : List Str → Option Node
  parse_tree lines = elim (parse_lines lines (nothing, [])) [
    | none ↦ none
    | some (root, stack) ↦ some root
  ]
