-- ===== src/Config/Tests.antt =====
-- Validation at a concrete configuration, with float64 as hundredths in the natural numbers.
use rateforge.Base.Int.{pos}
use rateforge.Config.{Config}
use rateforge.Config.Tree.{
  Node, nothing, entry, scalar, section, parse_tree, parse_lines, add_line, drop_frames, put_at,
  put, child, find,
}
use rateforge.Config.Text.{strip_loop, leading_spaces, unquote, strip_comment}
use rateforge.Config.Load.{Parsers, load}
use rateforge.Base.{
  refl, Option, some, List, [], ◌∷◌, Str, codes, str_eq, cut, ◌==◌, if◌then◌else◌, ℕ, ◌≡◌, ◌↔◌,
  none,
}
use rateforge.Float.Sample.{hundredths}
use rateforge.Config.{default, validate}
use rateforge.Config.Checked.{IsInBounds, validate_iff}

validate_iff_example : (validate {F = ℕ} default ≡ none) ↔ IsInBounds {F = ℕ} default
validate_iff_example = validate_iff default

abbrev sample : Parsers ℕ
sample = record {
  int64 = λ s. if str_eq s (codes "0") then some (pos 0) else some (pos 7);
  bool = λ s. none;
  float64 = λ s. none;
  duration = λ s. none;
}

-- TrimSpace of a text that ends in no space.
abbrev trim_front : Str → Str
trim_front [] = []
trim_front (c ∷ s) = let rest = trim_front s in if c == b' ' then rest else c ∷ s

abbrev file : List Str
file =
    codes "defaults: # the rest"
    ∷ codes "  tokens_per_request: 0"
    ∷ codes "tiers:"
    ∷ codes "  gold:"
    ∷ codes "    tokens_per_request: 0"
    ∷ []

abbrev or_default : Option (Config ℕ) → Config ℕ
or_default none = default
or_default (some c) = c

abbrev loaded : Config ℕ
loaded = or_default (load sample trim_front (some file))

abbrev costs_nothing : Node
costs_nothing = entry (codes "tokens_per_request") (scalar (codes "0")) nothing

parsed :
    parse_tree trim_front file
    ≡ some (
        entry (codes "defaults") (section costs_nothing) (
          entry
            (codes "tiers")
            (section (entry (codes "gold") (section costs_nothing) nothing))
            nothing))
unfolding parse_tree parse_lines strip_comment strip_loop cut add_line drop_frames put_at put child
    find leading_spaces unquote str_eq
parsed = refl

loaded_there : load sample trim_front (some file) ≡ some loaded
unfolding load parse_tree parse_lines strip_comment strip_loop cut
loaded_there = refl
