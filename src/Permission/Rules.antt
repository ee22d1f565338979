-- ===== src/Permission/Rules.antt =====
-- pkg/agent/permissions.go: rules, their parser, and the rule set that the loop consults.
use gopheragent.Base.{
  ℕ, Bool, true, false, List, [], ◌∷◌, ◌++◌, Option, none, some, ◌==◌, if◌then◌else◌, any, Text,
  same, Result, ok, err, ◌>>=◌, trim_space,
}
use gopheragent.Permission.Glob.{glob_match}
pub mod Parse
pub mod Order

-- The iota constants, the zero value first.
pub data Decision : Type 0 where
  prompt allow deny confirm : Decision

-- The Go field is "" where a rule has no glob.
pub record Rule : Type 0 where
  pub tool_name : Text
  pub arg_glob : Text

pub data ParseError : Type 0 where
  empty_rule missing_close empty_name : ParseError

pub record RuleSet : Type 0 where
  pub allows : List Rule
  pub denies : List Rule
  pub confirms : List Rule

-- What stands before the first byte `b`, and what stands behind it: `strings.Index` and two slices.
unfoldable pub cut_at : ℕ → Text → Option (Text × Text)
cut_at b [] = none
cut_at b (c ∷ s) =
    let rest = cut_at b s in
    if c == b
    then some ([], s)
    else elim rest [ none ↦ none | some (before, after) ↦ some (c ∷ before, after) ]

-- `strings.HasSuffix(s, ")")` on the text behind the parenthesis, and that text without its last
-- byte.
unfoldable pub strip_close : Text → Option Text
strip_close [] = none
strip_close (c ∷ []) = if c == b')' then some [] else none
strip_close (c ∷ d ∷ s) = elim (strip_close (d ∷ s)) [ none ↦ none | some t ↦ some (c ∷ t) ]

-- The name in front of the parenthesis, trimmed, and the glob in it.
abbrev named_rule : Text → Text → Result ParseError Rule
named_rule [] glob = err empty_name
named_rule (c ∷ name) glob = ok (record { tool_name = c ∷ name; arg_glob = glob })

abbrev parse_parts : Text → Text → Result ParseError Rule
parse_parts before after = elim (strip_close after) [
  | none ↦ err missing_close
  | some glob ↦ named_rule (trim_space before) glob
]

abbrev parse_trimmed : Text → Result ParseError Rule
parse_trimmed [] = err empty_rule
parse_trimmed (c ∷ s) = elim (cut_at b'(' (c ∷ s)) [
  | none ↦ ok (record { tool_name = c ∷ s; arg_glob = [] })
  | some (before, after) ↦ parse_parts before after
]

unfoldable pub parse_rule : Text → Result ParseError Rule
parse_rule s = parse_trimmed (trim_space s)

unfoldable pub parse_rules : List Text → Result ParseError (List Rule)
parse_rules [] = ok []
parse_rules (p ∷ ps) = do rule ← parse_rule p; rules ← parse_rules ps; ok (rule ∷ rules)

unfoldable pub new_rule_set : List Text → List Text → Result ParseError RuleSet
new_rule_set allow_texts deny_texts = do
  a ← parse_rules allow_texts
  d ← parse_rules deny_texts
  ok (record { allows = a; denies = d; confirms = [] })

-- The three Add methods return the set after the call, and the error of a call that failed.
abbrev added :
    RuleSet → Result ParseError (List Rule) → (List Rule → RuleSet) → RuleSet × Option ParseError
added rs (err e) put = (rs, some e)
added rs (ok rules) put = (put rules, none)

unfoldable pub add_allow : RuleSet → List Text → RuleSet × Option ParseError
add_allow rs texts = added rs (parse_rules texts) λ rules. record rs { allows = rs.allows ++ rules }

unfoldable pub add_deny : RuleSet → List Text → RuleSet × Option ParseError
add_deny rs texts = added rs (parse_rules texts) λ rules. record rs { denies = rs.denies ++ rules }

unfoldable pub add_confirm : RuleSet → List Text → RuleSet × Option ParseError
add_confirm rs texts =
    added rs (parse_rules texts) λ rules. record rs { confirms = rs.confirms ++ rules }

is_empty : Text → Bool
is_empty [] = true
is_empty (c ∷ s) = false

unfoldable pub matches : Rule → Text → Text → Bool
unfolding is_empty
matches rule tool args =
    if same rule.tool_name tool
    then (if is_empty rule.arg_glob then true else glob_match rule.arg_glob args)
    else false

unfoldable pub check : RuleSet → Text → Text → Decision
check rs tool args =
    if any (λ r. matches r tool args) rs.denies
    then deny
    else if any (λ r. matches r tool args) rs.allows
    then allow
    else if any (λ r. matches r tool args) rs.confirms
    then confirm
    else prompt
