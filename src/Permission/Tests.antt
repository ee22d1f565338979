-- ===== src/Permission/Tests.antt =====
-- Permission rules at concrete inputs, those of permissions_test.go among them.
use gopheragent.Base.{
  ◌≡◌, refl, ◌↔◌, Bool, true, false, List, [], ◌∷◌, none, some, arith, Text, codes, ok, err,
  text_discrete, trim_space,
}
use gopheragent.Permission.Glob.{glob_match, glob_loop, rounds}
use gopheragent.Permission.Glob.Language.{Matches}
use gopheragent.Permission.Glob.Complete.{glob_match_iff}
use gopheragent.Permission.Glob.Total.{glob_loop-rounds}
use gopheragent.Permission.Glob.Gap.{trailing_star_gap}
use gopheragent.Permission.Rules.{
  RuleSet, deny, parse_rule, add_allow, add_deny, add_confirm, check, missing_close, empty_name,
  cut_at, strip_close, matches,
}
use gopheragent.Permission.Rules.Order.{
  Decides, Tightens, Opens, Escalates, check-Decides, check-add,
}

glob_hit : glob_match (codes "a*b*c") (codes "axxbyyc") ≡ true
unfolding glob_match
glob_hit = refl

glob_miss : glob_match (codes "git ?tatus") (codes "git statuss") ≡ false
unfolding glob_match
glob_miss = refl

-- The command that the rule names is not matched, since it holds a star itself.
glob_star_in_text : glob_match (codes "*rm -rf /*") (codes "{rm -rf /*}") ≡ false
unfolding glob_match
glob_star_in_text = refl

parse_nested :
    parse_rule (codes " ToolA (rule(with)parens) ")
    ≡ ok (record { tool_name = codes "ToolA"; arg_glob = codes "rule(with)parens" })
unfolding parse_rule trim_space cut_at strip_close
parse_nested = refl

parse_open : parse_rule (codes "Bash(git") ≡ err missing_close
unfolding parse_rule trim_space cut_at strip_close
parse_open = refl

parse_nameless : parse_rule (codes " (x)") ≡ err empty_name
unfolding parse_rule trim_space cut_at strip_close
parse_nameless = refl

abbrev bash : Text
bash = codes "Bash"

-- Allow Bash, and deny it where the arguments hold `rm -rf`.
abbrev policy : RuleSet
policy = record {
  allows = record { tool_name = bash; arg_glob = codes "*" } ∷ [];
  denies = record { tool_name = bash; arg_glob = codes "*rm -rf*" } ∷ [];
  confirms = [];
}

deny_wins : check policy bash (codes "{rm -rf x}") ≡ deny
unfolding check matches glob_match text_discrete
deny_wins = refl

abbrev args : Text
args = codes "rm -rf x"

glob_match_iff_example : (glob_match (codes "*rm*") args ≡ true) ↔ Matches (codes "*rm*") args
glob_match_iff_example = glob_match_iff (codes "*rm*") args (omega arith)

glob_loop-rounds_example :
    (b : Bool) × (glob_loop (rounds (codes "*rm*") args) (codes "*rm*") args none ≡ some b)
glob_loop-rounds_example = glob_loop-rounds (codes "*rm*") args

trailing_star_gap_example :
    Matches (codes "rm*") (codes "rm*x") × (glob_match (codes "rm*") (codes "rm*x") ≡ false)
trailing_star_gap_example = trailing_star_gap (codes "rm") 120 [] (omega arith)

check-Decides_example : Decides policy bash args (check policy bash args)
check-Decides_example = check-Decides policy bash args (omega arith)

abbrev more_rules : List Text
more_rules = codes "Bash(git*)" ∷ []

check-add_example :
    Tightens (check policy bash args) (check (add_deny policy more_rules).0 bash args)
    × Opens (check policy bash args) (check (add_allow policy more_rules).0 bash args)
    × Escalates (check policy bash args) (check (add_confirm policy more_rules).0 bash args)
check-add_example = check-add policy more_rules bash args
