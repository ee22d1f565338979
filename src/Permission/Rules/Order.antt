-- ===== src/Permission/Rules/Order.antt =====
-- The order of precedence of `Check`, and what the Add methods can change.
use gopheragent.Base.{
  ◌≡◌, ◌≢◌, refl, ◌⊎◌, inl, inr, ◌↔◌, true, List, [], ◌∷◌, ◌++◌, ◌||◌, arith, any, Text,
  Result-cases,
}
use gopheragent.Permission.Glob.Language.{Matches}
use gopheragent.Permission.Glob.Complete.{StarFree, glob_match_iff}
use gopheragent.Permission.Rules.{
  Decision, prompt, allow, deny, confirm, Rule, RuleSet, matches, check, is_empty, add_allow,
  add_deny, add_confirm, parse_rules,
}

-- A rule covers a call of its tool, with no glob or with a glob whose language has the arguments.
abbrev pub Covers : Text → Text → Rule → Type 0
Covers tool args r = (r.tool_name ≡ tool) × ((r.arg_glob ≡ []) ⊎ Matches r.arg_glob args)

abbrev pub Covered : Text → Text → List Rule → Type 0
Covered tool args [] = ⊥
Covered tool args (r ∷ rs) = Covers tool args r ⊎ Covered tool args rs

is_empty_iff : (t : Text) → (is_empty t ≡ true) ↔ (t ≡ [])
unfolding is_empty
is_empty_iff [] = ground arith
is_empty_iff (c ∷ t) = ground arith

matches_iff :
    (r : Rule) (tool args : Text)
    → StarFree args
    → (matches r tool args ≡ true) ↔ Covers tool args r
unfolding matches
matches_iff r tool args free =
    ground (arith, is_empty_iff r.arg_glob, glob_match_iff r.arg_glob args free)

any_iff :
    (rs : List Rule) (tool args : Text)
    → StarFree args
    → (any (λ r. matches r tool args) rs ≡ true) ↔ Covered tool args rs
any_iff [] tool args free = ground arith
any_iff (r ∷ rs) tool args free =
    ground (arith, matches_iff r tool args free, any_iff rs tool args free)

-- What `Check` promises: the first of deny, allow and confirm that has a rule covering the call.
abbrev pub Decides : RuleSet → Text → Text → Decision → Type 0
Decides rs tool args deny = Covered tool args rs.denies
Decides rs tool args allow = (¬ Covered tool args rs.denies) × Covered tool args rs.allows
Decides rs tool args confirm =
    (¬ Covered tool args rs.denies)
    × (¬ Covered tool args rs.allows)
    × Covered tool args rs.confirms
Decides rs tool args prompt =
    (¬ Covered tool args rs.denies)
    × (¬ Covered tool args rs.allows)
    × (¬ Covered tool args rs.confirms)

-- For arguments without a star byte, `Check` gives the decision of the rules that cover the call,
-- in the order deny, allow, confirm, and asks for no opinion where no rule covers it.
pub check-Decides :
    (rs : RuleSet) (tool args : Text) → StarFree args → Decides rs tool args (check rs tool args)
unfolding check
check-Decides rs tool args free = ground (
  arith,
  any_iff rs.denies tool args free,
  any_iff rs.allows tool args free,
  any_iff rs.confirms tool args free,
)

any-append :
    (xs ys : List Rule) (tool args : Text)
    → any (λ r. matches r tool args) (xs ++ ys)
      ≡ (any (λ r. matches r tool args) xs || any (λ r. matches r tool args) ys)
any-append [] ys tool args = refl
any-append (x ∷ xs) ys tool args = ground (arith, any-append xs ys tool args)

-- What a decision may become when deny, allow or confirm rules are added.
abbrev pub Tightens : Decision → Decision → Type 0
Tightens old new = (new ≡ old) ⊎ (new ≡ deny)

abbrev pub Opens : Decision → Decision → Type 0
Opens old new = (new ≡ old) ⊎ (new ≡ allow) × (old ≢ deny)

abbrev pub Escalates : Decision → Decision → Type 0
Escalates old new = (new ≡ old) ⊎ (new ≡ confirm) × (old ≡ prompt)

module _ (rs : RuleSet) (texts : List Text) (tool args : Text) where
  deny-Tightens : Tightens (check rs tool args) (check (add_deny rs texts).0 tool args)
  unfolding check add_deny
  deny-Tightens = elim (Result-cases (parse_rules texts)) [
    | inl (e, failed) ↦ rw failed (inl refl)
    | inr (rules, parsed) ↦ rw parsed (ground (arith, any-append rs.denies rules tool args))
  ]

  allow-Opens : Opens (check rs tool args) (check (add_allow rs texts).0 tool args)
  unfolding check add_allow
  allow-Opens = elim (Result-cases (parse_rules texts)) [
    | inl (e, failed) ↦ rw failed (inl refl)
    | inr (rules, parsed) ↦ rw parsed (ground (arith, any-append rs.allows rules tool args))
  ]

  confirm-Escalates : Escalates (check rs tool args) (check (add_confirm rs texts).0 tool args)
  unfolding check add_confirm
  confirm-Escalates = elim (Result-cases (parse_rules texts)) [
    | inl (e, failed) ↦ rw failed (inl refl)
    | inr (rules, parsed) ↦ rw parsed (ground (arith, any-append rs.confirms rules tool args))
  ]

  -- Whatever rules are added, for every call: `AddDeny` leaves the decision or makes it deny,
  -- `AddAllow` leaves it or makes it allow where it was not deny, and `AddConfirm` leaves it or
  -- makes it confirm where it was prompt.
  pub check-add :
      Tightens (check rs tool args) (check (add_deny rs texts).0 tool args)
      × Opens (check rs tool args) (check (add_allow rs texts).0 tool args)
      × Escalates (check rs tool args) (check (add_confirm rs texts).0 tool args)
  check-add = (deny-Tightens, allow-Opens, confirm-Escalates)
