-- ===== src/Base/Tables.antt =====
-- Go maps keyed by strings, as lists of entries: a write goes to the front, a read takes the first
-- entry of its key.
use mathlib.Core.Path.{◌≡◌, refl, sym, ap, subst, ◌∙◌}
use mathlib.Core.Logic.{◌≢◌}
use mathlib.Core.List.{List, [], ◌∷◌}
use mathlib.Core.Option.{Option, none, some}
use mathlib.Core.Bool.{Bool, true, false, true≢false}
use gopheragent.Base.Tests.{if◌then◌else◌, if_both}
use Prim.Native.Nat.{suc, ◌≤◌, ◌<◌}
use native.Mathlib.Omega.{arith}
use gopheragent.Base.Lists.{length}
use gopheragent.Base.Strings.{Text, same, same_iff, same_refl, same_ne}

module _ {ℓ} {A : Type ℓ} where
  abbrev pub find : Text → List (Text × A) → Option A
  find k [] = none
  find k (e ∷ es) = if same e.0 k then some e.1 else find k es

  abbrev pub put : Text → A → List (Text × A) → List (Text × A)
  put k a t = (k, a) ∷ t

  pub find-put_self : (k : Text) (a : A) (t : List (Text × A)) → find k (put k a t) ≡ some a
  find-put_self k a t = rw (same_refl k)

  pub find-put_ne :
      (k j : Text) (a : A) (t : List (Text × A)) → j ≢ k → find k (put j a t) ≡ find k t
  find-put_ne k j a t h = rw (same_ne j k h)

  -- `delete(t, k)`
  abbrev pub remove : Text → List (Text × A) → List (Text × A)
  remove k [] = []
  remove k (e ∷ es) = if same e.0 k then remove k es else e ∷ remove k es

  -- `t[k] = a` on a table that has each key once.
  abbrev pub insert : Text → A → List (Text × A) → List (Text × A)
  insert k a t = (k, a) ∷ remove k t

  pub find-remove :
      (k j : Text) (t : List (Text × A))
      → find k (remove j t) ≡ (if same j k then none else find k t)
  find-remove k j [] = if_both (λ (o : Option A). none ≡ o) (same j k) (λ _. refl) (λ _. refl)
  find-remove k j (e ∷ es) =
      if_both
        (λ (es' : List (Text × A)).
          find k es' ≡ (if same j k then none else (if same e.0 k then some e.1 else find k es)))
        (same e.0 j)
        (λ q.
          find-remove k j es
          ∙ hit (same j k) (same e.0 k) (ap (λ t. same t k) ((same_iff e.0 j).0 q)))
        (λ q.
          miss (same j k) (same e.0 k)
            (λ jk ek. absurd (
              true≢false
                (sym ((same_iff e.0 j).1 ((same_iff e.0 k).0 ek ∙ sym ((same_iff j k).0 jk))) ∙ q)))
            (find-remove k j es))
    where
      hit :
          (b c : Bool)
          → c ≡ b
          → (if b then none else find k es)
            ≡ (if b then none else (if c then some e.1 else find k es))
      hit true c h = refl
      hit false c h = rw h refl

      miss :
          (b c : Bool)
          → (b ≡ true → c ≡ true → ⊥)
          → find k (remove j es) ≡ (if b then none else find k es)
          → (if c then some e.1 else find k (remove j es))
            ≡ (if b then none else (if c then some e.1 else find k es))
      miss true true clash h = absurd (clash refl refl)
      miss true false clash h = h
      miss false true clash h = refl
      miss false false clash h = h

  pub find-insert :
      (k j : Text) (a : A) (t : List (Text × A))
      → find k (insert j a t) ≡ (if same j k then some a else find k t)
  find-insert k j a t = rw (find-remove k j t) (twice (same j k))
    where
      twice :
          (b : Bool)
          → (if b then some a else (if b then none else find k t))
            ≡ (if b then some a else find k t)
      twice true = refl
      twice false = refl

  pub find-insert_self : (k : Text) (a : A) (t : List (Text × A)) → find k (insert k a t) ≡ some a
  find-insert_self k a t = rw (same_refl k)

  pub find-insert_ne :
      (k j : Text) (a : A) (t : List (Text × A))
      → same j k ≡ false
      → find k (insert j a t) ≡ find k t
  find-insert_ne k j a t h = find-insert k j a t ∙ ap (λ b. if b then some a else find k t) h

  pub find-remove_self : (k : Text) (t : List (Text × A)) → find k (remove k t) ≡ none
  find-remove_self k t = find-remove k k t ∙ ap (λ b. if b then none else find k t) (same_refl k)

  pub find-remove_ne :
      (k j : Text) (t : List (Text × A)) → same j k ≡ false → find k (remove j t) ≡ find k t
  find-remove_ne k j t h = find-remove k j t ∙ ap (λ b. if b then none else find k t) h

  pub length-remove : (k : Text) (t : List (Text × A)) → length (remove k t) ≤ length t
  length-remove k [] = omega arith
  length-remove k (e ∷ es) =
      if_both (λ (t : List (Text × A)). length t ≤ suc (length es)) (same e.0 k)
        (λ _. omega (arith, length-remove k es)) (λ _. omega (arith, length-remove k es))

  pub length-remove_found :
      (k : Text) (t : List (Text × A)) (a : A) → find k t ≡ some a → length (remove k t) < length t
  length-remove_found k [] a h = absurd (true≢false (sym (ap is_some h)))
    where
      is_some : Option A → Bool
      is_some none = false
      is_some (some x) = true
  length-remove_found k (e ∷ es) a h =
      if_both
        (λ (o : Option A).
          o ≡ some a
          → length (if same e.0 k then remove k es else e ∷ remove k es) < suc (length es))
        (same e.0 k)
        (λ hit _.
          subst (λ b. length (if b then remove k es else e ∷ remove k es) < suc (length es))
            (sym hit) (omega (arith, length-remove k es)))
        (λ miss h.
          subst (λ b. length (if b then remove k es else e ∷ remove k es) < suc (length es))
            (sym miss) (omega (arith, length-remove_found k es a h)))
        h
