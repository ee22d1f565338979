-- ===== src/Request/View/Segmented.antt =====
-- The records of a history with one more message in it.
use gopheragent.Base.{
  ℕ, zero, suc, ◌<◌, ◌≤◌, ◌≡◌, sym, ap, subst, ◌∙◌, ◌⊎◌, inl, inr, Bool, true, false, List, arith,
  length, Option, none, some, ℕ_discrete, dec_lt,
}
use mathlib.Core.Bool.{true≢false}
use gopheragent.History.{Message, has_role, role_user}
use gopheragent.Request.Window.{user_at}
use gopheragent.Request.View.{is_record, record_at, insert_record}
use gopheragent.Request.View.Insert.{get-insert_below, get-insert_above, user_at-bound}
use gopheragent.Request.View.Balanced.{Segmented}

abbrev pub holds_record : Option Message → Bool
holds_record o = elim o [ none ↦ false | some m ↦ is_record m ]

abbrev pub holds_user : Option Message → Bool
holds_user o = elim o [ none ↦ false | some m ↦ has_role role_user m ]

module _ (stored : List Message) (at : ℕ) (r : Message) (user : user_at stored at ≡ true)
    (free : (i : ℕ) → at ≤ suc i → record_at stored i ≡ false) where
  fits : at < length stored
  fits = user_at-bound stored at user

  before :
      (i : ℕ)
      → suc i < at
      → (user_at stored (suc i) ≡ true) ⊎ (length stored ≤ suc i)
      → (user_at (insert_record stored at r) (suc i) ≡ true)
        ⊎ (length (insert_record stored at r) ≤ suc i)
  before i below (inl hit) =
      inl (ap holds_user (get-insert_below stored at (suc i) r below (omega (arith, fits))) ∙ hit)
  before i below (inr end) = absurd (omega (arith, fits))

  next : user_at (insert_record stored at r) (suc at) ≡ true
  next = ap holds_user (get-insert_above stored at at r (omega arith) (omega (arith, fits))) ∙ user

  behind : (i : ℕ) → at < i → record_at (insert_record stored at r) i ≡ false
  behind zero far = absurd (omega arith)
  behind (suc i) far =
      ap holds_record (get-insert_above stored at i r (omega arith) (omega (arith, fits)))
      ∙ free i (omega arith)

  from_below :
      (i : ℕ)
      → i < at
      → record_at (insert_record stored at r) i ≡ true
      → Segmented stored
      → (user_at (insert_record stored at r) (suc i) ≡ true)
        ⊎ (length (insert_record stored at r) ≤ suc i)
  from_below i below hit seg =
      let was =
        sym (ap holds_record (get-insert_below stored at i r below (omega (arith, fits)))) ∙ hit in
      elim (dec_lt (suc i) at) [
        | yes far ↦ before i far (seg i was)
        | no near ↦ absurd (true≢false (sym was ∙ free i (omega arith)))
      ]

  pub Segmented-insert : Segmented stored → Segmented (insert_record stored at r)
  Segmented-insert seg i hit = elim (dec_lt i at) [
    | yes below ↦ from_below i below hit seg
    | no low ↦ elim (ℕ_discrete i at) [
      | yes e ↦
          subst
            (λ j.
              (user_at (insert_record stored at r) (suc j) ≡ true)
              ⊎ (length (insert_record stored at r) ≤ suc j))
            (sym e) (inl next)
      | no other ↦ absurd (true≢false (sym hit ∙ behind i (omega arith)))
    ]
  ]
