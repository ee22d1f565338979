-- ===== src/Request/View/Placed.antt =====
-- Where a compaction puts its record, and the view of the history with it.
use gopheragent.Base.{
  ℕ, zero, suc, ◌+◌, ◌-◌, ◌/◌, ◌<◌, ◌≤◌, ◌≡◌, refl, sym, ap, subst, ◌∙◌, inl, inr, true, false,
  ◌||◌, List, [], ◌∷◌, arith, length, drop, take, leb, ◌==◌, max, if_both, Text, Option, none, some,
  dec_lt, take-append-drop, text_discrete,
}
use mathlib.Core.Bool.{true≢false}
use gopheragent.History.{Message}
use gopheragent.Request.Window.{leading_system, user_at}
use gopheragent.Request.Window.Start.{snap_back-Snapped}
use gopheragent.Request.Window.Rooted.{Balanced}
use gopheragent.Request.View.{
  RequestView, record_at, record_below, latest_compaction, view_from, compacted_view, insert_record,
  CompactionPlan, plan_cut, plan_at, plan_compaction, compaction_record,
}
use gopheragent.Request.View.Tail.{Newest, record_below-Newest, Newest-unique, compacted_view-tail}
use gopheragent.Request.View.Insert.{
  length-insert, get-insert_self, get-insert_above, drop-insert, leading_system-insert,
  user_at-drop, user_at-bound,
}
use gopheragent.Request.View.Segmented.{Segmented-insert, holds_record}
use gopheragent.Request.View.Balanced.{Segmented, Balanced-insert}

-- What a plan knows of its cut: it lies behind the head of the view, at a user message.
abbrev pub IsCut : RequestView → ℕ → Type 0
IsCut v cut = (v.head < cut) × (user_at v.msgs cut ≡ true)

plan_cut-IsCut :
    (v : RequestView) (window : ℕ) → v.head < plan_cut v window → IsCut v (plan_cut v window)
plan_cut-IsCut v window h =
    elim (snap_back-Snapped v.msgs v.head (length v.msgs - max (window / 2) 1 - v.head)).0 [
      | inl e ↦ absurd (omega arith)
      | inr (low, (high, hit)) ↦ (h, hit)
    ]

abbrev pub IsPlan : List Message → CompactionPlan → Type 0
IsPlan stored plan =
    (cut : ℕ) × (IsCut (compacted_view stored) cut
      × (plan ≡ plan_at stored (compacted_view stored) cut))

pub plan_compaction-IsPlan :
    (stored : List Message) (window : ℕ) (plan : CompactionPlan)
    → plan_compaction stored window ≡ some plan
    → IsPlan stored plan
unfolding plan_compaction
plan_compaction-IsPlan stored window plan =
    let v = compacted_view stored in
    let cut = plan_cut v window in
    if_both (λ o. o ≡ some plan → IsPlan stored plan)
      (window == 0 || (leb (length v.msgs - v.head) window || leb cut v.head))
      (λ _ q. absurd (true≢false (sym (ap (λ o. elim o [ none ↦ false | some _ ↦ true ]) q))))
      (λ far q. (
        cut,
        (
          plan_cut-IsCut v window (ground arith),
          sym (ap (λ o. elim o [ none ↦ plan | some x ↦ x ]) q),
        ),
      ))

view_from-head :
    (stored : List Message) (sys : ℕ) (o : Option ℕ) → sys ≤ (view_from stored sys o).head
view_from-head stored sys none = omega arith
view_from-head stored zero (some rec) = omega arith
view_from-head stored (suc n) (some rec) = omega arith

-- The tail of a view begins behind its record.
view_from-end :
    (stored : List Message) (sys rec : ℕ)
    → sys ≤ suc rec
    → (view_from stored sys (some rec)).head + (view_from stored sys (some rec)).shift ≡ suc rec
view_from-end stored zero rec h = omega arith
view_from-end stored (suc n) rec h = omega arith

record_at-beyond : (xs : List Message) (i : ℕ) → length xs ≤ i → record_at xs i ≡ false
record_at-beyond [] zero h = refl
record_at-beyond [] (suc i) h = refl
record_at-beyond (x ∷ xs) zero h = absurd (omega arith)
record_at-beyond (x ∷ xs) (suc i) h = record_at-beyond xs i (omega arith)

-- No record stands behind the head of a view.
view_from-free :
    (stored : List Message) (sys : ℕ) (o : Option ℕ) (i : ℕ)
    → Newest stored sys (length stored - sys) o
    → (view_from stored sys o).head + (view_from stored sys o).shift ≤ i
    → i < length stored
    → record_at stored i ≡ false
view_from-free stored sys none i new low high = new i (omega arith) (omega arith)
view_from-free stored sys (some rec) i (hit, (above, (below, free))) low high =
    free i (omega (arith, view_from-end stored sys rec (omega arith))) (omega arith)

module _ (stored : List Message) (cut : ℕ) (is_cut : IsCut (compacted_view stored) cut) where
  pub place-user : user_at stored (cut + (compacted_view stored).shift) ≡ true
  place-user =
      user_at-drop stored (cut + (compacted_view stored).shift)
      ∙ sym (ap (λ xs. user_at xs 0) (compacted_view-tail stored cut (omega (arith, is_cut.0))))
      ∙ sym (user_at-drop (compacted_view stored).msgs cut)
      ∙ is_cut.1

  place-bound : cut + (compacted_view stored).shift < length stored
  place-bound = user_at-bound stored (cut + (compacted_view stored).shift) place-user

  place-system : leading_system stored < cut + (compacted_view stored).shift
  unfolding compacted_view
  place-system = omega (
    arith,
    is_cut.0,
    view_from-head stored (leading_system stored)
        (latest_compaction stored (leading_system stored)),
  )

  place-free :
      (i : ℕ)
      → (compacted_view stored).head + (compacted_view stored).shift ≤ i
      → record_at stored i ≡ false
  unfolding compacted_view latest_compaction
  place-free i h =
      let sys = leading_system stored in
      elim (dec_lt i (length stored)) [
        | yes below ↦
            view_from-free stored sys (record_below stored sys (length stored - sys)) i
              (record_below-Newest stored sys (length stored - sys)) h below
        | no beyond ↦ record_at-beyond stored i (omega arith)
      ]

  module _ (summary : Text) (n : ℕ) where
    abbrev pub after : List Message
    after = insert_record stored (cut + (compacted_view stored).shift) (compaction_record summary n)

    after-system : leading_system after ≡ leading_system stored
    after-system =
        leading_system-insert stored (cut + (compacted_view stored).shift)
          (compaction_record summary n) refl (omega (arith, place-system))
          (omega (arith, place-bound))

    after-Newest :
        Newest after
          (leading_system stored)
          (length after - leading_system stored)
          (some (cut + (compacted_view stored).shift))
    after-Newest = (
      ap holds_record (
          get-insert_self stored (cut + (compacted_view stored).shift) (compaction_record summary n)
            (omega (arith, place-bound))),
      (omega (arith, place-system), (omega (arith, place-bound, place-system, long), above)),
    )
      where
        long : length after ≡ suc (length stored)
        long =
            length-insert stored (cut + (compacted_view stored).shift) (compaction_record summary n)

        above :
            (i : ℕ)
            → cut + (compacted_view stored).shift < i
            → i < leading_system stored + (length after - leading_system stored)
            → record_at after i ≡ false
        above zero low high = absurd (omega arith)
        above (suc i) low high =
            ap holds_record (
              get-insert_above stored (cut + (compacted_view stored).shift) i
                (compaction_record summary n) (omega arith) (omega (arith, place-bound)))
            ∙ place-free i (omega (arith, is_cut.0))

    after-view :
        compacted_view after
        ≡ view_from after (leading_system stored) (some (cut + (compacted_view stored).shift))
    unfolding compacted_view latest_compaction
    after-view =
        let sys = leading_system stored in
        ap (λ n. view_from after n (record_below after n (length after - n))) after-system
        ∙ ap (view_from after sys) (
            Newest-unique after sys (length after - sys) _ (cut + (compacted_view stored).shift)
              (record_below-Newest after sys (length after - sys)) after-Newest)

    pub after-tail :
        drop (compacted_view after).head (compacted_view after).msgs
        ≡ drop (cut + (compacted_view stored).shift) stored
    after-tail =
        compacted_view-tail after (compacted_view after).head (omega arith)
        ∙ ap (λ n. drop n after) end
        ∙ drop-insert stored (cut + (compacted_view stored).shift) (compaction_record summary n)
            (omega (arith, place-bound))
      where
        end :
            (compacted_view after).head + (compacted_view after).shift
            ≡ suc (cut + (compacted_view stored).shift)
        end =
            subst (λ v. v.head + v.shift ≡ suc (cut + (compacted_view stored).shift))
              (sym after-view)
              (view_from-end after (leading_system stored) (cut + (compacted_view stored).shift)
                (omega (arith, place-system)))

    pub after-Segmented : Segmented stored → Segmented after
    after-Segmented =
        Segmented-insert stored (cut + (compacted_view stored).shift) (compaction_record summary n)
          place-user (λ i h. place-free i (omega (arith, is_cut.0)))

    pub after-Balanced : Balanced stored → Balanced after
    unfolding text_discrete
    after-Balanced h =
        let at = cut + (compacted_view stored).shift in
        Balanced-insert (compaction_record summary n) refl refl (λ ids. refl) (take at stored)
          (drop at stored) (subst Balanced (sym (take-append-drop at stored)) h)
