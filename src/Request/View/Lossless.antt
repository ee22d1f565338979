-- ===== src/Request/View/Lossless.antt =====
-- What a compaction does to a history and to its view.
use gopheragent.Base.{
  ℕ, ◌+◌, ◌-◌, ◌≡◌, sym, ap, subst, ◌∙◌, Bool, List, ◌++◌, arith, length, drop, if_both,
  option_both, Text, Option, some, Result, ok, err, take-append-drop,
}
use gopheragent.History.{Message}
use gopheragent.Request.Window.Rooted.{Balanced}
use gopheragent.Request.View.{
  compacted_view, insert_record, CompactionPlan, CompactedEvent, plan_at, plan_compaction,
  compaction_record, bound_span, compact_with, compact_history, input_runes,
}
use gopheragent.Request.View.Tail.{drop-drop, compacted_view-tail}
use gopheragent.Request.View.Balanced.{Segmented}
use gopheragent.Request.View.Placed.{
  IsCut, IsPlan, plan_compaction-IsPlan, after, after-tail, after-Segmented, after-Balanced,
}

-- If a compaction is due, then the messages that its plan summarises, followed by what the view of
-- the new history shows behind its head, are what the view of the old one showed there, whatever
-- the summary is.
pub plan_compaction-tail :
    (stored : List Message) (window : ℕ) (plan : CompactionPlan) (summary : Text) (n : ℕ)
    → plan_compaction stored window ≡ some plan
    → plan.span
        ++ drop
            (compacted_view (insert_record stored plan.at (compaction_record summary n))).head
            (compacted_view (insert_record stored plan.at (compaction_record summary n))).msgs
      ≡ drop (compacted_view stored).head (compacted_view stored).msgs
plan_compaction-tail stored window plan summary n due =
    let (cut, (is_cut, e)) = plan_compaction-IsPlan stored window plan due in
    subst
      (λ (p : CompactionPlan).
        p.span
          ++ drop (compacted_view (insert_record stored p.at (compaction_record summary n))).head
              (compacted_view (insert_record stored p.at (compaction_record summary n))).msgs
        ≡ drop (compacted_view stored).head (compacted_view stored).msgs)
      (sym e) (joined cut is_cut)
  where
    joined :
        (cut : ℕ) (is_cut : IsCut (compacted_view stored) cut)
        → (plan_at stored (compacted_view stored) cut).span
            ++ drop
                (compacted_view (after stored cut is_cut summary n)).head
                (compacted_view (after stored cut is_cut summary n)).msgs
          ≡ drop (compacted_view stored).head (compacted_view stored).msgs
    joined cut is_cut =
        let v = compacted_view stored in
        ap (λ xs. (plan_at stored v cut).span ++ xs)
          (after-tail stored cut is_cut summary n
            ∙ sym (compacted_view-tail stored cut (omega (arith, is_cut.0)))
            ∙ sym (drop-drop (cut - v.head) v.head cut v.msgs (omega (arith, is_cut.0))))
        ∙ take-append-drop (cut - v.head) (drop v.head v.msgs)

compact_with-keeps :
    (stored : List Message) (plan : CompactionPlan) (bounded : List Message × ℕ)
    (r : Result Text Text)
    → IsPlan stored plan
    → Segmented stored
    → Balanced stored
    → Segmented (compact_with stored plan bounded r).0
      × Balanced (compact_with stored plan bounded r).0
compact_with-keeps stored plan bounded (err e) is_plan seg h = (seg, h)
compact_with-keeps stored plan (span, omitted) (ok summary) (cut, (is_cut, e)) seg h =
    let at = cut + (compacted_view stored).shift in
    subst
      (λ (p : CompactionPlan).
        Segmented (insert_record stored p.at (compaction_record summary (length span)))
        × Balanced (insert_record stored p.at (compaction_record summary (length span))))
      (sym e)
      (
        after-Segmented stored cut is_cut summary (length span) seg,
        after-Balanced stored cut is_cut summary (length span) h,
      )

-- Whatever the model answers or fails with, a compaction leaves a history balanced, with a user
-- message or the end behind each record, when it was so before.
pub compact_history-Balanced :
    (summarize : Text → List Message → Result Text Text) (runs : Bool) (window : ℕ)
    (stored : List Message)
    → Segmented stored
    → Balanced stored
    → Segmented (compact_history summarize runs window stored).0
      × Balanced (compact_history summarize runs window stored).0
unfolding compact_history
compact_history-Balanced summarize runs window stored seg h =
    let P = λ (r : List Message × Option CompactedEvent). Segmented r.0 × Balanced r.0 in
    option_both P (plan_compaction stored window) (λ _. (seg, h))
      (λ plan due.
        if_both P runs
          (λ _.
            compact_with-keeps stored plan (bound_span plan.span input_runes)
              (summarize plan.previous (bound_span plan.span input_runes).0)
              (plan_compaction-IsPlan stored window plan due) seg h)
          (λ _. (seg, h)))
