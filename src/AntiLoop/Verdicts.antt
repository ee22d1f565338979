-- ===== src/AntiLoop/Verdicts.antt =====
-- The verdict of `Detect`, by what the recorded calls contain.
use mathlib.Core.List.{reverse}
use gopheragent.Base.{
  ℕ, ◌≤◌, ◌<◌, ◌≡◌, refl, ap, ◌∙◌, sym, List, [], ◌∷◌, arith, length, if_both, take, ltb, leb, Text,
  subst, ◌+◌,
}
use gopheragent.AntiLoop.{
  CallEntry, new_loop_detector, Verdict, quiet, warn_args, warn_result, kill_args, kill_result,
  judge, detect, Tally,
}
use gopheragent.AntiLoop.Ring.{push_all, recents-new}
use gopheragent.AntiLoop.Streak.{
  streak, count_args, count_result, tally_of, verdict_on, detect-recents,
}

-- The verdicts on a streak of calls of `tool`, of which `a` have the arguments of the newest and `r`
-- others its result: five kill, three or four warn, and the arguments come first.
abbrev pub Deserves : Text → ℕ → ℕ → Verdict → Type 0
Deserves tool a r quiet = (a < 3) × (r < 3)
Deserves tool a r (warn_args t n) = (t ≡ tool) × ((n ≡ a) × ((3 ≤ a) × (a < 5)))
Deserves tool a r (warn_result t n) = (t ≡ tool) × ((n ≡ r) × ((a < 3) × ((3 ≤ r) × (r < 5))))
Deserves tool a r (kill_args t) = (t ≡ tool) × (5 ≤ a)
Deserves tool a r (kill_result t) = (t ≡ tool) × ((a < 3) × (5 ≤ r))

-- The verdict on a list of calls, the newest first.
abbrev pub Warranted : List CallEntry → Verdict → Type 0
Warranted [] v = v ≡ quiet
Warranted (newest ∷ es) v =
    let run = streak newest.tool_name (newest ∷ es) in
    Deserves newest.tool_name (count_args newest run) (count_result newest run) v

judge-Deserves : (tool : Text) (t : Tally) → Deserves tool t.same_args t.same_result (judge tool t)
unfolding judge
judge-Deserves tool t =
    let P = Deserves tool t.same_args t.same_result in
    if_both P (leb 5 t.same_args) (λ h. (refl, ground arith))
      (λ h.
        if_both P (leb 3 t.same_args) (λ h'. (refl, (refl, (ground arith, ground arith))))
          (λ h'.
            if_both P (leb 5 t.same_result) (λ q. (refl, (ground arith, ground arith)))
              (λ q.
                if_both P (leb 3 t.same_result)
                  (λ q'. (refl, (refl, (ground arith, (ground arith, ground arith)))))
                  (λ q'. (ground arith, ground arith)))))

length-streak : (name : Text) (es : List CallEntry) → length (streak name es) ≤ length es
unfolding streak
length-streak name [] = omega arith
length-streak name (e ∷ es) = ground (arith, length-streak name es)

counts-length :
    (newest : CallEntry) (es : List CallEntry)
    → count_args newest es + count_result newest es ≤ length es
unfolding count_args count_result
counts-length newest [] = omega arith
counts-length newest (e ∷ es) = ground (arith, counts-length newest es)

verdict_on-Warranted : (es : List CallEntry) → Warranted es (verdict_on es)
unfolding verdict_on
verdict_on-Warranted [] = refl
verdict_on-Warranted (newest ∷ es) =
    let run = streak newest.tool_name (newest ∷ es) in
    let P = Deserves newest.tool_name (count_args newest run) (count_result newest run) in
    if_both P (ltb (length (newest ∷ es)) 3)
      (λ h.
        let few : length (newest ∷ es) < 3 = ground arith in
        let long = length-streak newest.tool_name (newest ∷ es) in
        let sum = counts-length newest run in
        (omega (arith, few, long, sum), omega (arith, few, long, sum)))
      (λ _. judge-Deserves newest.tool_name (tally_of newest run))

-- Whatever calls were recorded, `Detect` looks at the streak of calls of one tool that ends the last
-- thirty of them. Five with the arguments of the newest call kill the run, three or four warn with
-- their number; if there are fewer, five others with the result of the newest kill it, three or four
-- warn; and otherwise it is quiet.
pub detect-Warranted :
    (es : List CallEntry)
    → Warranted (take 30 (reverse es)) (detect (push_all new_loop_detector es))
detect-Warranted es =
    let seen = detect-recents (push_all new_loop_detector es) ∙ ap verdict_on (recents-new es) in
    subst (Warranted (take 30 (reverse es))) (sym seen)
      (verdict_on-Warranted (take 30 (reverse es)))
