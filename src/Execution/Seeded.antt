-- ===== src/Execution/Seeded.antt =====
-- The wave that Resume continues, and the calls that it skips.
use gopheragent.Base.{
  ◌≡◌, refl, sym, ◌∙◌, ap, Bool, true, false, not, ◌||◌, List, [], ◌∷◌, map, Option, none, some,
  Text, same, if◌then◌else◌, find, put, All,
}
use gopheragent.History.{Message}
use gopheragent.Scheduler.{PendingToolCall}
use gopheragent.Request.Dangling.{has_id}
use gopheragent.Execution.State.{WaveState, new_wave_state, is_done, unfinished}
use gopheragent.Execution.Resume.{unanswered_calls, seeded_wave_state}
use gopheragent.Execution.Reread.{filter-unfinished}

abbrev is_some : Option Message → Bool
is_some o = elim o [ none ↦ false | some _ ↦ true ]

abbrev stored_at : Text → List (Text × Message) → Bool
stored_at id t = is_some (find id t)

is_some-if :
    (b : Bool) (m : Message) (o : Option Message)
    → is_some (if b then some m else o) ≡ (b || is_some o)
is_some-if true m o = refl
is_some-if false m o = refl

stored_at-put :
    (k id : Text) (m : Message) (t : List (Text × Message))
    → stored_at id (put k m t) ≡ (same k id || stored_at id t)
stored_at-put k id m t = is_some-if (same k id) m (find id t)

or-rotate : (a b c : Bool) → (a || (b || c)) ≡ ((b || a) || c)
or-rotate true true c = refl
or-rotate true false c = refl
or-rotate false true c = refl
or-rotate false false c = refl

seeded-stored :
    (results : List Message) (ws : WaveState) (id : Text)
    → stored_at id (seeded_wave_state results ws).tool_msgs
      ≡ (has_id (map (λ (m : Message). m.tool_call_id) results) id || stored_at id ws.tool_msgs)
unfolding seeded_wave_state
seeded-stored [] ws id = refl
seeded-stored (m ∷ results) ws id =
    let answered = has_id (map (λ (m : Message). m.tool_call_id) results) id in
    seeded-stored results _ id
    ∙ ap (λ b. answered || b) (stored_at-put m.tool_call_id id m ws.tool_msgs)
    ∙ or-rotate answered (same m.tool_call_id id) (stored_at id ws.tool_msgs)

or-false : (b : Bool) → (b || false) ≡ b
or-false true = refl
or-false false = refl

-- The wave that is seeded with stored results leaves unfinished exactly the calls that
-- `pendingToolTurn` counts as unanswered by these results.
pub unfinished-seeded :
    (results : List Message) (calls : List PendingToolCall)
    → unanswered_calls results calls ≡ unfinished (seeded_wave_state results new_wave_state) calls
unfinished-seeded results calls =
    filter-unfinished (seeded_wave_state results new_wave_state) _ calls (each calls)
  where
    each :
        (cs : List PendingToolCall)
        → All
            (λ (c : PendingToolCall).
              not (has_id (map (λ (m : Message). m.tool_call_id) results) c.id)
              ≡ not (is_done (seeded_wave_state results new_wave_state) c))
            cs
    each [] = tt
    each (c ∷ cs) = (ap not (sym (seeded-stored results new_wave_state c.id ∙ or-false _)), each cs)
