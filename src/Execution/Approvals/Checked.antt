-- ===== src/Execution/Approvals/Checked.antt =====
-- The decisions that Resume takes, against the calls that PendingApprovals lists.
use gopheragent.Base.{
  ℕ, ◌≡◌, refl, sym, ap, subst, true, false, List, [], ◌∷◌, Option, none, some, Text, Result, ok,
  err, In, inl, inr, ◌⊎◌, All, Bool-cases,
}
use gopheragent.History.{Message}
use gopheragent.Scheduler.{PendingToolCall}
use gopheragent.Session.Regenerate.{Sessions}
use gopheragent.Execution.Host.{Host}
use gopheragent.Execution.Resume.{pending_tool_turn}
use gopheragent.Execution.Approvals.Listed.{Awaits, approvals_in-Awaits}
use gopheragent.Execution.Approvals.{
  approvals_in, pending_calls, pending_approvals, approvals_loaded, contains_call_id,
  unknown_decision, ResumeError, nothing_to_resume, unknown_approval, resume, resume_loaded,
}

-- What the loop over the decisions finds.
abbrev pub Judged : List PendingToolCall → List Text → Option Text → Type 0
Judged listed decisions none = All (λ id. contains_call_id listed id ≡ true) decisions
Judged listed decisions (some id) = In id decisions × (contains_call_id listed id ≡ false)

Judged-cons :
    (listed : List PendingToolCall) (id : Text) (ids : List Text) (o : Option Text)
    → contains_call_id listed id ≡ true
    → Judged listed ids o
    → Judged listed (id ∷ ids) o
Judged-cons listed id ids none here h = (here, h)
Judged-cons listed id ids (some other) here (inside, unlisted) = (inr inside, unlisted)

unknown_decision-Judged :
    (listed : List PendingToolCall) (decisions : List Text)
    → Judged listed decisions (unknown_decision listed decisions)
unfolding unknown_decision
unknown_decision-Judged listed [] = tt
unknown_decision-Judged listed (id ∷ ids) = elim (Bool-cases (contains_call_id listed id)) [
  | inl here ↦ rw here (
      Judged-cons listed id ids (unknown_decision listed ids) here
        (unknown_decision-Judged listed ids))
  | inr lost ↦ rw lost (inl refl, lost)
]

-- The answers of Resume: a turn, if the decisions are all listed; the error that names an unlisted
-- one; or that there is no pending call.
abbrev pub Checked :
    List PendingToolCall
    → Option (ℕ × List PendingToolCall)
    → List Text
    → Result ResumeError ℕ
    → Type 0
Checked listed turn decisions (ok i) =
    (pending : List PendingToolCall) × ((turn ≡ some (i, pending))
      × All (λ id. contains_call_id listed id ≡ true) decisions)
Checked listed turn decisions (err e) =
    ((turn ≡ none) × (e ≡ nothing_to_resume))
    ⊎ ((id : Text) × ((e ≡ unknown_approval id)
          × (In id decisions × (contains_call_id listed id ≡ false))))

abbrev listed_in : Host → Option (ℕ × List PendingToolCall) → List PendingToolCall
listed_in h turn = approvals_in h (pending_calls turn)

resume_loaded-Checked :
    {S : Type 0} (h : Host) (decisions : List Text) (existing : List Message) (st : S)
    → Checked
        (listed_in h (pending_tool_turn existing))
        (pending_tool_turn existing)
        decisions
        (resume_loaded h decisions (ok existing, st)).0
      × ((resume_loaded h decisions (ok existing, st)).1 ≡ st)
unfolding resume_loaded
resume_loaded-Checked {S} h decisions existing st = by_turn (pending_tool_turn existing)
  where
    Outcome : Option (ℕ × List PendingToolCall) → Result ResumeError ℕ × S → Type 0
    Outcome turn out = Checked (listed_in h turn) turn decisions out.0 × (out.1 ≡ st)

    by_decision :
        (i : ℕ) (pending : List PendingToolCall) (o : Option Text)
        → Judged (approvals_in h pending) decisions o
        → Outcome
            (some (i, pending))
            (elim o [ some id ↦ (err (unknown_approval id), st) | none ↦ (ok i, st) ])
    by_decision i pending none all = ((pending, (refl, all)), refl)
    by_decision i pending (some id) judged = (inr (id, (refl, judged)), refl)

    by_turn :
        (turn : Option (ℕ × List PendingToolCall))
        → Outcome turn (elim turn [
          | none ↦ (err nothing_to_resume, st)
          | some t ↦ elim (unknown_decision (approvals_in h t.1) decisions) [
            | some id ↦ (err (unknown_approval id), st)
            | none ↦ (ok t.0, st)
          ]
        ])
    by_turn none = (inl (refl, refl), refl)
    by_turn (some (i, pending)) =
        by_decision i pending (unknown_decision (approvals_in h pending) decisions)
          (unknown_decision-Judged (approvals_in h pending) decisions)

-- Whatever the store loads, `PendingApprovals` and `Resume` answer, neither changing the store further.
-- The list has only calls of the pending turn that need an approval, and each of these is listed or
-- comes behind another one with the same cache key of name and arguments. `Resume` goes on only with a
-- pending turn and if every decision names a listed call; otherwise it says that nothing is pending,
-- or names a decision that is not listed.
pub resume-Checked :
    {S : Type 0} (s : Sessions S) (h : Host) (key : Text) (decisions : List Text) (st loaded : S)
    (existing : List Message)
    → s.load key st ≡ (ok existing, loaded)
    → (listed : List PendingToolCall) × ((pending_approvals s h key st ≡ (ok listed, loaded))
        × (Awaits h (pending_calls (pending_tool_turn existing)) listed
            × (Checked listed (pending_tool_turn existing) decisions (resume s h key decisions st).0
                × ((resume s h key decisions st).1 ≡ loaded))))
unfolding pending_approvals approvals_loaded resume
resume-Checked s h key decisions st loaded existing load = (
  listed_in h (pending_tool_turn existing),
  (
    ap (approvals_loaded h) load,
    (
      approvals_in-Awaits h (pending_calls (pending_tool_turn existing)),
      subst
          (λ answer.
            Checked (listed_in h (pending_tool_turn existing)) (pending_tool_turn existing)
              decisions (resume_loaded h decisions answer).0
            × ((resume_loaded h decisions answer).1 ≡ loaded))
          (sym load) (resume_loaded-Checked h decisions existing loaded),
    ),
  ),
)
