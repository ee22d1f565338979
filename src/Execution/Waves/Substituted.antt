-- ===== src/Execution/Waves/Substituted.antt =====
-- What the filter and the substitution of a wave keep.
use gopheragent.Base.{
  ◌≡◌, refl, sym, ap, subst, ◌∙◌, ◌⊎◌, inl, inr, Bool, true, false, ◌||◌, List, [], ◌∷◌, Option,
  none, some, if◌then◌else◌, if_both, Bool-cases, Option-cases, Result, ok, err, Text, same,
  same_iff, find,
}
use gopheragent.History.{Message}
use gopheragent.Scheduler.{PendingToolCall, has_key, ids_of}
use gopheragent.Execution.State.{WaveState, record_tool_msg, unfinished, error_reply, is_done}
use gopheragent.Execution.Host.{World, emit, thought, substitution_failed}
use gopheragent.Execution.Replies.{Held, put-Held, put-Held_self}
use gopheragent.Execution.Waves.{WaveHost, substitute_wave_args}

-- The wave keeps its fatal error and its parked calls.
abbrev pub SameCourse : WaveState → WaveState → Type 0
SameCourse a b = (a.fatal_err ≡ b.fatal_err) × (a.pending ≡ b.pending)

pub record_tool_msg-Course :
    (id : Text) (m : Message) (b : Bool) (ws : WaveState)
    → SameCourse (record_tool_msg id m b ws) ws
unfolding record_tool_msg
record_tool_msg-Course id m true ws = (refl, refl)
record_tool_msg-Course id m false ws = (refl, refl)

pub record_tool_msg-Held :
    (id : Text) (m : Message) (b : Bool) (ws : WaveState) (k : Text)
    → Held ws.tool_msgs k
    → Held (record_tool_msg id m b ws).tool_msgs k
unfolding record_tool_msg
record_tool_msg-Held id m true ws k h = put-Held id k m ws.tool_msgs h
record_tool_msg-Held id m false ws k h = put-Held id k m ws.tool_msgs h

pub record_tool_msg-Held_self :
    (id : Text) (m : Message) (b : Bool) (ws : WaveState)
    → Held (record_tool_msg id m b ws).tool_msgs id
unfolding record_tool_msg
record_tool_msg-Held_self id m true ws = put-Held_self id m ws.tool_msgs
record_tool_msg-Held_self id m false ws = put-Held_self id m ws.tool_msgs

pub unfinished-Held :
    (ws : WaveState) (wave : List PendingToolCall) (id : Text)
    → has_key (ids_of wave) id ≡ true
    → Held ws.tool_msgs id ⊎ (has_key (ids_of (unfinished ws wave)) id ≡ true)
unfolding unfinished
unfinished-Held ws [] id h = inr h
unfinished-Held ws (tc ∷ wave) id h = elim (Bool-cases (same tc.id id)) [
  | inl hit ↦ here ((same_iff tc.id id).0 hit) hit
  | inr miss ↦
      elim (unfinished-Held ws wave id (ap (λ b. b || has_key (ids_of wave) id) (sym miss) ∙ h)) [
        | inl held ↦ inl held
        | inr later ↦ inr (
            if_both (λ (cs : List PendingToolCall). has_key (ids_of cs) id ≡ true) (is_done ws tc)
              (λ _. later)
              (λ _. ap (λ b. b || has_key (ids_of (unfinished ws wave)) id) miss ∙ later))
      ]
]
  where
    here :
        tc.id ≡ id
        → same tc.id id ≡ true
        → Held ws.tool_msgs id
          ⊎ (has_key
                (ids_of (if is_done ws tc then unfinished ws wave else tc ∷ unfinished ws wave))
                id
              ≡ true)
    here e hit = elim (Option-cases (find tc.id ws.tool_msgs)) [
      | inr (m, q) ↦ inl (m, subst (λ i. find i ws.tool_msgs ≡ some m) e q)
      | inl q ↦ inr (
          ap
            (λ (o : Option Message).
              has_key
                (ids_of (
                  if (elim o [ none ↦ false | some _ ↦ true ])
                  then unfinished ws wave
                  else tc ∷ unfinished ws wave))
                id)
            q
          ∙ ap (λ b. b || has_key (ids_of (unfinished ws wave)) id) hit)
    ]

-- What the substitution keeps and what it answers.
abbrev pub Substituted : World → List PendingToolCall × World → List PendingToolCall → Type 0
Substituted w (out, w') wave =
    SameCourse w'.ws w.ws
    × (((k : Text) → Held w.ws.tool_msgs k → Held w'.ws.tool_msgs k)
        × ((k : Text)
            → has_key (ids_of wave) k ≡ true
            → Held w'.ws.tool_msgs k ⊎ (has_key (ids_of out) k ≡ true)))

pub substitute-Substituted :
    (h : WaveHost) (wave : List PendingToolCall) (w : World)
    → Substituted w (substitute_wave_args h wave w) wave
unfolding substitute_wave_args
substitute-Substituted h [] w = ((refl, refl), (λ k held. held, λ k hit. inr hit))
substitute-Substituted h (tc ∷ wave) w =
    by_args (h.substitute tc.args_json w.ws.results_by_id) (substitute-Substituted h wave w)
      (λ e. substitute-Substituted h wave (failed e))
  where
    failed : Text → World
    failed e =
        emit (thought substitution_failed)
          (record w { ws = record_tool_msg tc.id (error_reply tc (h.failed_text tc e)) false w.ws })

    by_args :
        (r : Result Text Text)
        → Substituted w (substitute_wave_args h wave w) wave
        → ((e : Text)
            → Substituted
                (emit (thought substitution_failed) (record w {
                  ws = record_tool_msg tc.id (error_reply tc (h.failed_text tc e)) false w.ws;
                }))
                (substitute_wave_args h wave (
                  emit (thought substitution_failed) (record w {
                    ws = record_tool_msg tc.id (error_reply tc (h.failed_text tc e)) false w.ws;
                  })))
                wave)
        → Substituted w
            (elim r as (λ _. List PendingToolCall × World) [
              | err e ↦ substitute_wave_args h wave (
                  emit (thought substitution_failed) (record w {
                    ws = record_tool_msg tc.id (error_reply tc (h.failed_text tc e)) false w.ws;
                  }))
              | ok args ↦
                  let (out, w') = substitute_wave_args h wave w in
                  (record tc { args_json = args } ∷ out, w')
            ])
            (tc ∷ wave)
    by_args (ok args) (course, (keeps, covers)) bad = (
      course,
      (
        keeps,
        λ k hit. elim (Bool-cases (same tc.id k)) [
          | inl this ↦
              inr (ap (λ b. b || has_key (ids_of (substitute_wave_args h wave w).0) k) this)
          | inr other ↦ elim (covers k (ap (λ b. b || has_key (ids_of wave) k) (sym other) ∙ hit)) [
            | inl held ↦ inl held
            | inr later ↦
                inr (
                  ap (λ b. b || has_key (ids_of (substitute_wave_args h wave w).0) k) other ∙ later)
          ]
        ],
      ),
    )
    by_args (err e) good bad =
        let reply = error_reply tc (h.failed_text tc e) in
        let ((same_fatal, same_pending), (keeps, covers)) = bad e in
        let (fatal, pending) = record_tool_msg-Course tc.id reply false w.ws in
        (
          (same_fatal ∙ fatal, same_pending ∙ pending),
          (
            λ k held. keeps k (record_tool_msg-Held tc.id reply false w.ws k held),
            λ k hit. elim (Bool-cases (same tc.id k)) [
              | inl this ↦ inl (
                  keeps k (
                    subst (λ i. Held (record_tool_msg tc.id reply false w.ws).tool_msgs i)
                      ((same_iff tc.id k).0 this)
                      (record_tool_msg-Held_self tc.id reply false w.ws)))
              | inr other ↦ covers k (ap (λ b. b || has_key (ids_of wave) k) (sym other) ∙ hit)
            ],
          ),
        )
