-- ===== src/Execution/Waves.antt =====
-- pkg/agent/loop_execute.go, executeToolWaves and splitGatedDuplicates, with substituteWaveArgs and
-- unfinished of loop_state.go. `substitute` stands for substituteRefs of scheduler.go, and `arrange`
-- for the order in which the goroutines of a wave take effect.
use gopheragent.Base.{
  ℕ, Bool, true, false, List, [], ◌∷◌, ◌++◌, Option, none, some, if◌then◌else◌, length, ltb, Text,
  Result, ok, err, find, insert,
}
use gopheragent.Scheduler.{PendingToolCall, schedule_tool_calls}
use gopheragent.Execution.State.{WaveState, record_tool_msg, unfinished, error_reply}
use gopheragent.Execution.Host.{Host, World, emit, thought, scheduler_fallback, substitution_failed}
use gopheragent.Execution.Call.{cache_key}
use gopheragent.Execution.Turn.{run_calls}
pub mod Substituted
pub mod Splits
pub mod Copies
pub mod Progress
pub mod Recorded
pub mod Repeated

-- What the code that is not modelled here answers.
pub record WaveHost : Type 0 where
  pub host : Host
  pub substitute : Text → List (Text × Text) → Result Text Text
  pub failed_text : PendingToolCall → Text → Text
  pub arrange : List PendingToolCall → List PendingToolCall

unfoldable pub substitute_wave_args :
    WaveHost → List PendingToolCall → World → List PendingToolCall × World
substitute_wave_args h [] w = ([], w)
substitute_wave_args h (tc ∷ wave) w = elim (h.substitute tc.args_json w.ws.results_by_id) [
  | err e ↦ substitute_wave_args h wave (
      emit (thought substitution_failed)
        (record w { ws = record_tool_msg tc.id (error_reply tc (h.failed_text tc e)) false w.ws }))
  | ok args ↦
      let (out, w') = substitute_wave_args h wave w in (record tc { args_json = args } ∷ out, w')
]

pub record GatedDuplicate : Type 0 where
  pub call : PendingToolCall
  pub leader_id : Text

abbrev pub is_confirmed : Host → PendingToolCall → Bool
is_confirmed h tc = elim (h.lookup tc.name) [
  | none ↦ false
  | some desc ↦ desc.requires_confirmation
]

abbrev pub kept_call :
    PendingToolCall
    → List PendingToolCall × List GatedDuplicate
    → List PendingToolCall × List GatedDuplicate
kept_call tc (out, dups) = (tc ∷ out, dups)

abbrev pub repeated_call :
    PendingToolCall
    → Text
    → List PendingToolCall × List GatedDuplicate
    → List PendingToolCall × List GatedDuplicate
repeated_call tc leader (out, dups) = (out, record { call = tc; leader_id = leader } ∷ dups)

-- The loop, with the leaders by their keys.
unfoldable pub split_gated :
    Host → List PendingToolCall → List (Text × Text) → List PendingToolCall × List GatedDuplicate
split_gated h [] seen = ([], [])
split_gated h (tc ∷ wave) seen =
    let ungated = kept_call tc (split_gated h wave seen) in
    let first = kept_call tc (split_gated h wave (insert (cache_key h tc) tc.id seen)) in
    let rest = split_gated h wave seen in
    if is_confirmed h tc
    then (elim (find (cache_key h tc) seen) [
      | none ↦ first
      | some leader ↦ repeated_call tc leader rest
    ])
    else ungated

unfoldable pub split_gated_duplicates :
    Host → List PendingToolCall → List PendingToolCall × List GatedDuplicate
unfolding split_gated
split_gated_duplicates h wave = if ltb (length wave) 2 then (wave, []) else split_gated h wave []

abbrev pub has_result : Text → WaveState → Bool
has_result id ws = elim (find id ws.results_by_id) [ none ↦ false | some _ ↦ true ]

abbrev pub copy_result : GatedDuplicate → WaveState → WaveState
copy_result d ws = elim (find d.leader_id ws.tool_msgs) [
  | none ↦ ws
  | some msg ↦
      record_tool_msg d.call.id (record msg { tool_call_id = d.call.id })
        (has_result d.leader_id ws) ws
]

unfoldable pub copy_duplicate_results : List GatedDuplicate → WaveState → WaveState
copy_duplicate_results [] ws = ws
copy_duplicate_results (d ∷ dups) ws = copy_duplicate_results dups (copy_result d ws)

-- The calls of a wave that are given to goroutines, and behind them the copies.
abbrev pub dispatch_wave : WaveHost → List PendingToolCall × List GatedDuplicate → World → World
dispatch_wave h (dispatch, dups) w =
    let w' = run_calls h.host (h.arrange dispatch) w in
    record w' { ws = copy_duplicate_results dups w'.ws }

unfoldable pub execute_wave : WaveHost → List PendingToolCall → World → World
unfolding substitute_wave_args split_gated_duplicates copy_duplicate_results unfinished
execute_wave h wave w =
    let (substituted, w') = substitute_wave_args h (unfinished w.ws wave) w in
    dispatch_wave h (split_gated_duplicates h.host substituted) w'

-- `ws.fatalErr != nil || len(ws.pending) > 0`
abbrev pub is_stopped : WaveState → Bool
is_stopped ws = elim ws.fatal_err [
  | some _ ↦ true
  | none ↦ elim ws.pending [ [] ↦ false | ◌∷◌ _ _ ↦ true ]
]

unfoldable pub execute_waves : WaveHost → List (List PendingToolCall) → World → World
unfolding execute_wave
execute_waves h [] w = w
execute_waves h (wave ∷ waves) w =
    let rest = execute_waves h waves (execute_wave h wave w) in
    if is_stopped (execute_wave h wave w).ws then execute_wave h wave w else rest

unfoldable pub execute_tool_waves : WaveHost → List PendingToolCall → World → World
unfolding execute_waves schedule_tool_calls
execute_tool_waves h scheduled w = elim (schedule_tool_calls scheduled) [
  | err e ↦ execute_waves h (scheduled ∷ []) (emit (thought scheduler_fallback) w)
  | ok waves ↦ execute_waves h waves w
]
