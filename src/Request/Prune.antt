-- ===== src/Request/Prune.antt =====
-- pkg/agent/pruning.go, pruneContextMessages and truncateToolArguments, with the trace entries of
-- pkg/agent/context_trace.go: the passes that shorten the contents of old messages.
use gopheragent.Base.{
  ℕ, zero, suc, ◌+◌, ◌-◌, ◌/◌, Bool, true, false, ◌&&◌, ◌||◌, List, [], ◌∷◌, ◌++◌, Option, some,
  none, if◌then◌else◌, length, ltb, Text, codes, decimal, rune_count, rune_slice,
}
use gopheragent.History.{Message, has_role, role_tool, role_assistant}
pub mod Frames

abbrev pub soft_trim_threshold : ℕ
soft_trim_threshold = 4000

abbrev pub retention_head : ℕ
retention_head = 1500

abbrev pub retention_tail : ℕ
retention_tail = 1500

abbrev pub outlier_trim_threshold : ℕ
outlier_trim_threshold = 50_000

abbrev pub tool_arg_truncate_len : ℕ
tool_arg_truncate_len = 500

pub data ContextChangeReason : Type 0 where
  soft_trim outlier_discarded args_truncated : ContextChangeReason

-- `index` is a place in the list that was pruned; no index stands for -1.
pub record ContextRef : Type 0 where
  pub index : Option ℕ
  pub role : Text
  pub tool_call_id : Text
  pub correlation_id : Text
  pub reason : ContextChangeReason
  pub est_tokens_before : ℕ
  pub est_tokens_after : ℕ

abbrev pub context_ref_for : ℕ → Message → ContextChangeReason → ℕ → ℕ → ContextRef
context_ref_for i m reason before after = record {
  index = some i;
  role = m.role;
  tool_call_id = m.tool_call_id;
  correlation_id = m.correlation_id;
  reason = reason;
  est_tokens_before = before;
  est_tokens_after = after;
}

unfoldable pub outlier_notice : ℕ → Text
unfolding decimal
outlier_notice runes =
    codes "\n[System: Outlier Payload Truncated] The tool returned "
    ++ (decimal runes
        ++ (codes " characters which exceeds the safety threshold of "
            ++ (decimal outlier_trim_threshold
                ++ codes
                    ". Payload was completely discarded to avoid context explosion. Retry with tighter parameters.\n")))

unfoldable pub trimmed_middle : Text → ℕ → Text
unfolding decimal rune_slice
trimmed_middle content runes =
    rune_slice content 0 retention_head
    ++ (codes "\n\n... ["
        ++ (decimal (runes - retention_head - retention_tail)
            ++ (codes " chars truncated] ...\n\n"
                ++ rune_slice content (runes - retention_tail) runes)))

abbrev pub is_prunable : Message → Bool
is_prunable m = has_role role_tool m || has_role role_assistant m

-- A rewritten message and its trace entry.
abbrev pub rewritten : ℕ → Message → ContextChangeReason → Text → Message × List ContextRef
rewritten i m reason content =
    let m' = record m { content = content } in
    (m', context_ref_for i m' reason (length m.content / 4) (length content / 4) ∷ [])

unfoldable pub prune_message : ℕ → ℕ → Message → Message × List ContextRef
unfolding rune_count outlier_notice trimmed_middle
prune_message protect_start i m =
    let runes = rune_count m.content in
    if is_prunable m && ltb i protect_start
    then (if ltb outlier_trim_threshold runes
        then rewritten i m outlier_discarded (outlier_notice runes)
        else if ltb soft_trim_threshold runes
        then rewritten i m soft_trim (trimmed_middle m.content runes)
        else (m, []))
    else (m, [])

unfoldable pub truncate_message : ℕ → Message → Message × List ContextRef
unfolding rune_count rune_slice
truncate_message i m =
    if has_role role_tool m && ltb tool_arg_truncate_len (rune_count m.content)
    then rewritten i m args_truncated (
        rune_slice m.content 0 tool_arg_truncate_len
        ++ codes "\n... (output truncated by system to save tokens)")
    else (m, [])

-- A pass over the messages with their indexes, and the trace entries in order.
unfoldable pub pass :
    (ℕ → Message → Message × List ContextRef) → ℕ → List Message → List Message × List ContextRef
pass step i [] = ([], [])
pass step i (m ∷ ms) =
    let (m', refs) = step i m in let (ms', more) = pass step (suc i) ms in (m' ∷ ms', refs ++ more)

unfoldable pub prune_context_messages : List Message → ℕ → List Message × List ContextRef
unfolding prune_message pass
prune_context_messages msgs protected_ends =
    pass (prune_message (length msgs - protected_ends)) 0 msgs

unfoldable pub truncate_tool_arguments : List Message → List Message × List ContextRef
unfolding truncate_message pass
truncate_tool_arguments msgs = pass truncate_message 0 msgs
