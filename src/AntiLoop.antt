-- ===== src/AntiLoop.antt =====
-- pkg/agent/anti_loop.go: the detector that watches for repeated tool calls.
use Prim.Native.Nat.{bit_xor}
use gopheragent.Base.{
  ℕ, zero, suc, ◌+◌, ◌-◌, ◌*◌, ◌%◌, ◌^◌, Bool, true, false, List, [], ◌∷◌, ◌++◌, ◌==◌, ltb, leb,
  if◌then◌else◌, Text, same, length, get_or, set, replicate,
}
pub mod Ring
pub mod Streak
pub mod Verdicts
mod Tests

abbrev pub kill_threshold : ℕ
kill_threshold = 5

abbrev pub warn_threshold : ℕ
warn_threshold = 3

abbrev pub max_recent_calls : ℕ
max_recent_calls = 30

-- hash/fnv, New64a: FNV-1a on 64 bits.
fnv_from : ℕ → Text → ℕ
fnv_from h [] = h
fnv_from h (b ∷ s) = fnv_from (bit_xor h b * 1_099_511_628_211 % 2 ^ 64) s

unfoldable pub hash_str : Text → ℕ
unfolding fnv_from
hash_str s = fnv_from 14_695_981_039_346_656_037 s

pub record CallEntry : Type 0 where
  pub tool_name : Text
  pub args_hash : ℕ
  pub result_hash : ℕ

abbrev pub no_call : CallEntry
no_call = record { tool_name = []; args_hash = 0; result_hash = 0 }

-- `head` is the place of the next write, `count` the number of valid entries.
pub record LoopDetector : Type 0 where
  pub ring : List CallEntry
  pub head : ℕ
  pub count : ℕ

unfoldable pub new_loop_detector : LoopDetector
new_loop_detector = record { ring = replicate max_recent_calls no_call; head = 0; count = 0 }

abbrev pub entry_of : Text → Text → Text → CallEntry
entry_of tool args result = record {
  tool_name = tool;
  args_hash = hash_str args;
  result_hash = hash_str result;
}

-- The critical section of AddCall.
unfoldable pub push : LoopDetector → CallEntry → LoopDetector
push ld entry = record {
  ring = set ld.ring ld.head entry;
  head = (ld.head + 1) % max_recent_calls;
  count = if ltb ld.count max_recent_calls then ld.count + 1 else ld.count;
}

unfoldable pub add_call : LoopDetector → Text → Text → Text → LoopDetector
unfolding push
add_call ld tool args result = push ld (entry_of tool args result)

-- The entry `k` places before the newest. Go adds the size before it takes the remainder.
unfoldable pub at : LoopDetector → ℕ → CallEntry
at ld k = get_or ld.ring ((ld.head + max_recent_calls - 1 - k) % max_recent_calls) no_call

pub record Tally : Type 0 where
  pub same_args : ℕ
  pub same_result : ℕ

-- One round of the loop on an entry of the same tool.
abbrev pub tally_entry : CallEntry → CallEntry → Tally → Tally
tally_entry newest e t =
    if e.args_hash == newest.args_hash
    then record t { same_args = t.same_args + 1 }
    else if e.result_hash == newest.result_hash
    then record t { same_result = t.same_result + 1 }
    else t

-- `for k := range n`, with the rounds left, `k`, and the two counters.
unfoldable pub scan : LoopDetector → CallEntry → ℕ → ℕ → Tally → Tally
scan ld newest zero k t = t
scan ld newest (suc left) k t =
    let rest = scan ld newest left (suc k) (tally_entry newest (at ld k) t) in
    if same (at ld k).tool_name newest.tool_name then rest else t

-- The warning or the error, with what its text is made of.
pub data Verdict : Type 0 where
  quiet : Verdict
  warn_args : Text → ℕ → Verdict
  warn_result : Text → ℕ → Verdict
  kill_args : Text → Verdict
  kill_result : Text → Verdict

-- The tests behind the loop.
unfoldable pub judge : Text → Tally → Verdict
judge tool t =
    if leb kill_threshold t.same_args
    then kill_args tool
    else if leb warn_threshold t.same_args
    then warn_args tool t.same_args
    else if leb kill_threshold t.same_result
    then kill_result tool
    else if leb warn_threshold t.same_result
    then warn_result tool t.same_result
    else quiet

unfoldable pub detect : LoopDetector → Verdict
unfolding at scan judge
detect ld =
    let newest = at ld 0 in
    if ltb ld.count warn_threshold
    then quiet
    else judge newest.tool_name
        (scan ld newest ld.count 0 (record { same_args = 0; same_result = 0 }))
