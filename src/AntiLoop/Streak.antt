-- ===== src/AntiLoop/Streak.antt =====
-- What `Detect` decides, stated over the list of recent calls.
use gopheragent.Base.{
  ℕ, zero, suc, ◌+◌, ◌≤◌, ◌<◌, ◌≡◌, ◌≢◌, refl, ap, ◌∙◌, sym, true, List, [], ◌∷◌, arith, length,
  if◌then◌else◌, ltb, leb, ◌==◌, same, Text, take, subst,
}
use gopheragent.AntiLoop.{
  CallEntry, LoopDetector, Tally, tally_entry, Verdict, quiet, kill_args, judge, scan, detect, at,
  push, add_call, entry_of, hash_str, kill_threshold, warn_threshold, max_recent_calls,
}
use gopheragent.AntiLoop.Ring.{from, recents, IsRing, recents-push, push-IsRing}

-- The calls in front that are of the tool `name`.
unfoldable pub streak : Text → List CallEntry → List CallEntry
streak name [] = []
streak name (e ∷ es) = if same e.tool_name name then e ∷ streak name es else []

-- How many of them have the arguments of the newest, and how many only its result.
unfoldable pub count_args : CallEntry → List CallEntry → ℕ
count_args newest [] = 0
count_args newest (e ∷ es) =
    if e.args_hash == newest.args_hash then suc (count_args newest es) else count_args newest es

unfoldable pub count_result : CallEntry → List CallEntry → ℕ
count_result newest [] = 0
count_result newest (e ∷ es) =
    if e.args_hash == newest.args_hash
    then count_result newest es
    else if e.result_hash == newest.result_hash
    then suc (count_result newest es)
    else count_result newest es

abbrev pub tally_of : CallEntry → List CallEntry → Tally
tally_of newest run = record {
  same_args = count_args newest run;
  same_result = count_result newest run;
}

-- The verdict on a list of calls, the newest first.
unfoldable pub verdict_on : List CallEntry → Verdict
verdict_on [] = quiet
verdict_on (newest ∷ es) =
    if ltb (length (newest ∷ es)) warn_threshold
    then quiet
    else judge newest.tool_name (tally_of newest (streak newest.tool_name (newest ∷ es)))

scan-streak :
    (ld : LoopDetector) (newest : CallEntry) (n k : ℕ) (t : Tally)
    → scan ld newest n k t ≡ record {
      same_args = t.same_args + count_args newest (streak newest.tool_name (from ld n k));
      same_result = t.same_result + count_result newest (streak newest.tool_name (from ld n k));
    }
unfolding scan streak count_args count_result from
scan-streak ld newest zero k t = ground arith
scan-streak ld newest (suc n) k t =
    ground (arith, scan-streak ld newest n (suc k) (tally_entry newest (at ld k) t))

length-from : (ld : LoopDetector) (n k : ℕ) → length (from ld n k) ≡ n
unfolding from
length-from ld zero k = refl
length-from ld (suc n) k = omega (arith, length-from ld n (suc k))

scan_fresh :
    (ld : LoopDetector) (newest : CallEntry) (n : ℕ)
    → scan ld newest n 0 (record { same_args = 0; same_result = 0 })
      ≡ tally_of newest (streak newest.tool_name (from ld n 0))
scan_fresh ld newest n =
    scan-streak ld newest n 0 (record { same_args = 0; same_result = 0 }) ∙ ground arith

judge-scan : (ld : LoopDetector) (n : ℕ) → ld.count ≡ n → detect ld ≡ verdict_on (from ld n 0)
unfolding detect verdict_on from
judge-scan ld zero e = rw e
judge-scan ld (suc n) e = rw (e, scan_fresh ld (at ld 0) (suc n), length-from ld n 1)

-- `Detect` looks at the recorded calls alone: its verdict is the one on their list.
pub detect-recents : (ld : LoopDetector) → detect ld ≡ verdict_on (recents ld)
unfolding recents
detect-recents ld = judge-scan ld ld.count refl

-- The `n` newest calls are of this tool with this hash of the arguments.
abbrev pub Leads : ℕ → Text → ℕ → List CallEntry → Type 0
Leads zero tool h es = Unit {0}
Leads (suc n) tool h [] = ⊥
Leads (suc n) tool h (e ∷ es) = (e.tool_name ≡ tool) × (e.args_hash ≡ h) × Leads n tool h es

Leads-take :
    (n m : ℕ) (tool : Text) (h : ℕ) (es : List CallEntry)
    → n ≤ m
    → Leads n tool h es
    → Leads n tool h (take m es)
Leads-take zero m tool h es le v = tt
Leads-take (suc n) m tool h [] le v = absurd v
Leads-take (suc n) zero tool h (e ∷ es) le v = absurd (omega arith)
Leads-take (suc n) (suc m) tool h (e ∷ es) le v =
    (v.0, v.1, Leads-take n m tool h es (omega arith) v.2)

Leads-count :
    (n : ℕ) (tool : Text) (newest : CallEntry) (es : List CallEntry)
    → Leads n tool newest.args_hash es
    → n ≤ count_args newest (streak tool es)
unfolding streak count_args
Leads-count zero tool newest es v = omega arith
Leads-count (suc n) tool newest [] v = absurd v
Leads-count (suc n) tool newest (e ∷ es) v = ground (arith, Leads-count n tool newest es v.2)

length-Leads :
    (n : ℕ) (tool : Text) (h : ℕ) (es : List CallEntry) → Leads n tool h es → n ≤ length es
length-Leads zero tool h es v = omega arith
length-Leads (suc n) tool h [] v = absurd v
length-Leads (suc n) tool h (e ∷ es) v = omega (arith, length-Leads n tool h es v.2)

kill_front :
    (e : CallEntry) (es : List CallEntry)
    → 5 ≤ length (e ∷ es)
    → 5 ≤ count_args e (streak e.tool_name (e ∷ es))
    → verdict_on (e ∷ es) ≡ kill_args e.tool_name
unfolding verdict_on judge
kill_front e es long many = rw (leb_le 5 _ many) (ground arith)
  where
    leb_le : (a b : ℕ) → a ≤ b → leb a b ≡ true
    leb_le a b h = ground arith

-- Five calls in front of one tool with one hash of the arguments kill the run.
kill-Leads :
    (tool : Text) (h : ℕ) (es : List CallEntry)
    → Leads kill_threshold tool h es
    → verdict_on es ≡ kill_args tool
kill-Leads tool h [] v = absurd v
kill-Leads tool h (e ∷ es) v =
    let w : Leads 5 e.tool_name e.args_hash (e ∷ es) =
      subst (λ t. Leads 5 t e.args_hash (e ∷ es)) (sym v.0)
        (subst (λ x. Leads 5 tool x (e ∷ es)) (sym v.1) v) in
    kill_front e es (length-Leads 5 tool h (e ∷ es) v) (Leads-count 5 e.tool_name e (e ∷ es) w)
    ∙ ap kill_args v.0

-- Calls of one tool with one text of arguments, one for each result, in order of time.
unfoldable pub add_calls : LoopDetector → Text → Text → List Text → LoopDetector
add_calls ld tool args [] = ld
add_calls ld tool args (r ∷ rs) = add_calls (add_call ld tool args r) tool args rs

Leads-add_call :
    (n : ℕ) (ld : LoopDetector) (tool args result : Text)
    → IsRing ld
    → Leads n tool (hash_str args) (recents ld)
    → n < max_recent_calls
    → Leads (suc n) tool (hash_str args) (recents (add_call ld tool args result))
unfolding add_call
Leads-add_call n ld tool args result v l h = rw (recents-push ld (entry_of tool args result) v) (
    Leads-take (suc n) max_recent_calls tool (hash_str args)
      (entry_of tool args result ∷ recents ld) (omega arith) (refl, refl, l))

add_calls-Leads :
    (rs : List Text) (n m : ℕ) (ld : LoopDetector) (tool args : Text)
    → IsRing ld
    → Leads n tool (hash_str args) (recents ld)
    → n + length rs ≡ m
    → m ≤ max_recent_calls
    → Leads m tool (hash_str args) (recents (add_calls ld tool args rs))
unfolding add_calls add_call
add_calls-Leads [] n m ld tool args v l e h =
    subst (λ k. Leads k tool (hash_str args) (recents ld)) (omega arith) l
add_calls-Leads (r ∷ rs) n m ld tool args v l e h =
    add_calls-Leads rs (suc n) m (add_call ld tool args r) tool args
      (push-IsRing ld (entry_of tool args r) v) (Leads-add_call n ld tool args r v l (omega arith))
      (omega arith) h

-- Whatever was recorded before, five calls in a row of one tool with the same arguments kill the
-- run, whatever their results were.
pub five_same_calls :
    (ld : LoopDetector) (tool args r₁ r₂ r₃ r₄ r₅ : Text)
    → IsRing ld
    → detect (add_calls ld tool args (r₁ ∷ r₂ ∷ r₃ ∷ r₄ ∷ r₅ ∷ [])) ≡ kill_args tool
five_same_calls ld tool args r₁ r₂ r₃ r₄ r₅ v =
    let rs : List Text = r₁ ∷ r₂ ∷ r₃ ∷ r₄ ∷ r₅ ∷ [] in
    detect-recents (add_calls ld tool args rs)
    ∙ kill-Leads tool (hash_str args) _
        (add_calls-Leads rs 0 5 ld tool args v tt (omega arith) (omega arith))

quiet-switch :
    (e f : CallEntry) (es : List CallEntry)
    → f.tool_name ≢ e.tool_name
    → verdict_on (e ∷ f ∷ es) ≡ quiet
unfolding verdict_on judge streak count_args count_result
quiet-switch e f es other = ground arith

quiet-from :
    (ld : LoopDetector) (e : CallEntry) (n : ℕ)
    → 0 < n
    → (at ld 0).tool_name ≢ e.tool_name
    → verdict_on (take max_recent_calls (e ∷ from ld n 0)) ≡ quiet
unfolding from
quiet-from ld e zero h other = absurd (omega arith)
quiet-from ld e (suc n) h other = quiet-switch e (at ld 0) _ other

-- A call of another tool than the one recorded before it is never held against the run.
tool_switch_is_quiet :
    (ld : LoopDetector) (tool args result : Text)
    → IsRing ld
    → 0 < ld.count
    → (at ld 0).tool_name ≢ tool
    → detect (add_call ld tool args result) ≡ quiet
unfolding add_call recents
tool_switch_is_quiet ld tool args result v nonempty other =
    detect-recents (push ld (entry_of tool args result))
    ∙ ap verdict_on (recents-push ld (entry_of tool args result) v)
    ∙ quiet-from ld (entry_of tool args result) ld.count nonempty other
