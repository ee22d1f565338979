-- ===== src/AntiLoop/Tests.antt =====
-- The detector at concrete calls, those of anti_loop_test.go among them.
use gopheragent.Base.{◌≡◌, refl, List, [], ◌∷◌, Text, codes, text_discrete, take}
use mathlib.Core.List.{reverse}
use gopheragent.AntiLoop.{
  CallEntry, LoopDetector, new_loop_detector, push, add_call, detect, warn_args, kill_args,
  hash_str, entry_of, max_recent_calls,
}
use gopheragent.AntiLoop.Ring.{
  IsRing, new_loop_detector-IsRing, push-IsRing, recents, push_all, recents-new,
}
use gopheragent.AntiLoop.Streak.{add_calls, five_same_calls}
use gopheragent.AntiLoop.Verdicts.{Warranted, detect-Warranted}

abbrev sql : Text
sql = codes "call_sql_agent"

abbrev texts : List Text
texts = codes "1" ∷ codes "2" ∷ codes "3" ∷ []

warns_at_three : detect (add_calls new_loop_detector sql (codes "{}") texts) ≡ warn_args sql 3
unfolding detect add_calls add_call new_loop_detector hash_str text_discrete
warns_at_three = refl

-- Arguments A, B, A, B, A: warned of as three calls "consecutively".
alternating : LoopDetector
alternating =
    add_call
      (add_call
        (add_call
          (add_call (add_call new_loop_detector sql (codes "A") (codes "1")) sql (codes "B")
            (codes "2"))
          sql (codes "A") (codes "3"))
        sql (codes "B") (codes "4"))
      sql (codes "A") (codes "5")

warns_alternating : detect alternating ≡ warn_args sql 3
unfolding alternating detect add_call new_loop_detector hash_str text_discrete
warns_alternating = refl

-- The hash of the empty text is the offset basis.
hash_empty : hash_str [] ≡ 14_695_981_039_346_656_037
unfolding hash_str
hash_empty = refl

hash_a : hash_str (codes "a") ≡ 0xaf63dc4c8601ec8c
unfolding hash_str
hash_a = refl

abbrev first_call : LoopDetector
first_call = push new_loop_detector (entry_of (codes "tool_a") (codes "{}") (codes "r"))

first_call-IsRing : IsRing first_call
first_call-IsRing = push-IsRing new_loop_detector _ new_loop_detector-IsRing

abbrev three_calls : List CallEntry
three_calls =
    entry_of sql (codes "{}") (codes "1")
    ∷ entry_of sql (codes "{}") (codes "2")
    ∷ entry_of sql (codes "{}") (codes "3")
    ∷ []

detect-Warranted_example :
    Warranted (take 30 (reverse three_calls)) (detect (push_all new_loop_detector three_calls))
detect-Warranted_example = detect-Warranted three_calls

recents-new_example :
    recents (push_all new_loop_detector (entry_of sql [] [] ∷ []))
    ≡ take max_recent_calls (reverse (entry_of sql [] [] ∷ []))
recents-new_example = recents-new (entry_of sql [] [] ∷ [])

five_same_calls_example :
    detect (
      add_calls first_call sql
        (codes "{}")
        (codes "1" ∷ codes "2" ∷ codes "3" ∷ codes "4" ∷ codes "5" ∷ []))
    ≡ kill_args sql
five_same_calls_example =
    five_same_calls first_call sql (codes "{}") (codes "1") (codes "2") (codes "3") (codes "4")
      (codes "5") first_call-IsRing
