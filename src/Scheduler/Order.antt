-- ===== src/Scheduler/Order.antt =====
-- The calls of a schedule, and the order of their waves.
use mathlib.Core.List.{Perm, flatten}
use mathlib.Core.List.Perm
use gopheragent.Base.{
  ℕ, zero, suc, ◌≡◌, refl, inl, inr, List, [], ◌∷◌, map, arith, All, Text, length, subst, Result,
  ok, Result-cases,
}
use gopheragent.Scheduler.{
  PendingToolCall, Node, ScheduleError, calls_of, wave_of, waiting, release, next_round, Waves,
  layers, index_calls, build_nodes, schedule_tool_calls,
}
use gopheragent.Scheduler.Counts.{mark_all}
use gopheragent.Scheduler.Nodes.{build_nodes-Inv, calls_of-build_nodes}
use gopheragent.Scheduler.Layers.{Inv, Refers, left_after, left_after-Inv, wave-Refers, wave-perm}

-- Each reference of a call names a call of `done` or of an earlier wave.
abbrev pub Ordered : List Text → Waves → Type 0
Ordered done [] = Unit {0}
Ordered done (wave ∷ waves) = All (Refers done) wave × Ordered (mark_all wave done) waves

abbrev Sound : List Text → List Node → Waves → Type 0
Sound done pending waves = Ordered done waves × Perm (flatten waves) (calls_of pending)

Sound-round :
    (done : List Text) (pending : List Node) (wave : List PendingToolCall) (rest : Waves)
    → Inv done pending
    → wave_of pending ≡ wave
    → Sound (mark_all (wave_of pending) done) (left_after pending) rest
    → Sound done pending (wave ∷ rest)
unfolding flatten
Sound-round done pending wave rest v e s = (
  (
    subst (All (Refers done)) e (wave-Refers done pending v.tallied v.recorded),
    subst (λ w. Ordered (mark_all w done) rest) e s.0,
  ),
  rw (← e) (Perm.trans (Perm.append Perm.rfl s.1) (wave-perm pending)),
)

next_round-Sound :
    (continue : List Node → Result ScheduleError Waves) (done : List Text) (pending : List Node)
    (wave : List PendingToolCall) (waves : Waves)
    → Inv done pending
    → wave_of pending ≡ wave
    → ((done' : List Text) (left : List Node) (rest : Waves)
        → Inv done' left
        → continue left ≡ ok rest
        → Sound done' left rest)
    → next_round continue pending wave ≡ ok waves
    → Sound done pending waves
unfolding next_round
next_round-Sound continue done pending [] waves v e sound h = cc
next_round-Sound continue done pending (c ∷ wave) waves v e sound h =
    let left = map (release (c ∷ wave)) (waiting pending) in
    elim (Result-cases (continue left)) [
      | inl (bad, q) ↦ cc
      | inr (rest, q) ↦
          let w : (c ∷ wave) ∷ rest ≡ waves = ground arith in
          subst (Sound done pending) w (
            Sound-round done pending (c ∷ wave) rest v e (
              sound (mark_all (wave_of pending) done) (left_after pending) rest
                (left_after-Inv done pending v) (rw e q)))
    ]

layers-Sound :
    (f : ℕ) (done : List Text) (pending : List Node) (waves : Waves)
    → Inv done pending
    → layers f pending ≡ ok waves
    → Sound done pending waves
unfolding layers flatten
layers-Sound zero done [] [] v h = (tt, Perm.nil)
layers-Sound zero done [] (w ∷ waves) v h = cc
layers-Sound (suc f) done [] [] v h = (tt, Perm.nil)
layers-Sound (suc f) done [] (w ∷ waves) v h = cc
layers-Sound zero done (n ∷ ns) waves v h = cc
layers-Sound (suc f) done (n ∷ ns) waves v h =
    next_round-Sound (layers f) done (n ∷ ns) (wave_of (n ∷ ns)) waves v refl (layers-Sound f) h

-- A schedule that is returned has every call of the batch exactly once, and each reference of a
-- call names a call of an earlier wave.
pub schedule-Ordered :
    (calls : List PendingToolCall) (waves : Waves)
    → schedule_tool_calls calls ≡ ok waves
    → Ordered [] waves × Perm (flatten waves) calls
unfolding schedule_tool_calls
schedule-Ordered calls waves h = elim (Result-cases (index_calls [] calls)) [
  | inl (bad, e) ↦ cc
  | inr (known, e) ↦ elim (Result-cases (build_nodes known calls)) [
    | inl (bad, q) ↦ cc
    | inr (nodes, q) ↦
        let (sound, perm) =
          layers-Sound (length calls) [] nodes waves (build_nodes-Inv calls known nodes e q)
            (rw (← h, e, q)) in
        (sound, rw (← calls_of-build_nodes calls known nodes q) perm)
  ]
]
