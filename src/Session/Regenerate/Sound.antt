-- ===== src/Session/Regenerate/Sound.antt =====
-- What Regenerate and Continue leave in the session store.
use gopheragent.Base.{
  Option-cases, ◌⊎◌, inl, inr, ℕ, zero, suc, subst, [], ◌∷◌, ◌≡◌, ◌≤◌, refl, sym, ap, true, List,
  Option, none, some, Text, Result, ok, err, arith, length, take, get_elem?, get_or,
}
use mathlib.Core.Bool.{true≢false}
use gopheragent.History.{Message, plain_message, role_user}
use gopheragent.Request.Dangling.{patch_dangling_tool_calls}
use gopheragent.Request.Dangling.Paired.{Paired}
use gopheragent.Request.Dangling.Patched.{CallsNamed, patch-Paired}
use gopheragent.Session.Boundary.{snap_to_safe_boundary}
use gopheragent.Session.Boundary.Scan.{Settled}
use gopheragent.Session.Boundary.Safe.{snap_to_safe_boundary-Paired}
use gopheragent.Session.Regenerate.{
  Sessions, Regeneration, RegenerateError, nothing_to_regenerate, regenerate, regenerate_loaded,
  regenerate_from, continue_loaded, last_user_index, ContinueError, save_history_failed,
  continue_logic_loop,
}
use gopheragent.Session.Regenerate.Last.{role_at, LastAt, Missing, Found, last_index-Found}

get_or-user :
    (ms : List Message) (i : ℕ) (d : Message)
    → role_at role_user ms i ≡ true
    → get_elem? ms i ≡ some (get_or ms i d)
get_or-user [] i d h = absurd (true≢false (sym h))
get_or-user (x ∷ ms) zero d h = refl
get_or-user (x ∷ ms) (suc i) d h = get_or-user ms i d h

-- A save that reports no error is what the store loads next. History shows a log through `view`: the
-- in-memory store puts the prompt of now in it.
abbrev pub Keeps : {S : Type 0} → Sessions S → Text → S → (List Message → List Message) → Type 0
Keeps s key st view =
    (msgs : List Message)
    → (s.save key msgs st).0 ≡ none
    → (s.load key (s.save key msgs st).1).0 ≡ ok (view msgs)

-- The one write of Regenerate is a save of `prefix`: it reported an error, or the store loads the
-- prefix from now on.
abbrev pub Persists :
    {S : Type 0} → Sessions S → Text → List Message → S → (List Message → List Message) → S → Type 0
Persists s key prefix st view st' =
    (st' ≡ (s.save key prefix st).1)
    × (((e : Text) × ((s.save key prefix st).0 ≡ some e)) ⊎ ((s.load key st').0 ≡ ok (view prefix)))

-- The outcomes of Regenerate on a history.
abbrev pub Regenerated :
    {S : Type 0}
    → Sessions S
    → Text
    → List Message
    → S
    → (List Message → List Message)
    → Result RegenerateError Regeneration × S
    → Type 0
Regenerated s key existing st view (err e, st') =
    (e ≡ nothing_to_regenerate) × ((st' ≡ st) × Missing role_user existing (length existing))
Regenerated s key existing st view (ok r, st') =
    (i : ℕ) × (LastAt role_user existing (length existing) i
      × ((get_elem? existing i ≡ some r.user_msg)
          × ((r.truncated_at ≤ i)
              × (Paired (take r.truncated_at existing)
                  × Persists s key (take r.truncated_at existing) st view st'))))

save-Persists :
    {S : Type 0} (s : Sessions S) (key : Text) (prefix : List Message) (st : S)
    (view : List Message → List Message)
    → Keeps s key st view
    → Persists s key prefix st view (s.save key prefix st).1
save-Persists s key prefix st view keeps = elim (Option-cases (s.save key prefix st).0) [
  | inl quiet ↦ (refl, inr (keeps prefix quiet))
  | inr failed ↦ (refl, inl failed)
]

regenerate_from-Regenerated :
    {S : Type 0} (s : Sessions S) (key : Text) (existing : List Message) (i : ℕ) (st : S)
    (view : List Message → List Message)
    → Keeps s key st view
    → Settled existing
    → Paired existing
    → LastAt role_user existing (length existing) i
    → Regenerated s key existing st view (regenerate_from s key existing i st)
regenerate_from-Regenerated s key existing i st view keeps settled paired (here, last) =
    let cut = snap_to_safe_boundary-Paired existing i settled paired in
    let low : snap_to_safe_boundary existing i ≤ i = omega (arith, cut.0) in
    let kept =
      save-Persists s key (take (snap_to_safe_boundary existing i) existing) st view keeps in
    (i, ((here, last), (get_or-user existing i (plain_message [] []) here, (low, (cut.1.0, kept)))))

-- Let a store load a history in which every call is replied to before the next turn, and no tool
-- message stands right behind a message that is neither a turn nor a tool message; and let a log
-- that it then saves without an error be the one that it loads next, as `view` shows it. Then `Regenerate` either says
-- that there is nothing to regenerate, leaves the store alone, and the history has no user message;
-- or it answers with the last user message, to be run again, and writes once, to save a prefix of
-- the history that ends before this message and has no call without a reply. This save reported an
-- error, which does not change the answer, or the store loads the prefix next.
pub regenerate-Regenerated :
    {S : Type 0} (s : Sessions S) (key : Text) (st loaded : S) (existing : List Message)
    (view : List Message → List Message)
    → s.load key st ≡ (ok existing, loaded)
    → Keeps s key loaded view
    → Settled existing
    → Paired existing
    → Regenerated s key existing loaded view (regenerate s key st)
unfolding regenerate regenerate_loaded last_user_index
regenerate-Regenerated s key st loaded existing view load keeps settled paired =
    subst (Regenerated s key existing loaded view) (sym (ap (regenerate_loaded s key) load))
      (by_index (last_user_index existing) (last_index-Found role_user existing (length existing)))
  where
    by_index :
        (o : Option ℕ)
        → Found role_user existing (length existing) o
        → Regenerated s key existing loaded view (elim o [
          | none ↦ (err nothing_to_regenerate, loaded)
          | some i ↦ regenerate_from s key existing i loaded
        ])
    by_index none missing = (refl, (refl, missing))
    by_index (some i) last =
        regenerate_from-Regenerated s key existing i loaded view keeps settled paired last

-- What continueLogicLoop answers on a history: the saved, patched messages with no open call, or
-- the error of the save, as the store reports.
abbrev pub Answer : List Message → Option Text → Result ContinueError (List Message) → Type 0
Answer msgs saved (ok ms) = (saved ≡ none) × ((ms ≡ patch_dangling_tool_calls msgs) × Paired ms)
Answer msgs saved (err e) = (t : Text) × ((saved ≡ some t) × (e ≡ save_history_failed t))

abbrev pub Sealed :
    {S : Type 0}
    → Sessions S
    → Text
    → List Message
    → S
    → Result ContinueError (List Message) × S
    → Type 0
Sealed s key msgs st (r, st') =
    Answer msgs (s.save key (patch_dangling_tool_calls msgs) st).0 r
    × (st' ≡ (s.save key (patch_dangling_tool_calls msgs) st).1)

-- Whatever the store, if it loads a history whose calls all have an ID, then `continueLogicLoop`
-- saves the patched history, and runs on it exactly if the save reports no error; then every call
-- of it is replied to before the next turn.
pub continue_logic_loop-Sealed :
    {S : Type 0} (s : Sessions S) (key : Text) (st loaded : S) (msgs : List Message)
    → s.load key st ≡ (ok msgs, loaded)
    → CallsNamed msgs
    → Sealed s key msgs loaded (continue_logic_loop s key st)
unfolding continue_logic_loop continue_loaded
continue_logic_loop-Sealed s key st loaded msgs load named =
    subst (Sealed s key msgs loaded) (sym (ap (continue_loaded s key) load))
      (by_save (s.save key (patch_dangling_tool_calls msgs) loaded).0, refl)
  where
    by_save :
        (o : Option Text)
        → Answer msgs o (elim o [
          | some e ↦ err (save_history_failed e)
          | none ↦ ok (patch_dangling_tool_calls msgs)
        ])
    by_save none = (refl, (refl, patch-Paired msgs named))
    by_save (some t) = (t, (refl, refl))
