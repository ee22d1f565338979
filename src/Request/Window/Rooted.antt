-- ===== src/Request/Window/Rooted.antt =====
-- What the window keeps of a balanced transcript.
use gopheragent.Base.{
  ℕ, zero, suc, ◌-◌, ◌≡◌, ◌≢◌, refl, sym, ap, subst, ◌∙◌, ◌⊎◌, inl, inr, Bool, true, ◌||◌, List, [],
  ◌∷◌, ◌++◌, map, arith, if_both, option_both, length, if◌then◌else◌, leb, ◌==◌, Text, take, drop,
  text_discrete, same, same_iff, All,
}
use mathlib.Core.Bool.{true≢false}
use gopheragent.History.{
  Message, ToolCall, has_role, role_tool, role_user, role_assistant, role_system,
}
use gopheragent.Request.Dangling.{has_id}
use gopheragent.Request.Dangling.Paired.{Paired}
use gopheragent.Request.Window.{
  leading_system, is_head, user_at, cut_of, snap_back, history_window_start, apply_history_window,
}
use gopheragent.Request.Window.Start.{snap_back-Snapped}

-- The calls that a tool message may answer behind `m`.
abbrev pub open_ids : List Text → Message → List Text
open_ids ids m =
    if has_role role_assistant m
    then map (λ (c : ToolCall). c.id) m.tool_calls
    else if has_role role_user m
    then []
    else ids

-- Every tool message answers a call of the assistant turn before it.
abbrev pub Rooted : List Text → List Message → Type 0
Rooted ids [] = Unit {0}
Rooted ids (m ∷ ms) =
    (m.role ≡ role_tool → has_id ids m.tool_call_id ≡ true) × Rooted (open_ids ids m) ms

-- A transcript that a provider accepts: every call is answered, and every answer has a call.
abbrev pub Balanced : List Message → Type 0
Balanced ms = Paired ms × Rooted [] ms

pub Paired-drop : (n : ℕ) (ms : List Message) → Paired ms → Paired (drop n ms)
Paired-drop zero ms h = h
Paired-drop (suc n) [] h = h
Paired-drop (suc n) (m ∷ ms) h = Paired-drop n ms h.1

user_lem :
    (m : Message)
    → m.role ≡ role_user
    → (m.role ≢ role_tool) × ((ids : List Text) → open_ids ids m ≡ [])
unfolding text_discrete
user_lem m e = rw e ((λ q. true≢false (sym (ap (λ t. same t role_tool) q))), λ ids. refl)

pub system_lem :
    (m : Message)
    → m.role ≡ role_system
    → (m.role ≢ role_tool) × ((m.role ≢ role_assistant) × (open_ids [] m ≡ []))
unfolding text_discrete
system_lem m e = rw e ((λ q. cc), ((λ q. cc), refl))

is_head-system : (m : Message) → is_head m ≡ true → m.role ≡ role_system
is_head-system m =
    option_both (λ (b : Bool). b ≡ true → m.role ≡ role_system) m.compaction
      (λ _ yes_head. (same_iff m.role role_system).0 yes_head)
      (λ record_of found_one bad. absurd cc)

-- At a user message nothing that came before matters.
pub Rooted-drop :
    (n : ℕ) (ids : List Text) (ms : List Message)
    → user_at ms n ≡ true
    → Rooted ids ms
    → Rooted [] (drop n ms)
Rooted-drop zero ids [] hit h = tt
Rooted-drop zero ids (m ∷ ms) hit h =
    let (no_tool, opens) = user_lem m ((same_iff m.role role_user).0 hit) in
    ((λ q. absurd (no_tool q)), subst (λ o. Rooted o ms) (opens ids ∙ sym (opens [])) h.1)
Rooted-drop (suc n) ids [] hit h = tt
Rooted-drop (suc n) ids (m ∷ ms) hit h = Rooted-drop n (open_ids ids m) ms hit h.1

-- System messages open no call and answer none.
pub Balanced-systems :
    (ms xs : List Message)
    → All (λ (m : Message). m.role ≡ role_system) ms
    → Balanced xs
    → Balanced (ms ++ xs)
Balanced-systems [] xs systems h = h
Balanced-systems (m ∷ ms) xs (system, systems) h =
    let (no_tool, (no_assistant, opens)) = system_lem m system in
    let (paired, rooted) = Balanced-systems ms xs systems h in
    (
      ((λ q. absurd (no_assistant q)), paired),
      ((λ q. absurd (no_tool q)), subst (λ o. Rooted o (ms ++ xs)) (sym opens) rooted),
    )

pub leading-systems :
    (ms : List Message) → All (λ (m : Message). m.role ≡ role_system) (take (leading_system ms) ms)
unfolding leading_system
leading-systems [] = tt
leading-systems (m ∷ ms) =
    if_both (λ (n : ℕ). All (λ (m : Message). m.role ≡ role_system) (take n (m ∷ ms))) (is_head m)
      (λ headed. (is_head-system m headed, leading-systems ms)) (λ _. tt)

apply-Balanced :
    (stored : List Message) (start : ℕ)
    → (start ≡ leading_system stored) ⊎ (user_at stored start ≡ true)
    → Balanced stored
    → Balanced (apply_history_window stored start (leading_system stored))
unfolding apply_history_window
apply-Balanced stored start place h =
    if_both Balanced (start == leading_system stored) (λ _. h)
      (λ apart. elim place [
        | inl e ↦ absurd (ground arith)
        | inr hit ↦
            let tail : Balanced (drop start stored) =
              (Paired-drop start stored h.0, Rooted-drop start [] stored hit h.1) in
            if_both Balanced (leading_system stored == 0) (λ _. tail)
              (λ _.
                Balanced-systems (take (leading_system stored) stored) (drop start stored)
                  (leading-systems stored) tail)
      ])

-- The window of a balanced history is balanced: no call loses its answer and no answer its call,
-- whatever the size of the window.
pub window-Balanced :
    (stored : List Message) (window : ℕ)
    → Balanced stored
    → Balanced (
        apply_history_window stored
          (history_window_start stored window).0
          (history_window_start stored window).1)
unfolding history_window_start
window-Balanced stored window h =
    let sys = leading_system stored in
    let cut = cut_of (length stored) sys window - sys in
    if_both (λ (r : ℕ × ℕ). Balanced (apply_history_window stored r.0 r.1))
      (window == 0 || leb (length stored - sys) window)
      (λ _. apply-Balanced stored sys (inl refl) h)
      (λ _.
        apply-Balanced stored (snap_back stored sys cut)
          (elim (snap_back-Snapped stored sys cut).0 [
            | inl e ↦ inl e
            | inr (low, (high, hit)) ↦ inr hit
          ])
          h)
