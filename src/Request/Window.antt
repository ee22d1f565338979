-- ===== src/Request/Window.antt =====
-- pkg/agent/history_window.go: the part of a conversation that one request carries, with
-- leadingSystem of pkg/agent/compaction.go. A window of 0 stands for every limit that is not
-- positive.
use gopheragent.Base.{
  ℕ, zero, suc, ◌+◌, ◌-◌, ◌*◌, ◌/◌, max, Bool, true, false, ◌&&◌, ◌||◌, List, [], ◌∷◌, ◌++◌, Option,
  none, some, if◌then◌else◌, length, take, drop, get_elem?, leb, ◌==◌,
}
use gopheragent.History.{Message, has_role, role_system, role_user}
pub mod Start
pub mod Rooted
mod Tests

-- A system message that is no compaction record.
abbrev pub is_head : Message → Bool
is_head m = elim m.compaction [ none ↦ has_role role_system m | some _ ↦ false ]

unfoldable pub leading_system : List Message → ℕ
leading_system [] = 0
leading_system (m ∷ ms) = let rest = leading_system ms in if is_head m then suc rest else 0

-- An index out of range, which Go would refuse at run time, holds no user message.
abbrev pub user_at : List Message → ℕ → Bool
user_at stored i = elim (get_elem? stored i) [ none ↦ false | some m ↦ has_role role_user m ]

abbrev pub step_of : ℕ → ℕ
step_of window = max (window / 2) 1

-- Where the steps of half a window put the cut.
unfoldable pub cut_of : ℕ → ℕ → ℕ → ℕ
cut_of size sys window =
    let step = step_of window in
    let excess = size - sys - window in sys + (excess + step - 1) / step * step

-- The loop from the cut down to the system block, at `sys + k`.
unfoldable pub snap_back : List Message → ℕ → ℕ → ℕ
snap_back stored sys zero = sys
snap_back stored sys (suc k) =
    let rest = snap_back stored sys k in if user_at stored (sys + suc k) then sys + suc k else rest

unfoldable pub history_window_start : List Message → ℕ → ℕ × ℕ
unfolding snap_back cut_of
history_window_start stored window =
    let sys = leading_system stored in
    if window == 0 || leb (length stored - sys) window
    then (sys, sys)
    else (snap_back stored sys (cut_of (length stored) sys window - sys), sys)

unfoldable pub apply_history_window : List Message → ℕ → ℕ → List Message
apply_history_window stored start sys =
    if start == sys
    then stored
    else if sys == 0
    then drop start stored
    else take sys stored ++ drop start stored
