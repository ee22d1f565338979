-- ===== src/Request/Window/Tests.antt =====
-- A window of two messages over a history of four, behind a system prompt.
use gopheragent.Base.{
  ◌≡◌, refl, ap, Text, same, ◌<◌, ◌≤◌, ◌+◌, ◌-◌, List, [], ◌∷◌, codes, text_discrete, length, arith,
}
use gopheragent.History.{Message, plain_message, role_system, role_user, role_assistant, role_tool}
use gopheragent.Request.Window.{
  leading_system, cut_of, step_of, history_window_start, apply_history_window,
}
use gopheragent.Request.Window.Start.{Snapped, history_window_start_lem}
use gopheragent.Request.Window.Rooted.{Balanced, window-Balanced}

abbrev system : Message
system = plain_message role_system (codes "s")

abbrev ask : Message
ask = plain_message role_user (codes "q")

abbrev reply : Message
reply = plain_message role_assistant (codes "a")

abbrev stored : List Message
stored = system ∷ ask ∷ reply ∷ ask ∷ reply ∷ []

starts_at_three : history_window_start stored 2 ≡ (3, 1)
unfolding history_window_start leading_system text_discrete
starts_at_three = refl

keeps_the_last_turn : apply_history_window stored 3 1 ≡ system ∷ ask ∷ reply ∷ []
unfolding apply_history_window
keeps_the_last_turn = refl

one_system : leading_system stored ≡ 1
unfolding leading_system text_discrete
one_system = refl

history_window_start_example :
    Snapped stored
      (leading_system stored)
      (cut_of (length stored) (leading_system stored) 2 - leading_system stored)
      (history_window_start stored 2).0
    × ((cut_of (length stored) (leading_system stored) 2 < length stored)
        × ((length stored ≤ cut_of (length stored) (leading_system stored) 2 + 2)
            × (2 < length stored - cut_of (length stored) (leading_system stored) 2 + step_of 2)))
history_window_start_example =
    history_window_start_lem stored 2 (omega arith) (omega (arith, one_system))

stored-Balanced : Balanced stored
unfolding text_discrete
stored-Balanced =
    let no_tool = λ (t : Text) (q : t ≡ role_tool). ap (λ u. same u role_tool) q in
    (
      ((λ q. tt), ((λ q. tt), ((λ q. tt), ((λ q. tt), ((λ q. tt), tt))))),
      (
        no_tool role_system,
        (
          no_tool role_user,
          (no_tool role_assistant, (no_tool role_user, (no_tool role_assistant, tt))),
        ),
      ),
    )

window-Balanced_example : Balanced (
    apply_history_window stored (history_window_start stored 2).0 (history_window_start stored 2).1)
window-Balanced_example = window-Balanced stored 2 stored-Balanced
