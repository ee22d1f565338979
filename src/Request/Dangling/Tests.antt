-- ===== src/Request/Dangling/Tests.antt =====
-- Dangling calls at concrete transcripts.
use gopheragent.Base.{◌≡◌, refl, ◌↔◌, true, false, List, [], ◌∷◌, arith, Text, codes, text_discrete}
use gopheragent.History.{Message, ToolCall, plain_message, role_user, role_assistant, role_tool}
use gopheragent.Request.Dangling.{
  has_dangling_tool_calls, patch_dangling_tool_calls, cancelled, block, responded, synthetic,
}
use gopheragent.Request.Dangling.Paired.{Paired, has_dangling_iff}
use gopheragent.Request.Dangling.Patched.{CallsNamed, patch-Paired, Extends, patch-Extends}

abbrev call : Text → ToolCall
call id = record { id = id; name = codes "search"; arguments = codes "{}" }

abbrev asks : List ToolCall → Message
asks cs = record (plain_message role_assistant []) { tool_calls = cs }

abbrev reply : Text → Message
reply id = record (plain_message role_tool (codes "ok")) { tool_call_id = id }

-- Two calls, one reply, and the next question.
abbrev interrupted : List Message
interrupted =
    plain_message role_user (codes "q")
    ∷ asks (call (codes "a") ∷ call (codes "b") ∷ [])
    ∷ reply (codes "b")
    ∷ plain_message role_user (codes "r")
    ∷ []

finds_the_gap : has_dangling_tool_calls interrupted ≡ true
unfolding has_dangling_tool_calls block responded text_discrete
finds_the_gap = refl

fills_the_gap :
    patch_dangling_tool_calls interrupted
    ≡ plain_message role_user (codes "q")
      ∷ asks (call (codes "a") ∷ call (codes "b") ∷ [])
      ∷ reply (codes "b")
      ∷ cancelled (call (codes "a"))
      ∷ plain_message role_user (codes "r")
      ∷ []
unfolding patch_dangling_tool_calls block responded synthetic text_discrete
fills_the_gap = refl

has_dangling_iff_example : (has_dangling_tool_calls interrupted ≡ false) ↔ Paired interrupted
has_dangling_iff_example = has_dangling_iff interrupted

interrupted-CallsNamed : CallsNamed interrupted
interrupted-CallsNamed = ground arith

patch-Paired_example : Paired (patch_dangling_tool_calls interrupted)
patch-Paired_example = patch-Paired interrupted interrupted-CallsNamed

patch-Extends_example : Extends interrupted (patch_dangling_tool_calls interrupted)
patch-Extends_example = patch-Extends interrupted
