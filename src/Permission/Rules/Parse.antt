-- ===== src/Permission/Rules/Parse.antt =====
-- The rule syntax: what is parsed back from a printed rule, and what every parsed rule is like.
use gopheragent.Base.{ℕ, ◌≢◌, [], ◌∷◌, ◌++◌, Text, IsGraphic}

-- "ToolName" and "ToolName(glob)".
abbrev pub print_bare : Text → Text
print_bare name = name

abbrev pub print_glob : Text → Text → Text
print_glob name glob = name ++ b'(' ∷ (glob ++ b')' ∷ [])

-- A tool name of printable ASCII without a blank or an opening parenthesis, and not empty.
abbrev pub IsNameByte : ℕ → Type 0
IsNameByte c = IsGraphic c × (c ≢ b'(')
