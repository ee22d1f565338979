-- ===== src/Scheduler/Refs.antt =====
-- pkg/agent/scheduler.go, refPattern and parseRefs: the tokens <output_of:ID> and
-- <output_of:ID.path>, with a quote on either side taken along. The character classes of the
-- pattern leave no choice to a matcher: an ID ends at the first byte that is not in its class.
use gopheragent.Base.{
  ℕ, zero, suc, ◌-◌, Bool, ◌||◌, ◌&&◌, List, [], ◌∷◌, Option, none, some, leb, ◌==◌, if◌then◌else◌,
  Text, codes, length,
}

pub record OutputRef : Type 0 where
  pub ref_id : Text
  pub path : Text

-- [A-Za-z0-9_\-]
abbrev pub is_id_byte : ℕ → Bool
is_id_byte c =
    (leb b'A' c && leb c b'Z')
    || (leb b'a' c && leb c b'z')
    || (leb b'0' c && leb c b'9')
    || c == b'_'
    || c == b'-'

-- [A-Za-z0-9_.\-]
abbrev pub is_path_byte : ℕ → Bool
is_path_byte c = is_id_byte c || c == b'.'

-- The longest run of bytes of a class, and what follows.
unfoldable pub run_of : (ℕ → Bool) → Text → Text × Text
run_of p [] = ([], [])
run_of p (c ∷ s) = let (t, rest) = run_of p s in if p c then (c ∷ t, rest) else ([], c ∷ s)

-- What follows a given prefix.
unfoldable pub after_prefix : Text → Text → Option Text
after_prefix [] s = some s
after_prefix (a ∷ p) [] = none
after_prefix (a ∷ p) (c ∷ s) = if a == c then after_prefix p s else none

abbrev quote_byte : ℕ
quote_byte = 34

abbrev pub skip_quote : Text → Text
skip_quote [] = []
skip_quote (c ∷ s) = if c == quote_byte then s else c ∷ s

abbrev closing : OutputRef → Text → Option (OutputRef × Text)
closing r [] = none
closing r (c ∷ s) = if c == b'>' then some (r, skip_quote s) else none

-- A nonempty path behind the dot.
abbrev with_path : Text → Text × Text → Option (OutputRef × Text)
with_path id ([], rest) = none
with_path id (c ∷ path, rest) = closing (record { ref_id = id; path = c ∷ path }) rest

abbrev behind_id : Text → Text → Option (OutputRef × Text)
behind_id id [] = none
behind_id id (c ∷ s) =
    if c == b'.'
    then with_path id (run_of is_path_byte s)
    else closing (record { ref_id = id; path = [] }) (c ∷ s)

-- A nonempty ID.
abbrev with_id : Text × Text → Option (OutputRef × Text)
with_id ([], rest) = none
with_id (c ∷ id, rest) = behind_id (c ∷ id) rest

abbrev at_token : Option Text → Option (OutputRef × Text)
at_token none = none
at_token (some s) = with_id (run_of is_id_byte s)

-- A match of the pattern that begins here, and what follows it.
unfoldable pub match_ref : Text → Option (OutputRef × Text)
unfolding run_of after_prefix
match_ref s = at_token (after_prefix (codes "<output_of:") (skip_quote s))

-- FindAll: from the left, without overlaps. `k` bytes belong to the last match.
unfoldable pub refs_from : ℕ → Text → List OutputRef
refs_from k [] = []
refs_from (suc k) (c ∷ s) = refs_from k s
refs_from zero (c ∷ s) = elim (match_ref (c ∷ s)) [
  | none ↦ refs_from zero s
  | some (r, rest) ↦ r ∷ refs_from (length s - length rest) s
]

unfoldable pub parse_refs : Text → List OutputRef
unfolding refs_from match_ref
parse_refs = refs_from zero
