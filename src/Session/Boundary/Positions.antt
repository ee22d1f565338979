-- ===== src/Session/Boundary/Positions.antt =====
-- Replies by their places, and what a prefix keeps of them.
use gopheragent.Base.{
  In, ℕ, zero, suc, ◌+◌, ◌<◌, ◌≤◌, ◌≡◌, refl, sym, ap, subst, ◌∙◌, inl, inr, Bool, true, false, not,
  List, [], ◌∷◌, map, none, some, arith, if_both, Bool-cases, filter_by, take, drop, get_elem?, All,
  Text, same, same_iff,
}
use mathlib.Core.Bool.{true≢false}
use gopheragent.History.{Message, ToolCall, has_role, role_tool, role_assistant}
use gopheragent.Request.Dangling.{starts_turn}
use gopheragent.Request.Dangling.Paired.{Replies, Replied, Paired}
use gopheragent.Session.Boundary.{still_required}

abbrev pub turn_at : List Message → ℕ → Bool
turn_at ms i = elim (get_elem? ms i) [ none ↦ false | some m ↦ starts_turn m ]

pub none-some : {m : Message} → none ≡ some m → ⊥
none-some q = true≢false (sym (ap (λ o. elim o [ none ↦ false | some _ ↦ true ]) q))

-- The reply to `id` stands at `k`, and no turn starts up to there.
abbrev pub RepliedAt : Text → List Message → ℕ → Type 0
RepliedAt id ms k =
    (m : Message) × ((get_elem? ms k ≡ some m)
      × (Replies id m × ((p : ℕ) → p ≤ k → turn_at ms p ≡ false)))

pub Replied-At : (id : Text) (ms : List Message) → Replied id ms → (k : ℕ) × RepliedAt id ms k
Replied-At id [] h = absurd h
Replied-At id (m ∷ ms) (quiet, inl here) = (zero, (m, (refl, (here, first))))
  where
    first : (p : ℕ) → p ≤ 0 → turn_at (m ∷ ms) p ≡ false
    first zero h = quiet
    first (suc p) h = absurd (omega arith)
Replied-At id (m ∷ ms) (quiet, inr later) =
    let (k, (r, (at, (replies, free)))) = Replied-At id ms later in
    (suc k, (r, (at, (replies, shifted k free))))
  where
    shifted :
        (k : ℕ)
        → ((p : ℕ) → p ≤ k → turn_at ms p ≡ false)
        → (p : ℕ) → p ≤ suc k
        → turn_at (m ∷ ms) p ≡ false
    shifted k free zero h = quiet
    shifted k free (suc p) h = free p (omega arith)

pub At-Replied :
    (id : Text) (ms : List Message) (k n : ℕ) → k < n → RepliedAt id ms k → Replied id (take n ms)
At-Replied id ms k zero h at = absurd (omega arith)
At-Replied id [] k (suc n) h (m, (at, rest)) = absurd (none-some at)
At-Replied id (x ∷ ms) zero (suc n) h (m, (at, (replies, free))) =
    (free zero (omega arith), inl (subst (Replies id) (sym (some-inj at)) replies))
  where
    some-inj : some x ≡ some m → x ≡ m
    some-inj q = ap (λ o. elim o [ none ↦ m | some y ↦ y ]) q
At-Replied id (x ∷ ms) (suc k) (suc n) h (m, (at, (replies, free))) = (
  free zero (omega arith),
  inr (At-Replied id ms k n (omega arith) (m, (at, (replies, λ p q. free (suc p) (omega arith))))),
)

-- A prefix is paired when each call in it that the history replies to is replied to in the prefix.
pub Paired-take :
    (r : ℕ) (ms : List Message)
    → Paired ms
    → ((i n : ℕ) (m : Message)
        → i + suc n ≡ r
        → get_elem? ms i ≡ some m
        → m.role ≡ role_assistant
        → All (λ (c : ToolCall). Replied c.id (drop (suc i) ms)) m.tool_calls
        → All (λ (c : ToolCall). Replied c.id (take n (drop (suc i) ms))) m.tool_calls)
    → Paired (take r ms)
Paired-take zero ms h keeps = tt
Paired-take (suc r) [] h keeps = tt
Paired-take (suc r) (x ∷ ms) h keeps = (
  λ a. keeps zero r x (omega arith) refl a (h.0 a),
  Paired-take r ms h.1 (λ i n m e at a all. keeps (suc i) n m (omega arith) at a all),
)

pub In-ids :
    (c : ToolCall) (cs : List ToolCall) → In c cs → In c.id (map (λ (d : ToolCall). d.id) cs)
In-ids c [] h = absurd h
In-ids c (d ∷ cs) (inl e) = inl (ap (λ (x : ToolCall). x.id) e)
In-ids c (d ∷ cs) (inr later) = inr (In-ids c cs later)

In-filter :
    (p : Text → Bool) (id : Text) (ids : List Text)
    → p id ≡ true
    → In id ids
    → In id (filter_by p ids)
In-filter p id [] hit h = absurd h
In-filter p id (x ∷ ids) hit (inl e) =
    if_both (In id) (p x) (λ _. inl e) (λ miss. absurd (true≢false (sym hit ∙ ap p (sym e) ∙ miss)))
In-filter p id (x ∷ ids) hit (inr later) =
    let rest = In-filter p id ids hit later in if_both (In id) (p x) (λ _. inr rest) (λ _. rest)

-- A tool message at `k` names `id`.
abbrev pub Answered : Text → List Message → ℕ → Type 0
Answered id ms k =
    (m : Message) × ((get_elem? ms k ≡ some m)
      × ((has_role role_tool m ≡ true) × (m.tool_call_id ≡ id)))

-- What is no more required has been answered.
pub still_required-Answered :
    (required : List Text) (ms : List Message) (id : Text)
    → still_required required ms ≡ []
    → In id required
    → (k : ℕ) × Answered id ms k
still_required-Answered required [] id h i = absurd (subst (In id) h i)
still_required-Answered required (m ∷ ms) id h i =
    if_both (λ rest. rest ≡ [] → In id required → (k : ℕ) × Answered id (m ∷ ms) k)
      (has_role role_tool m)
      (λ tool h i. elim (Bool-cases (same m.tool_call_id id)) [
        | inl hit ↦ (zero, (m, (refl, (tool, (same_iff m.tool_call_id id).0 hit))))
        | inr miss ↦ later (
            still_required-Answered (filter_by (λ (x : Text). not (same m.tool_call_id x)) required)
              ms id h
              (In-filter (λ (x : Text). not (same m.tool_call_id x)) id required (ap not miss) i))
      ])
      (λ _ h i. later (still_required-Answered required ms id h i)) h i
  where
    later : (k : ℕ) × Answered id ms k → (k : ℕ) × Answered id (m ∷ ms) k
    later (k, at) = (suc k, at)

pub drop-take :
    (a n : ℕ) (ms : List Message) (b : ℕ) → b ≡ a + n → drop a (take b ms) ≡ take n (drop a ms)
drop-take zero n ms b e = ap (λ j. take j ms) {x = b} {y = n} (omega arith)
drop-take (suc a) n ms zero e = absurd (omega arith)
drop-take (suc a) zero [] (suc b) e = refl
drop-take (suc a) (suc n) [] (suc b) e = refl
drop-take (suc a) n (x ∷ ms) (suc b) e = drop-take a n ms b (omega arith)

-- What is found in a prefix stands there in the whole.
pub get-take :
    (n k : ℕ) (ms : List Message) (m : Message)
    → get_elem? (take n ms) k ≡ some m
    → (k < n) × (get_elem? ms k ≡ some m)
get-take zero k ms m h = absurd (none-some h)
get-take (suc n) k [] m h = absurd (none-some h)
get-take (suc n) zero (x ∷ ms) m h = (omega arith, h)
get-take (suc n) (suc k) (x ∷ ms) m h = let (low, at) = get-take n k ms m h in (omega arith, at)

pub get-drop : (a k : ℕ) (ms : List Message) → get_elem? (drop a ms) k ≡ get_elem? ms (a + k)
get-drop zero k ms = ap (get_elem? ms) {x = k} {y = 0 + k} (omega arith)
get-drop (suc a) k [] = refl
get-drop (suc a) k (x ∷ ms) =
    get-drop a k ms ∙ ap (get_elem? (x ∷ ms)) {x = suc (a + k)} (omega arith)
