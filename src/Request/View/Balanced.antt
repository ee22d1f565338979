-- ===== src/Request/View/Balanced.antt =====
-- The view of a balanced history.
use gopheragent.Base.{
  ℕ, zero, suc, ◌-◌, ◌≤◌, ◌≡◌, refl, sym, subst, ◌⊎◌, inl, inr, true, false, List, [], ◌∷◌, ◌++◌,
  arith, length, drop, take, Text, Option, none, some, All,
}
use gopheragent.History.{Message, ToolCall, role_system}
use gopheragent.Request.Dangling.{starts_turn}
use gopheragent.Request.Dangling.Paired.{Replied, Paired}
use gopheragent.Request.Window.{leading_system, user_at}
use gopheragent.Request.Window.Rooted.{
  open_ids, Rooted, Balanced, Balanced-systems, leading-systems, Paired-drop, Rooted-drop,
  system_lem,
}
use gopheragent.Request.View.{
  record_at, record_below, latest_compaction, framed, view_from, compacted_view,
}
use gopheragent.Request.View.Tail.{Newest, record_below-Newest}

-- A user message, or the end, stands behind each record.
abbrev pub Segmented : List Message → Type 0
Segmented stored =
    (i : ℕ) → record_at stored i ≡ true → (user_at stored (suc i) ≡ true) ⊎ (length stored ≤ suc i)

framed-systems :
    (stored : List Message) (n rec : ℕ)
    → All (λ (m : Message). m.role ≡ role_system) (take n stored)
    → All (λ (m : Message). m.role ≡ role_system) (framed stored n rec)
framed-systems stored zero rec h = (refl, tt)
framed-systems [] (suc n) rec h = tt
framed-systems (m ∷ ms) (suc n) rec h = h

drop-end : (n : ℕ) (ms : List Message) → length ms ≤ n → drop n ms ≡ []
drop-end zero [] h = refl
drop-end (suc n) [] h = refl
drop-end zero (m ∷ ms) h = absurd (omega arith)
drop-end (suc n) (m ∷ ms) h = drop-end n ms (omega arith)

tail-Balanced :
    (stored : List Message) (rec : ℕ)
    → (user_at stored (suc rec) ≡ true) ⊎ (length stored ≤ suc rec)
    → Balanced stored
    → Balanced (drop (suc rec) stored)
tail-Balanced stored rec (inl hit) h =
    (Paired-drop (suc rec) stored h.0, Rooted-drop (suc rec) [] stored hit h.1)
tail-Balanced stored rec (inr end) h = subst Balanced (sym (drop-end (suc rec) stored end)) (tt, tt)

view_from-Balanced :
    (stored : List Message) (sys : ℕ) (o : Option ℕ)
    → Newest stored sys (length stored - sys) o
    → All (λ (m : Message). m.role ≡ role_system) (take sys stored)
    → Segmented stored
    → Balanced stored
    → Balanced (view_from stored sys o).msgs
view_from-Balanced stored sys none new systems seg h = h
view_from-Balanced stored zero (some rec) new systems seg h =
    Balanced-systems (framed stored zero rec) _ (framed-systems stored zero rec systems)
      (tail-Balanced stored rec (seg rec new.0) h)
view_from-Balanced stored (suc n) (some rec) new systems seg h =
    Balanced-systems (framed stored (suc n) rec) _ (framed-systems stored (suc n) rec systems)
      (tail-Balanced stored rec (seg rec new.0) h)

-- If a user message or the end stands behind each compaction record of a balanced history, then
-- the view that a request has of it is balanced.
pub view-Balanced :
    (stored : List Message)
    → Segmented stored
    → Balanced stored
    → Balanced (compacted_view stored).msgs
unfolding compacted_view latest_compaction
view-Balanced stored seg h =
    let sys = leading_system stored in
    view_from-Balanced stored sys (record_below stored sys (length stored - sys))
      (record_below-Newest stored sys (length stored - sys)) (leading-systems stored) seg h

-- A system message may be put anywhere.
Replied-insert :
    (id : Text) (xs : List Message) (r : Message) (ys : List Message)
    → starts_turn r ≡ false
    → Replied id (xs ++ ys)
    → Replied id (xs ++ r ∷ ys)
Replied-insert id [] r ys quiet h = (quiet, inr h)
Replied-insert id (x ∷ xs) r ys quiet (turn, inl here) = (turn, inl here)
Replied-insert id (x ∷ xs) r ys quiet (turn, inr later) =
    (turn, inr (Replied-insert id xs r ys quiet later))

All-Replied-insert :
    (xs : List Message) (r : Message) (ys : List Message) (calls : List ToolCall)
    → starts_turn r ≡ false
    → All (λ (c : ToolCall). Replied c.id (xs ++ ys)) calls
    → All (λ (c : ToolCall). Replied c.id (xs ++ r ∷ ys)) calls
All-Replied-insert xs r ys [] quiet h = tt
All-Replied-insert xs r ys (c ∷ calls) quiet h =
    (Replied-insert c.id xs r ys quiet h.0, All-Replied-insert xs r ys calls quiet h.1)

module _ (r : Message) (system : r.role ≡ role_system) (quiet : starts_turn r ≡ false)
    (passes : (ids : List Text) → open_ids ids r ≡ ids) where
  Paired-insert : (xs ys : List Message) → Paired (xs ++ ys) → Paired (xs ++ r ∷ ys)
  Paired-insert [] ys h = ((λ a. absurd ((system_lem r system).1.0 a)), h)
  Paired-insert (x ∷ xs) ys h =
      (λ a. All-Replied-insert xs r ys x.tool_calls quiet (h.0 a), Paired-insert xs ys h.1)

  Rooted-insert :
      (xs ys : List Message) (ids : List Text) → Rooted ids (xs ++ ys) → Rooted ids (xs ++ r ∷ ys)
  Rooted-insert [] ys ids h =
      (λ q. absurd ((system_lem r system).0 q), subst (λ o. Rooted o ys) (sym (passes ids)) h)
  Rooted-insert (x ∷ xs) ys ids h = (h.0, Rooted-insert xs ys (open_ids ids x) h.1)

  pub Balanced-insert : (xs ys : List Message) → Balanced (xs ++ ys) → Balanced (xs ++ r ∷ ys)
  Balanced-insert xs ys h = (Paired-insert xs ys h.0, Rooted-insert xs ys [] h.1)
