-- ===== src/Request/Prune/Frames.antt =====
-- What the passes keep: everything of a message but its content.
use gopheragent.Base.{
  ℕ, zero, suc, ◌+◌, ◌-◌, ◌≤◌, ◌≡◌, refl, ap, ◌∙◌, inl, inr, ◌&&◌, List, [], ◌∷◌, map, arith,
  if_both, length, drop, ltb, Text, rune_count, All,
}
use gopheragent.History.{Message, ToolCall, has_role, role_tool}
use gopheragent.Request.Dangling.Paired.{Replied, Paired}
use gopheragent.Request.Window.Rooted.{open_ids, Rooted, Balanced}
use gopheragent.Request.Prune.{
  ContextRef, is_prunable, prune_message, truncate_message, pass, prune_context_messages,
  truncate_tool_arguments,
}

-- The same messages with other contents, one by one.
abbrev pub recontent : List Text → List Message → List Message
recontent [] ms = ms
recontent (c ∷ cs) [] = []
recontent (c ∷ cs) (m ∷ ms) = record m { content = c } ∷ recontent cs ms

Replied-recontent :
    (id : Text) (cs : List Text) (ms : List Message) → Replied id ms → Replied id (recontent cs ms)
Replied-recontent id [] ms h = h
Replied-recontent id (c ∷ cs) [] h = h
Replied-recontent id (c ∷ cs) (m ∷ ms) (turn, inl here) = (turn, inl here)
Replied-recontent id (c ∷ cs) (m ∷ ms) (turn, inr later) =
    (turn, inr (Replied-recontent id cs ms later))

All-Replied :
    (cs : List Text) (ms : List Message) (calls : List ToolCall)
    → All (λ (c : ToolCall). Replied c.id ms) calls
    → All (λ (c : ToolCall). Replied c.id (recontent cs ms)) calls
All-Replied cs ms [] h = tt
All-Replied cs ms (c ∷ calls) h = (Replied-recontent c.id cs ms h.0, All-Replied cs ms calls h.1)

Paired-recontent : (cs : List Text) (ms : List Message) → Paired ms → Paired (recontent cs ms)
Paired-recontent [] ms h = h
Paired-recontent (c ∷ cs) [] h = h
Paired-recontent (c ∷ cs) (m ∷ ms) h =
    (λ a. All-Replied cs ms m.tool_calls (h.0 a), Paired-recontent cs ms h.1)

Rooted-recontent :
    (cs : List Text) (ms : List Message) (ids : List Text)
    → Rooted ids ms
    → Rooted ids (recontent cs ms)
Rooted-recontent [] ms ids h = h
Rooted-recontent (c ∷ cs) [] ids h = h
Rooted-recontent (c ∷ cs) (m ∷ ms) ids h = (h.0, Rooted-recontent cs ms (open_ids ids m) h.1)

pub Balanced-recontent :
    (cs : List Text) (ms : List Message) → Balanced ms → Balanced (recontent cs ms)
Balanced-recontent cs ms h = (Paired-recontent cs ms h.0, Rooted-recontent cs ms [] h.1)

-- A step that keeps the frame of its message.
abbrev Keeps : (ℕ → Message → Message × List ContextRef) → Type 0
Keeps step = (i : ℕ) (m : Message) → (step i m).0 ≡ record m { content = (step i m).0.content }

prune_message-Keeps : (n : ℕ) → Keeps (prune_message n)
unfolding prune_message
prune_message-Keeps n i m =
    let P = λ (r : Message × List ContextRef). r.0 ≡ record m { content = r.0.content } in
    if_both P (is_prunable m && ltb i n)
      (λ _.
        if_both P (ltb 50_000 (rune_count m.content)) (λ _. refl)
          (λ _. if_both P (ltb 4000 (rune_count m.content)) (λ _. refl) (λ _. refl)))
      (λ _. refl)

truncate_message-Keeps : Keeps truncate_message
unfolding truncate_message
truncate_message-Keeps i m =
    if_both (λ (r : Message × List ContextRef). r.0 ≡ record m { content = r.0.content })
      (has_role role_tool m && ltb 500 (rune_count m.content)) (λ _. refl) (λ _. refl)

pass-recontent :
    (step : ℕ → Message → Message × List ContextRef)
    → Keeps step
    → (i : ℕ) (ms : List Message)
    → (pass step i ms).0 ≡ recontent (map (λ (m : Message). m.content) (pass step i ms).0) ms
unfolding pass
pass-recontent step keeps i [] = refl
pass-recontent step keeps i (m ∷ ms) =
    ap (λ x. x ∷ (pass step (suc i) ms).0) (keeps i m)
    ∙ ap (λ xs. record m { content = (step i m).0.content } ∷ xs)
        (pass-recontent step keeps (suc i) ms)

-- The depth prune keeps the number and the order of the messages and all their fields but the
-- contents.
pub prune-recontent :
    (msgs : List Message) (n : ℕ)
    → (prune_context_messages msgs n).0
      ≡ recontent (map (λ (m : Message). m.content) (prune_context_messages msgs n).0) msgs
unfolding prune_context_messages
prune-recontent msgs n =
    pass-recontent (prune_message (length msgs - n)) (prune_message-Keeps (length msgs - n)) 0 msgs

pub truncate-recontent :
    (msgs : List Message)
    → (truncate_tool_arguments msgs).0
      ≡ recontent (map (λ (m : Message). m.content) (truncate_tool_arguments msgs).0) msgs
unfolding truncate_tool_arguments
truncate-recontent msgs = pass-recontent truncate_message truncate_message-Keeps 0 msgs

-- At a protected index the prune changes nothing.
prune_message-protected : (n i : ℕ) (m : Message) → n ≤ i → (prune_message n i m).0 ≡ m
unfolding prune_message
prune_message-protected n i m h =
    if_both (λ (r : Message × List ContextRef). r.0 ≡ m) (is_prunable m && ltb i n)
      (λ hit. absurd (ground arith)) (λ _. refl)

pass-protected :
    (n k i : ℕ) (ms : List Message) → n ≤ i + k → drop k (pass (prune_message n) i ms).0 ≡ drop k ms
unfolding pass
pass-protected n zero i [] h = refl
pass-protected n zero i (m ∷ ms) h =
    ap (λ x. x ∷ (pass (prune_message n) (suc i) ms).0)
      (prune_message-protected n i m (omega arith))
    ∙ ap (◌∷◌ m) (pass-protected n zero (suc i) ms (omega arith))
pass-protected n (suc k) i [] h = refl
pass-protected n (suc k) i (m ∷ ms) h = pass-protected n k (suc i) ms (omega arith)

-- The depth prune leaves the last messages, as many as it protects, as they are.
prune-protects :
    (msgs : List Message) (n : ℕ)
    → drop (length msgs - n) (prune_context_messages msgs n).0 ≡ drop (length msgs - n) msgs
unfolding prune_context_messages
prune-protects msgs n = pass-protected (length msgs - n) (length msgs - n) 0 msgs (omega arith)
