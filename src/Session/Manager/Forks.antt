-- ===== src/Session/Manager/Forks.antt =====
-- What a fork and a saved history read back as.
use gopheragent.Base.{
  ℕ, ◌≡◌, refl, ap, ◌∙◌, Bool, true, false, List, [], ◌∷◌, none, some, if◌then◌else◌, if_both, ◌⊎◌,
  ◌≢◌, inl, inr, sym, subst, same_iff, take, ltb, Text, same, ok, find, insert, find-insert_self,
  find-insert_ne,
}
use mathlib.Core.Bool.{true≢false}
use gopheragent.History.{Message, plain_message, role_system, has_role}
use gopheragent.Request.Dangling.Paired.{Paired}
use gopheragent.Session.Boundary.{snap_to_safe_boundary}
use gopheragent.Session.Boundary.Scan.{Settled}
use gopheragent.Session.Boundary.Safe.{snap_to_safe_boundary-Paired}
use gopheragent.Session.Manager.{
  InMemSessionManager, touch, text_or_empty, with_behavior, forked, fork, history, stored_log,
  save_history, with_prompt, prompt_of,
}
use gopheragent.Session.Manager.Slots.{
  Slot, slot_of, Changes, touched, touch-Changes, Changes-trans,
}

abbrev inherited : Text → Slot → Slot
inherited [] s = s
inherited (c ∷ behavior) s = record s { behavior = some (c ∷ behavior) }

behavior-Changes :
    (key behavior : Text) (m : InMemSessionManager)
    → Changes key (inherited behavior) m (with_behavior key behavior m)
behavior-Changes key [] m = (refl, λ k miss. refl)
behavior-Changes key (c ∷ behavior) m = (
  rw (find-insert_self key (c ∷ behavior) m.behaviors) refl,
  λ k miss. rw (find-insert_ne k key (c ∷ behavior) m.behaviors miss) refl,
)

forked-Changes :
    (now : ℕ) (new_key key : Text) (src : List Message) (at : ℕ) (m : InMemSessionManager)
    → (ttl : ℕ) × Changes new_key
        (λ s. touched ttl now (
          inherited
            (text_or_empty (find key m.behaviors))
            (record s { log = some (take (snap_to_safe_boundary src at) src) })))
        m
        (forked now new_key key src at m)
unfolding forked
forked-Changes now new_key key src at m =
    let behavior = text_or_empty (find key m.behaviors) in
    let log = take (snap_to_safe_boundary src at) src in
    let copied = record m { sessions = insert new_key log m.sessions } in
    let profiled = with_behavior new_key behavior copied in
    (
      profiled.ttl,
      Changes-trans new_key (λ s. inherited behavior (record s { log = some log }))
          (touched profiled.ttl now) m profiled (touch now new_key profiled)
          (Changes-trans new_key (λ s. record s { log = some log }) (inherited behavior) m copied
            profiled
            (
              rw (find-insert_self new_key log m.sessions) refl,
              λ k miss. rw (find-insert_ne k new_key log m.sessions miss) refl,
            )
            (behavior-Changes new_key behavior copied))
          (touch-Changes now new_key profiled),
    )

log-touched : (ttl now : ℕ) (s : Slot) → (touched ttl now s).log ≡ s.log
log-touched ttl now s = by_test (ltb 0 ttl)
  where
    by_test : (b : Bool) → (if b then record s { used = some now } else s).log ≡ s.log
    by_test true = refl
    by_test false = refl

log-inherited : (behavior : Text) (s : Slot) → (inherited behavior s).log ≡ s.log
log-inherited [] s = refl
log-inherited (c ∷ behavior) s = refl

fork-stored :
    (now : ℕ) (new_key key : Text) (src : List Message) (at : ℕ) (m : InMemSessionManager)
    → find key m.sessions ≡ some src
    → fork now (ok new_key) key (some at) m ≡ (ok new_key, forked now new_key key src at m)
unfolding fork forked
fork-stored now new_key key src at m stored = rw (fork, stored) refl

-- Let a stored log have a reply to each call before the next turn, and no tool message right behind
-- a message that is neither a turn nor a tool message. Then its fork at an index that is not
-- negative, with a key at hand, answers with this key, stores there the part of the log before the
-- safe cut, in which each call is replied to before the next turn, and leaves every other session
-- as it was.
pub fork-Paired :
    (now : ℕ) (new_key key : Text) (src : List Message) (at : ℕ) (m : InMemSessionManager)
    → find key m.sessions ≡ some src
    → Settled src
    → Paired src
    → ((fork now (ok new_key) key (some at) m).0 ≡ ok new_key)
      × (((slot_of (fork now (ok new_key) key (some at) m).1 new_key).log
            ≡ some (take (snap_to_safe_boundary src at) src))
          × (Paired (take (snap_to_safe_boundary src at) src)
              × ((k : Text)
                  → same new_key k ≡ false
                  → slot_of (fork now (ok new_key) key (some at) m).1 k ≡ slot_of m k)))
fork-Paired now new_key key src at m stored settled paired =
    let (ttl, (self, other)) = forked-Changes now new_key key src at m in
    let done = fork-stored now new_key key src at m stored in
    (
      ap (λ r. r.0) done,
      (
        ap (λ r. (slot_of r.1 new_key).log) done
            ∙ ap (λ (s : Slot). s.log) self
            ∙ log-touched ttl now _
            ∙ log-inherited (text_or_empty (find key m.behaviors)) _,
        (
          (snap_to_safe_boundary-Paired src at settled paired).1.0,
          λ k miss. ap (λ r. slot_of r.1 k) done ∙ other k miss,
        ),
      ),
    )

history-touch :
    (now t : ℕ) (read key : Text) (m : InMemSessionManager)
    → (history now read (touch t key m)).0 ≡ (history now read m).0
unfolding history prompt_of
history-touch now t read key m = by_ttl (ltb 0 m.ttl)
  where
    by_ttl :
        (b : Bool)
        → (history now read (if b then record m { last_use = insert key t m.last_use } else m)).0
          ≡ (history now read m).0
    by_ttl true = refl
    by_ttl false = refl

-- What History makes of a stored log: the prompt takes the place of the content of a leading system
-- message, and nothing else is changed.
abbrev pub ReadsAs : Text → List Message → List Message → Type 0
ReadsAs prompt [] shown = shown ≡ []
ReadsAs prompt (m ∷ ms) shown =
    ((m.role ≡ role_system) × (shown ≡ record m { content = prompt } ∷ ms))
    ⊎ ((m.role ≢ role_system) × (shown ≡ m ∷ ms))

with_prompt-ReadsAs :
    (prompt : Text) (msgs : List Message) → ReadsAs prompt msgs (with_prompt prompt msgs)
with_prompt-ReadsAs prompt [] = refl
with_prompt-ReadsAs prompt (m ∷ ms) =
    if_both (ReadsAs prompt (m ∷ ms)) (has_role role_system m)
      (λ system. inl ((same_iff m.role role_system).0 system, refl))
      (λ other. inr (λ e. true≢false (sym ((same_iff m.role role_system).1 e) ∙ other), refl))

history_saved :
    (saved now : ℕ) (key : Text) (msgs : List Message) (m : InMemSessionManager)
    → (history now key (save_history saved key msgs m).0).0 ≡ with_prompt (prompt_of key m) msgs
unfolding history save_history prompt_of
history_saved saved now key msgs m =
    history-touch now saved key key (stored_log saved key msgs m)
    ∙ ap
        (λ o. elim o [
          | none ↦ plain_message role_system (prompt_of key m) ∷ []
          | some log ↦ with_prompt (prompt_of key m) log
        ])
        (find-insert_self key msgs m.sessions)

-- A log that was saved reads back message by message as it was, but for the content of a leading
-- system message, which is the prompt of the manager with the profile of the session; and every other
-- session reads as it did before the save.
pub history-save :
    (saved now : ℕ) (key : Text) (msgs : List Message) (m : InMemSessionManager)
    → ReadsAs (prompt_of key m) msgs (history now key (save_history saved key msgs m).0).0
      × ((other : Text)
          → same key other ≡ false
          → (history now other (save_history saved key msgs m).0).0 ≡ (history now other m).0)
unfolding history save_history prompt_of
history-save saved now key msgs m = (
  subst (ReadsAs (prompt_of key m) msgs) (sym (history_saved saved now key msgs m))
      (with_prompt-ReadsAs (prompt_of key m) msgs),
  λ other miss.
      history-touch now saved other key (stored_log saved key msgs m)
      ∙ ap
          (λ o. elim o [
            | none ↦ plain_message role_system (prompt_of other m) ∷ []
            | some log ↦ with_prompt (prompt_of other m) log
          ])
          (find-insert_ne other key msgs m.sessions miss),
)
