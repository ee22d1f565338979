-- ===== src/Session/Manager.antt =====
-- pkg/history/inmem_session_manager.go, with prompt_version.go and AsyncTask of types.go. Times are
-- numbers, 0 the zero time; `now` is what time.Now returned. A TTL of 0 stands for every one that
-- is not positive.
use gopheragent.Base.{
  ℕ, zero, suc, ◌+◌, ◌-◌, Bool, true, false, ◌&&◌, ◌||◌, not, List, [], ◌∷◌, ◌++◌, Option, none,
  some, if◌then◌else◌, length, take, drop, leb, ltb, ◌==◌, Text, codes, Result, ok, err, find,
  insert, remove, has_prefix,
}
use gopheragent.History.{Message, has_role, plain_message, role_system}
use gopheragent.Session.Boundary.{snap_to_safe_boundary}
pub mod Slots
pub mod Ops
pub mod Forks
pub mod Evict
pub mod Query

pub record AsyncTask : Type 0 where
  pub task_id : Text
  pub agent_name : Text
  pub status : Text
  pub result : Text

abbrev pub Tasks : Type 0
Tasks = List (Text × AsyncTask)

-- The maps of the manager; `summarizes` says that a SummaryProvider is set.
pub record InMemSessionManager : Type 0 where
  pub sessions : List (Text × List Message)
  pub async_tasks : List (Text × Tasks)
  pub behaviors : List (Text × Text)
  pub last_sum_len : List (Text × ℕ)
  pub updated_at : List (Text × ℕ)
  pub deleted_at : List (Text × ℕ)
  pub titles : List (Text × Text)
  pub system_prompt : Text
  pub summarizes : Bool
  pub prompt_version : Text
  pub ttl : ℕ
  pub last_use : List (Text × ℕ)

abbrev pub default_prompt : Text
default_prompt = codes "You are an AI assistant."

unfoldable pub new_in_mem_session_manager : List Text → InMemSessionManager
new_in_mem_session_manager prompts = record {
  sessions = [];
  async_tasks = [];
  behaviors = [];
  last_sum_len = [];
  updated_at = [];
  deleted_at = [];
  titles = [];
  system_prompt = elim prompts [
    | [] ↦ default_prompt
    | ◌∷◌ p _ ↦ elim p [ [] ↦ default_prompt | ◌∷◌ c s ↦ c ∷ s ]
  ];
  summarizes = false;
  prompt_version = [];
  ttl = 0;
  last_use = [];
}

abbrev pub stamp_prompt_version : Text → Text → Text
stamp_prompt_version [] body = body
stamp_prompt_version (c ∷ version) body =
    codes "<!-- prompt-version:" ++ ((c ∷ version) ++ (codes " -->\n" ++ body))

abbrev pub touch : ℕ → Text → InMemSessionManager → InMemSessionManager
touch now key m = if ltb 0 m.ttl then record m { last_use = insert key now m.last_use } else m

abbrev pub text_or_empty : Option Text → Text
text_or_empty o = elim o [ none ↦ [] | some t ↦ t ]

abbrev pub number_or_zero : Option ℕ → ℕ
number_or_zero o = elim o [ none ↦ 0 | some n ↦ n ]

abbrev pub profile_text : Text → Text
profile_text [] = []
profile_text (c ∷ behavior) =
    codes "\n\n[USER BEHAVIORAL PROFILE & LONG-TERM MEMORY]: " ++ c ∷ behavior

unfoldable pub prompt_of : Text → InMemSessionManager → Text
prompt_of key m =
    stamp_prompt_version m.prompt_version
      (m.system_prompt ++ profile_text (text_or_empty (find key m.behaviors)))

-- The copy that History returns, with the prompt of now.
abbrev pub with_prompt : Text → List Message → List Message
with_prompt prompt [] = []
with_prompt prompt (m ∷ ms) =
    if has_role role_system m then record m { content = prompt } ∷ ms else m ∷ ms

unfoldable pub history : ℕ → Text → InMemSessionManager → List Message × InMemSessionManager
unfolding prompt_of
history now key m = (
  elim (find key m.sessions) [
    | none ↦ plain_message role_system (prompt_of key m) ∷ []
    | some msgs ↦ with_prompt (prompt_of key m) msgs
  ],
  touch now key m,
)

unfoldable pub update_behavior_summary : Text → Text → InMemSessionManager → InMemSessionManager
update_behavior_summary key summary m = record m { behaviors = insert key summary m.behaviors }

abbrev pub trigger_threshold : ℕ
trigger_threshold = 20

abbrev pub new_msg_threshold : ℕ
new_msg_threshold = 10

-- Whether a save of `size` messages starts a summary, when the last one was at `last`.
abbrev pub should_summarize : Bool → ℕ → ℕ → Bool
should_summarize summarizes size last =
    summarizes && (leb trigger_threshold size && leb (last + new_msg_threshold) size)

-- The call of the background summarizer.
pub record SummaryJob : Type 0 where
  pub session_key : Text
  pub new_messages : List Message
  pub previous_summary : Text

-- The manager with the log in it.
abbrev pub stored_log : ℕ → Text → List Message → InMemSessionManager → InMemSessionManager
stored_log now key msgs m = record m {
  sessions = insert key msgs m.sessions;
  updated_at = insert key now m.updated_at;
  last_sum_len =
      if should_summarize m.summarizes (length msgs) (number_or_zero (find key m.last_sum_len))
      then insert key (length msgs) m.last_sum_len
      else m.last_sum_len;
}

unfoldable pub save_history :
    ℕ → Text → List Message → InMemSessionManager → InMemSessionManager × Option SummaryJob
save_history now key msgs m =
    let last = number_or_zero (find key m.last_sum_len) in
    (
      touch now key (stored_log now key msgs m),
      if should_summarize m.summarizes (length msgs) last
          then some (record {
            session_key = key;
            new_messages = drop last msgs;
            previous_summary = text_or_empty (find key m.behaviors);
          })
          else none,
    )

unfoldable pub async_tasks_of : ℕ → Text → InMemSessionManager → Tasks × InMemSessionManager
async_tasks_of now key m =
    (elim (find key m.async_tasks) [ none ↦ [] | some tasks ↦ tasks ], touch now key m)

unfoldable pub save_async_tasks : ℕ → Text → Tasks → InMemSessionManager → InMemSessionManager
save_async_tasks now key tasks m =
    touch now key (record m { async_tasks = insert key tasks m.async_tasks })

pub data ForkError : Type 0 where
  negative_index : ForkError
  not_found : Text → ForkError
  no_key : Text → ForkError

abbrev pub with_behavior : Text → Text → InMemSessionManager → InMemSessionManager
with_behavior key [] m = m
with_behavior key (c ∷ behavior) m = record m { behaviors = insert key (c ∷ behavior) m.behaviors }

-- The manager with the fork of `src` in it.
unfoldable pub forked :
    ℕ → Text → Text → List Message → ℕ → InMemSessionManager → InMemSessionManager
unfolding snap_to_safe_boundary
forked now new_key key src at m = touch now new_key (
    with_behavior new_key (text_or_empty (find key m.behaviors))
      (record m { sessions = insert new_key (take (snap_to_safe_boundary src at) src) m.sessions }))

-- `at` is none for a negative index; `fresh` is what newForkKey made from random bytes.
unfoldable pub fork :
    ℕ
    → Result Text Text
    → Text
    → Option ℕ
    → InMemSessionManager
    → Result ForkError Text × InMemSessionManager
unfolding forked
fork now fresh key none m = (err negative_index, m)
fork now fresh key (some at) m = elim (find key m.sessions) [
  | none ↦ (err (not_found key), m)
  | some src ↦ elim fresh [
    | err e ↦ (err (no_key e), m)
    | ok new_key ↦ (ok new_key, forked now new_key key src at m)
  ]
]

-- purgeKeyLocked, which is all of Delete.
unfoldable pub purge_key : Text → InMemSessionManager → InMemSessionManager
purge_key key m = record m {
  sessions = remove key m.sessions;
  async_tasks = remove key m.async_tasks;
  behaviors = remove key m.behaviors;
  last_sum_len = remove key m.last_sum_len;
  updated_at = remove key m.updated_at;
  deleted_at = remove key m.deleted_at;
  titles = remove key m.titles;
  last_use = remove key m.last_use;
}

unfoldable pub set_title : Text → Text → InMemSessionManager → InMemSessionManager
set_title key [] m = record m { titles = remove key m.titles }
set_title key (c ∷ title) m = record m { titles = insert key (c ∷ title) m.titles }

unfoldable pub soft_delete : ℕ → Text → InMemSessionManager → InMemSessionManager
soft_delete now key m = elim (find key m.sessions) [
  | none ↦ m
  | some _ ↦
      if number_or_zero (find key m.deleted_at) == 0
      then record m { deleted_at = insert key now m.deleted_at }
      else m
]

unfoldable pub restore : Text → InMemSessionManager → InMemSessionManager
restore key m = record m { deleted_at = remove key m.deleted_at }

-- The loop over the tombstones, and how many sessions it purged.
unfoldable pub purge_each : ℕ → List (Text × ℕ) → InMemSessionManager → ℕ × InMemSessionManager
unfolding purge_key
purge_each before [] m = (0, m)
purge_each before ((key, at) ∷ rest) m =
    let (n, purged) = purge_each before rest (purge_key key m) in
    let kept = purge_each before rest m in
    if at == 0 then kept else if ltb at before then (suc n, purged) else kept

unfoldable pub purge_deleted_before : ℕ → InMemSessionManager → ℕ × InMemSessionManager
unfolding purge_each
purge_deleted_before before m = purge_each before m.deleted_at m

abbrev pub evict_key : Text → InMemSessionManager → InMemSessionManager
evict_key key m = record m {
  sessions = remove key m.sessions;
  async_tasks = remove key m.async_tasks;
  behaviors = remove key m.behaviors;
  last_sum_len = remove key m.last_sum_len;
  last_use = remove key m.last_use;
}

-- Whether the session was idle for longer than the TTL.
abbrev pub is_expired : ℕ → ℕ → Option ℕ → Bool
is_expired now ttl none = false
is_expired now ttl (some used) = ltb ttl (now - used)

unfoldable pub evict_each :
    ℕ → List (Text × List Message) → InMemSessionManager → InMemSessionManager
evict_each now [] m = m
evict_each now ((key, _) ∷ rest) m =
    evict_each now rest (if is_expired now m.ttl (find key m.last_use) then evict_key key m else m)

unfoldable pub evict_expired : ℕ → InMemSessionManager → InMemSessionManager
unfolding evict_each
evict_expired now m = if ltb 0 m.ttl then evict_each now m.sessions m else m
