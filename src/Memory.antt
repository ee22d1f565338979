-- ===== src/Memory.antt =====
-- pkg/memory/inmem.go and memory.go: the notes kept across sessions. Times are numbers, 0 the zero
-- time, and `now` is what time.Now returned; a cap of 0 is no cap.
use gopheragent.Base.{
  text_before, ℕ, zero, suc, Bool, true, false, ◌&&◌, ◌||◌, not, List, [], ◌∷◌, ◌++◌, map, Option,
  none, some, if◌then◌else◌, length, take, ltb, leb, ◌==◌, Text, codes, same, any, Result, ok, err,
  find, insert, remove,
}
pub mod Oldest
pub mod Bounded
mod Tests

pub record Note : Type 0 where
  pub key : Text
  pub content : Text
  pub tags : List Text
  pub created_at : ℕ
  pub updated_at : ℕ

abbrev pub Bucket : Type 0
Bucket = List (Text × Note)

pub record InMemStore : Type 0 where
  pub notes : List (Text × Bucket)
  pub max_per_scope : ℕ

abbrev pub default_max_notes_per_scope : ℕ
default_max_notes_per_scope = 100

-- `cap` is what WithMaxNotesPerScope was given, 0 for a negative one, and none where it was not.
unfoldable pub new_in_mem_store : Option ℕ → InMemStore
new_in_mem_store cap = record {
  notes = [];
  max_per_scope = elim cap [ none ↦ default_max_notes_per_scope | some n ↦ n ];
}

-- Whether the loop of evictOldest prefers `(k, n)` to the key and the time that it holds.
abbrev pub is_older : Text → Note → Text → ℕ → Bool
is_older k n oldest_key oldest_at =
    ltb n.updated_at oldest_at || ((n.updated_at == oldest_at) && text_before k oldest_key)

-- The key that the loop ends with, from the one it holds.
unfoldable pub oldest_from : Bucket → Text → ℕ → Text
oldest_from [] oldest_key oldest_at = oldest_key
oldest_from ((k, n) ∷ es) oldest_key oldest_at =
    let replaced = oldest_from es k n.updated_at in
    let kept = oldest_from es oldest_key oldest_at in
    if is_older k n oldest_key oldest_at then replaced else kept

unfoldable pub evict_oldest : Bucket → Bucket
unfolding oldest_from
evict_oldest [] = []
evict_oldest ((k, n) ∷ es) = remove (oldest_from es k n.updated_at) ((k, n) ∷ es)

abbrev pub bucket_of : Text → InMemStore → Bucket
bucket_of scope s = elim (find scope s.notes) [ none ↦ [] | some bucket ↦ bucket ]

-- A note stamped with the times of its prior version, if there is one, and of now.
abbrev pub stamped : ℕ → Option Note → Note → Note
stamped now (some old) note = record note { created_at = old.created_at; updated_at = now }
stamped now none note = record note {
  created_at = if note.created_at == 0 then now else note.created_at;
  updated_at = now;
}

-- The bucket after the eviction that a new key may need.
abbrev pub with_room : ℕ → Bucket → Option Note → Bucket
with_room cap bucket (some old) = bucket
with_room cap bucket none =
    if ltb 0 cap && leb cap (length bucket) then evict_oldest bucket else bucket

pub data MemoryError : Type 0 where
  key_required : MemoryError

-- A note with an empty key is refused.
unfoldable pub put : ℕ → Text → Note → InMemStore → Result MemoryError InMemStore
unfolding evict_oldest
put now scope note s =
    let bucket = bucket_of scope s in
    let existing = find note.key bucket in
    elim note.key [
      | [] ↦ err key_required
      | ◌∷◌ _ _ ↦ ok (record s {
        notes =
            insert scope
              (insert note.key (stamped now existing note)
                (with_room s.max_per_scope bucket existing))
              s.notes;
      })
    ]

-- Every listed tag is among those of the note.
abbrev pub matches_tags : Note → List Text → Bool
matches_tags n [] = true
matches_tags n (t ∷ required) = any (λ u. same u t) n.tags && matches_tags n required

pub record ListOpts : Type 0 where
  pub limit : ℕ
  pub tags : List Text
  pub updated_after : ℕ

abbrev pub passes : ListOpts → Note → Bool
passes opts n =
    ((opts.updated_after == 0) || ltb opts.updated_after n.updated_at) && matches_tags n opts.tags

unfoldable pub selected : ListOpts → Bucket → List Note
selected opts [] = []
selected opts ((k, n) ∷ es) =
    let rest = selected opts es in if passes opts n then n ∷ rest else rest

-- Newest first, and by key where the times agree.
abbrev pub newer : Note → Note → Bool
newer a b =
    ltb b.updated_at a.updated_at || ((a.updated_at == b.updated_at) && text_before b.key a.key)

-- `sort` stands for slices.SortFunc, which takes the order as a test.
unfoldable pub list_notes :
    ((Note → Note → Bool) → List Note → List Note) → Text → ListOpts → InMemStore → List Note
unfolding selected
list_notes sort scope opts s =
    let out = sort newer (selected opts (bucket_of scope s)) in
    if ltb 0 opts.limit && ltb opts.limit (length out) then take opts.limit out else out

unfoldable pub delete : Text → Text → InMemStore → InMemStore
delete scope key s = elim (find scope s.notes) [
  | none ↦ s
  | some bucket ↦ elim (remove key bucket) [
    | [] ↦ record s { notes = remove scope s.notes }
    | ◌∷◌ e es ↦ record s { notes = insert scope (e ∷ es) s.notes }
  ]
]

-- The loop that stamps the new set of notes.
unfoldable pub merged : ℕ → Bucket → List Note → Bucket → Result MemoryError Bucket
merged now prior [] next = ok next
merged now prior (n ∷ notes) next =
    let rest = merged now prior notes (insert n.key (stamped now (find n.key prior) n) next) in
    elim n.key [ [] ↦ err key_required | ◌∷◌ _ _ ↦ rest ]

-- The loop that evicts until the set fits; a round for each note is enough.
unfoldable pub trimmed : ℕ → ℕ → Bucket → Bucket
unfolding evict_oldest
trimmed zero cap next = next
trimmed (suc fuel) cap next =
    let rest = trimmed fuel cap (evict_oldest next) in
    if ltb 0 cap && ltb cap (length next) then rest else next

unfoldable pub replace_all : ℕ → Text → List Note → InMemStore → Result MemoryError InMemStore
unfolding merged trimmed
replace_all now scope [] s = ok (record s { notes = remove scope s.notes })
replace_all now scope (n ∷ notes) s = elim (merged now (bucket_of scope s) (n ∷ notes) []) [
  | err e ↦ err e
  | ok next ↦
      ok (record s { notes = insert scope (trimmed (length next) s.max_per_scope next) s.notes })
]

abbrev pub note_lines : List Note → Text
note_lines [] = []
note_lines (n ∷ notes) = elim n.content [
  | [] ↦ note_lines notes
  | ◌∷◌ _ _ ↦ codes "- " ++ (n.content ++ (10 ∷ note_lines notes))
]

unfoldable pub format_notes : List Note → Text
format_notes [] = []
format_notes (n ∷ notes) =
    codes
      "\n\n## Long-term memory\nFacts learned from prior sessions with this user. Use them to skip clarifying questions and avoid repeating past mistakes.\n"
    ++ note_lines (n ∷ notes)
