-- ===== src/Session/Manager/Query.antt =====
-- pkg/history/query_types.go and InMemSessionManager.Query: the listing of sessions. `sort` stands
-- for sort.Slice, which takes the order as a test. A limit or an offset of 0 stands for every one
-- that is not positive.
use gopheragent.Base.{
  text_before, In, ℕ, ◌≡◌, refl, sym, subst, inl, inr, ◌↔◌, Bool, true, false, ◌&&◌, ◌||◌, not,
  List, [], ◌∷◌, Option, none, some, if◌then◌else◌, if_both, length, take, drop, ltb, ◌==◌, Text,
  find, has_prefix,
}
use gopheragent.History.{Message}
use gopheragent.Session.Manager.{InMemSessionManager, number_or_zero, text_or_empty}
pub mod Listed
pub mod Paged

pub record SessionMeta : Type 0 where
  pub key : Text
  pub updated_at : ℕ
  pub message_count : ℕ
  pub title : Text
  pub deleted_at : Option ℕ

pub data SessionMetaOrder : Type 0 where
  recent_first oldest_first by_key : SessionMetaOrder

pub record SessionQueryOpts : Type 0 where
  pub limit : ℕ
  pub offset : ℕ
  pub order_by : SessionMetaOrder
  pub include_deleted : Bool

abbrev pub comes_before : SessionMetaOrder → SessionMeta → SessionMeta → Bool
comes_before recent_first a b = ltb b.updated_at a.updated_at
comes_before oldest_first a b = ltb a.updated_at b.updated_at
comes_before by_key a b = text_before a.key b.key

unfoldable pub sort_session_meta :
    ((SessionMeta → SessionMeta → Bool) → List SessionMeta → List SessionMeta)
    → SessionMetaOrder
    → List SessionMeta
    → List SessionMeta
sort_session_meta sort order metas = sort (comes_before order) metas

-- The tombstone of a key, where it is set to a time.
abbrev pub tombstone : Option ℕ → Option ℕ
tombstone none = none
tombstone (some at) = if at == 0 then none else some at

abbrev pub meta_of : InMemSessionManager → Text × List Message → SessionMeta
meta_of m (key, msgs) = record {
  key = key;
  updated_at = number_or_zero (find key m.updated_at);
  message_count = length msgs;
  title = text_or_empty (find key m.titles);
  deleted_at = tombstone (find key m.deleted_at);
}

abbrev pub is_deleted : Option ℕ → Bool
is_deleted none = false
is_deleted (some at) = true

-- Whether the loop keeps a session.
abbrev pub is_listed : InMemSessionManager → Text → Bool → Text → Bool
is_listed m prefix include_deleted key =
    has_prefix key prefix
    && (include_deleted || not (is_deleted (tombstone (find key m.deleted_at))))

unfoldable pub listed :
    InMemSessionManager → Text → Bool → List (Text × List Message) → List SessionMeta
listed m prefix include_deleted [] = []
listed m prefix include_deleted (e ∷ es) =
    let rest = listed m prefix include_deleted es in
    if is_listed m prefix include_deleted e.0 then meta_of m e ∷ rest else rest

abbrev pub page : SessionQueryOpts → List SessionMeta → List SessionMeta
page opts metas =
    let from = drop opts.offset metas in
    if ltb 0 opts.limit && ltb opts.limit (length from) then take opts.limit from else from

unfoldable pub query :
    ((SessionMeta → SessionMeta → Bool) → List SessionMeta → List SessionMeta)
    → Text
    → SessionQueryOpts
    → InMemSessionManager
    → List SessionMeta
unfolding sort_session_meta listed
query sort prefix opts m =
    page opts
      (sort_session_meta sort opts.order_by (listed m prefix opts.include_deleted m.sessions))

-- A stored session that the filters let pass, as its metadata.
abbrev pub Filtered : InMemSessionManager → Text → Bool → SessionMeta → Type 0
Filtered m prefix include_deleted meta =
    (e : Text × List Message) × (In e m.sessions
      × ((is_listed m prefix include_deleted e.0 ≡ true) × (meta ≡ meta_of m e)))

listed-In :
    (m : InMemSessionManager) (prefix : Text) (include_deleted : Bool)
    (es : List (Text × List Message)) (meta : SessionMeta)
    → In meta (listed m prefix include_deleted es)
    → (e : Text × List Message) × (In e es
        × ((is_listed m prefix include_deleted e.0 ≡ true) × (meta ≡ meta_of m e)))
unfolding listed
listed-In m prefix include_deleted [] meta h = absurd h
listed-In m prefix include_deleted (e ∷ es) meta h =
    by_test (is_listed m prefix include_deleted e.0) refl
      (listed-In m prefix include_deleted es meta) h
  where
    later :
        ((d : Text × List Message) × (In d es
            × ((is_listed m prefix include_deleted d.0 ≡ true) × (meta ≡ meta_of m d))))
        → (d : Text × List Message) × (In d (e ∷ es)
            × ((is_listed m prefix include_deleted d.0 ≡ true) × (meta ≡ meta_of m d)))
    later (d, (i, rest)) = (d, (inr i, rest))

    by_test :
        (b : Bool)
        → is_listed m prefix include_deleted e.0 ≡ b
        → (In meta (listed m prefix include_deleted es)
            → (d : Text × List Message) × (In d es
                × ((is_listed m prefix include_deleted d.0 ≡ true) × (meta ≡ meta_of m d))))
        → In meta (
            if b
            then meta_of m e ∷ listed m prefix include_deleted es
            else listed m prefix include_deleted es)
        → (d : Text × List Message) × (In d (e ∷ es)
            × ((is_listed m prefix include_deleted d.0 ≡ true) × (meta ≡ meta_of m d)))
    by_test true q rest (inl same) = (e, (inl refl, (q, sym same)))
    by_test true q rest (inr i) = later (rest i)
    by_test false q rest i = later (rest i)

In-listed :
    (m : InMemSessionManager) (prefix : Text) (include_deleted : Bool)
    (es : List (Text × List Message)) (e : Text × List Message)
    → In e es
    → is_listed m prefix include_deleted e.0 ≡ true
    → In (meta_of m e) (listed m prefix include_deleted es)
unfolding listed
In-listed m prefix include_deleted [] e h hit = absurd h
In-listed m prefix include_deleted (d ∷ es) e (inl same) hit =
    subst
      (λ (x : Text × List Message). In (meta_of m e) (
        if is_listed m prefix include_deleted x.0
        then meta_of m x ∷ listed m prefix include_deleted es
        else listed m prefix include_deleted es))
      (sym same) (rw hit (inl refl))
In-listed m prefix include_deleted (d ∷ es) e (inr i) hit =
    let rest = In-listed m prefix include_deleted es e i hit in
    if_both (In (meta_of m e)) (is_listed m prefix include_deleted d.0) (λ _. inr rest) (λ _. rest)

-- A query that neither skips nor cuts lists the sessions that its filter lets pass.
pub query-Filtered :
    (sort : (SessionMeta → SessionMeta → Bool) → List SessionMeta → List SessionMeta)
    (prefix : Text) (order : SessionMetaOrder) (include_deleted : Bool) (m : InMemSessionManager)
    → ((less : SessionMeta → SessionMeta → Bool) (metas : List SessionMeta) (x : SessionMeta)
        → In x (sort less metas) ↔ In x metas)
    → (meta : SessionMeta)
    → In meta (
        query sort prefix
          (record { limit = 0; offset = 0; order_by = order; include_deleted = include_deleted })
          m)
      ↔ Filtered m prefix include_deleted meta
unfolding query sort_session_meta
query-Filtered sort prefix order include_deleted m permutes meta =
    let metas = listed m prefix include_deleted m.sessions in
    let (into, back) = permutes (comes_before order) metas meta in
    (
      λ h. listed-In m prefix include_deleted m.sessions meta (into h),
      λ found. back (from_session found),
    )
  where
    from_session :
        Filtered m prefix include_deleted meta
        → In meta (listed m prefix include_deleted m.sessions)
    from_session (e, (i, (hit, same))) =
        subst (λ x. In x (listed m prefix include_deleted m.sessions)) (sym same)
          (In-listed m prefix include_deleted m.sessions e i hit)
