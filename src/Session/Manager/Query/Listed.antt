-- ===== src/Session/Manager/Query/Listed.antt =====
-- What Query lists, read off the maps of the manager.
use gopheragent.Base.{
  ◌+◌, get_elem?, ltb, if◌then◌else◌, In, ℕ, zero, suc, ◌<◌, ◌≡◌, refl, sym, ap, subst, ◌∙◌, inl,
  inr, ◌⊎◌, ◌↔◌, Bool, true, false, ◌&&◌, ◌||◌, not, List, [], ◌∷◌, ◌++◌, Option, none, some,
  length, ◌==◌, ==_iff, arith, Text, find, has_prefix, Bool-cases,
}
use mathlib.Core.Bool.{true≢false}
use gopheragent.History.{Message}
use gopheragent.Session.Manager.{InMemSessionManager}
use gopheragent.Session.Manager.Query.Paged.{page-get}
use gopheragent.Session.Manager.Query.{
  SessionQueryOpts, SessionMeta, tombstone, is_deleted, query, Filtered, query-Filtered,
}

-- What a map holds under a key, or the zero value.
abbrev pub Holds : {A : Type 0} → Option A → A → A → Type 0
Holds o empty x = (o ≡ some x) ⊎ ((o ≡ none) × (x ≡ empty))

-- A tombstone that is set to the zero time counts as none.
abbrev pub Tombstoned : Option ℕ → Option ℕ → Type 0
Tombstoned o d =
    ((at : ℕ) × ((0 < at) × ((o ≡ some at) × (d ≡ some at))))
    ⊎ (((o ≡ none) ⊎ (o ≡ some 0)) × (d ≡ none))

-- A stored session whose key starts with the prefix, with its own data; one that carries a tombstone
-- only where these are asked for.
abbrev pub Lists : InMemSessionManager → Text → Bool → SessionMeta → Type 0
Lists m prefix include_deleted meta =
    (log : List Message) × (In (meta.key, log) m.sessions
      × (((rest : Text) × (meta.key ≡ prefix ++ rest))
          × ((meta.message_count ≡ length log)
              × (Holds (find meta.key m.updated_at) 0 meta.updated_at
                  × (Holds (find meta.key m.titles) [] meta.title
                      × (Tombstoned (find meta.key m.deleted_at) meta.deleted_at
                          × ((include_deleted ≡ true) ⊎ (meta.deleted_at ≡ none))))))))

abbrev or_else : {A : Type 0} → A → Option A → A
or_else empty o = elim o [ none ↦ empty | some x ↦ x ]

or_else-Holds : {A : Type 0} (empty : A) (o : Option A) → Holds o empty (or_else empty o)
or_else-Holds empty none = inr (refl, refl)
or_else-Holds empty (some x) = inl refl

Holds-or_else : {A : Type 0} (empty x : A) (o : Option A) → Holds o empty x → x ≡ or_else empty o
Holds-or_else empty x o (inl h) = sym (ap (or_else empty) h)
Holds-or_else empty x o (inr (h, e)) = e ∙ sym (ap (or_else empty) h)

tombstone_set : (at : ℕ) → 0 < at → tombstone (some at) ≡ some at
tombstone_set at h = ground arith

tombstone-Tombstoned : (o : Option ℕ) → Tombstoned o (tombstone o)
tombstone-Tombstoned none = inr (inl refl, refl)
tombstone-Tombstoned (some zero) = inr (inr refl, refl)
tombstone-Tombstoned (some (suc at)) =
    inl (suc at, (omega arith, (refl, tombstone_set (suc at) (omega arith))))

Tombstoned-tombstone : (o d : Option ℕ) → Tombstoned o d → d ≡ tombstone o
Tombstoned-tombstone o d (inl (at, (set, (h, e)))) =
    e ∙ sym (tombstone_set at set) ∙ sym (ap tombstone h)
Tombstoned-tombstone o d (inr (inl h, e)) = e ∙ sym (ap tombstone h)
Tombstoned-tombstone o d (inr (inr h, e)) = e ∙ sym (ap tombstone h)

has_prefix-rest : (s p : Text) → has_prefix s p ≡ true → (rest : Text) × (s ≡ p ++ rest)
has_prefix-rest s [] h = (s, refl)
has_prefix-rest [] (d ∷ p) h = absurd (true≢false (sym h))
has_prefix-rest (c ∷ s) (d ∷ p) h = elim (Bool-cases (c == d)) [
  | inl e ↦
      let (rest, q) = has_prefix-rest s p (sym (ap (λ b. b && has_prefix s p) e) ∙ h) in
      (rest, ap (λ x. x ∷ s) ((==_iff c d).0 e) ∙ ap (◌∷◌ d) q)
  | inr e ↦ absurd (true≢false (sym h ∙ ap (λ b. b && has_prefix s p) e))
]

has_prefix-append : (p rest : Text) → has_prefix (p ++ rest) p ≡ true
has_prefix-append [] rest = refl
has_prefix-append (c ∷ p) rest = rw ((==_iff c c).1 refl) (has_prefix-append p rest)

-- The two tests of the filter.
passes_iff :
    (inc p : Bool) (d : Option ℕ)
    → ((p && (inc || not (is_deleted d))) ≡ true) ↔ ((p ≡ true) × ((inc ≡ true) ⊎ (d ≡ none)))
passes_iff true true d = (λ h. (refl, inl refl), λ h. refl)
passes_iff true false d = (λ h. absurd (true≢false (sym h)), λ h. absurd (true≢false (sym h.0)))
passes_iff false false d = (λ h. absurd (true≢false (sym h)), λ h. absurd (true≢false (sym h.0)))
passes_iff false true none = (λ h. (refl, inr refl), λ h. refl)
passes_iff false true (some at) = (λ h. absurd (true≢false (sym h)), λ h. absurd (lost h.1))
  where
    lost : ((false ≡ true) ⊎ (some at ≡ none)) → ⊥
    lost (inl e) = true≢false (sym e)
    lost (inr e) = true≢false (ap is_deleted e)

Filtered-Lists :
    (m : InMemSessionManager) (prefix : Text) (inc : Bool) (meta : SessionMeta)
    → Filtered m prefix inc meta
    → Lists m prefix inc meta
Filtered-Lists m prefix inc meta ((key, log), (inside, (hit, same))) =
    let (prefixed, shown) =
      (passes_iff inc (has_prefix key prefix) (tombstone (find key m.deleted_at))).0 hit in
    subst (Lists m prefix inc) (sym same) (
      log,
      (
        inside,
        (
          has_prefix-rest key prefix prefixed,
          (
            refl,
            (
              or_else-Holds 0 (find key m.updated_at),
              (
                or_else-Holds [] (find key m.titles),
                (tombstone-Tombstoned (find key m.deleted_at), shown),
              ),
            ),
          ),
        ),
      ),
    )

Lists-Filtered :
    (m : InMemSessionManager) (prefix : Text) (inc : Bool) (meta : SessionMeta)
    → Lists m prefix inc meta
    → Filtered m prefix inc meta
Lists-Filtered m prefix inc meta
      (log, (inside, ((rest, starts), (count, (updated, (title, (dead, shown))))))) =
    let deleted = Tombstoned-tombstone (find meta.key m.deleted_at) meta.deleted_at dead in
    (
      (meta.key, log),
      (
        inside,
        (
          (passes_iff inc (has_prefix meta.key prefix) (tombstone (find meta.key m.deleted_at))).1 (
            subst (λ k. has_prefix k prefix ≡ true) (sym starts) (has_prefix-append prefix rest),
            subst (λ d. (inc ≡ true) ⊎ (d ≡ none)) deleted shown,
          ),
          λ i. record {
            key = meta.key;
            updated_at = Holds-or_else 0 meta.updated_at (find meta.key m.updated_at) updated i;
            message_count = count i;
            title = Holds-or_else [] meta.title (find meta.key m.titles) title i;
            deleted_at = deleted i;
          },
        ),
      ),
    )

-- The whole answer, from which a limit and an offset take a page.
abbrev pub whole :
    ((SessionMeta → SessionMeta → Bool) → List SessionMeta → List SessionMeta)
    → Text
    → SessionQueryOpts
    → InMemSessionManager
    → List SessionMeta
whole sort prefix opts m = query sort prefix (record opts { limit = 0; offset = 0 }) m

query-get :
    (sort : (SessionMeta → SessionMeta → Bool) → List SessionMeta → List SessionMeta)
    (prefix : Text) (opts : SessionQueryOpts) (m : InMemSessionManager) (i : ℕ)
    → get_elem? (query sort prefix opts m) i ≡ (
        if (opts.limit == 0) || ltb i opts.limit
        then get_elem? (whole sort prefix opts m) (opts.offset + i)
        else none)
unfolding query
query-get sort prefix opts m i = page-get opts (whole sort prefix opts m) i

-- If the sort keeps the elements of a list, then a query without limit and offset lists exactly the
-- stored sessions whose key starts with the prefix and that carry no tombstone, or any where the
-- options include these, each with the length of its log, its title, the time of its last save and
-- its tombstone. With an offset, place `i` of the answer is place `offset + i` of that list, and with
-- a limit, nothing stands at the limit or behind it.
pub query_iff :
    (sort : (SessionMeta → SessionMeta → Bool) → List SessionMeta → List SessionMeta)
    (prefix : Text) (opts : SessionQueryOpts) (m : InMemSessionManager)
    → ((less : SessionMeta → SessionMeta → Bool) (metas : List SessionMeta) (x : SessionMeta)
        → In x (sort less metas) ↔ In x metas)
    → ((meta : SessionMeta)
        → In meta (whole sort prefix opts m) ↔ Lists m prefix opts.include_deleted meta)
      × ((i : ℕ)
          → get_elem? (query sort prefix opts m) i ≡ (
              if (opts.limit == 0) || ltb i opts.limit
              then get_elem? (whole sort prefix opts m) (opts.offset + i)
              else none))
query_iff sort prefix opts m permutes = (
  λ meta.
      let (into, back) =
        query-Filtered sort prefix opts.order_by opts.include_deleted m permutes meta in
      (
        λ h. Filtered-Lists m prefix opts.include_deleted meta (into h),
        λ h. back (Lists-Filtered m prefix opts.include_deleted meta h),
      ),
  query-get sort prefix opts m,
)
