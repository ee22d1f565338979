-- ===== src/Session/Manager/Query/Paged.antt =====
-- The limit and the offset of a query, by the places of its answer.
use gopheragent.Base.{
  ℕ, zero, suc, ◌+◌, ◌≤◌, ◌≡◌, refl, ap, ◌∙◌, ◌&&◌, ◌||◌, List, [], ◌∷◌, Option, none,
  if◌then◌else◌, if_both, length, take, drop, get_elem?, ltb, ◌==◌, arith,
}
use gopheragent.Session.Manager.Query.{SessionMeta, SessionQueryOpts, page}

get-drop : (n i : ℕ) (xs : List SessionMeta) → get_elem? (drop n xs) i ≡ get_elem? xs (n + i)
get-drop zero i xs = ap (get_elem? xs) {x = i} {y = 0 + i} (omega arith)
get-drop (suc n) i [] = refl
get-drop (suc n) i (x ∷ xs) =
    get-drop n i xs ∙ ap (get_elem? (x ∷ xs)) {x = suc (n + i)} (omega arith)

get-take :
    (n i : ℕ) (xs : List SessionMeta)
    → get_elem? (take n xs) i ≡ (if ltb i n then get_elem? xs i else none)
get-take zero i xs = ground arith
get-take (suc n) i [] =
    if_both (λ (o : Option SessionMeta). none ≡ o) (ltb i (suc n)) (λ _. refl) (λ _. refl)
get-take (suc n) zero (x ∷ xs) = ground arith
get-take (suc n) (suc i) (x ∷ xs) = ground (arith, get-take n i xs)

get_past : (i : ℕ) (xs : List SessionMeta) → length xs ≤ i → get_elem? xs i ≡ none
get_past i [] h = refl
get_past zero (x ∷ xs) h = absurd (omega arith)
get_past (suc i) (x ∷ xs) h = get_past i xs (omega arith)

cut :
    (limit i : ℕ) (xs : List SessionMeta)
    → get_elem? (if ltb 0 limit && ltb limit (length xs) then take limit xs else xs) i
      ≡ (if (limit == 0) || ltb i limit then get_elem? xs i else none)
cut limit i xs = ground (arith, get-take limit i xs, get_past i xs)

-- Place `i` of a page is place `offset + i` of the list, up to the limit, where there is one.
pub page-get :
    (opts : SessionQueryOpts) (metas : List SessionMeta) (i : ℕ)
    → get_elem? (page opts metas) i
      ≡ (if (opts.limit == 0) || ltb i opts.limit then get_elem? metas (opts.offset + i) else none)
page-get opts metas i =
    cut opts.limit i (drop opts.offset metas)
    ∙ ap (λ o. if (opts.limit == 0) || ltb i opts.limit then o else none)
        (get-drop opts.offset i metas)
