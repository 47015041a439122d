-- ===== src/Worker/Pages/Complete.antt =====
-- The loops over the pages gather everything that the node holds.
use validator_health_check.Prelude.{
  ℕ, zero, suc, ◌+◌, ◌≤◌, ◌<◌, true, false, List, [], ◌∷◌, ◌++◌, some, Text, length, take, drop,
  length-drop, take-append-drop, is_empty, All, Distinct, has_key, map, Run, done, panic, ◌==◌,
  ==_iff, ==_refl, text_eq, if◌then◌else◌, arith, ◌≡◌, ◌∙◌, refl, sym, ap, subst, Bool-cases, inl,
  inr,
}
use mathlib.Core.List.{append_assoc, append-nil}
use validator_health_check.Utils.Retry.{Result, ok, err}
use validator_health_check.Worker.Outside.{World, Page, StakingValidator, SigningInfo}
use validator_health_check.Worker.State.{Services, M, ticked, next_tick}
use validator_health_check.Worker.Pages.{
  attempt, ask, Listing, page_limit, on_next_key, get_pages, get_all_validators,
  get_all_signing_infos, validators_listing, signing_infos_listing,
}
use validator_health_check.Worker.Pages.Attempts.{Succeeds, retried-Succeeds}

-- What a node holds: items under keys, in order. It gives a page of a limited length from the item
-- with the key that was asked for, or from the first one, and the key of the item behind the page.
module _ {A : Type 0} where
  abbrev pub items_of : List (Text × A) → List A
  items_of = map (λ entry. entry.1)

  abbrev pub first_key : List (Text × A) → Text
  first_key [] = []
  first_key ((k, a) ∷ es) = k

  unfoldable pub from_key : Text → List (Text × A) → List (Text × A)
  from_key key [] = []
  from_key key ((k, a) ∷ es) = if k == key then (k, a) ∷ es else from_key key es

  abbrev pub start_at : Text → List (Text × A) → List (Text × A)
  start_at key entries = if is_empty key then entries else from_key key entries

  abbrev pub page_at : ℕ → List (Text × A) → Page A
  page_at limit es = record {
    items = items_of (take limit es);
    next_key = some (first_key (drop limit es));
  }

  -- No two entries have the same key, and no key is empty.
  abbrev pub AreKeyed : List (Text × A) → Type 0
  AreKeyed entries = Distinct (λ e. e.0) entries × All (λ e. is_empty e.0 ≡ false) entries

  drop-nil : (n : ℕ) → drop n (let none_of : List (Text × A) = [] in none_of) ≡ []
  drop-nil zero = refl
  drop-nil (suc n) = refl

  drop-drop : (m n : ℕ) (es : List (Text × A)) → drop m (drop n es) ≡ drop (n + m) es
  drop-drop m zero es = ap (λ k. drop k es) (omega arith)
  drop-drop m (suc n) [] = drop-nil m ∙ sym (drop-nil (suc n + m))
  drop-drop m (suc n) (e ∷ es) = drop-drop m n es ∙ shifted
    where
      shifted : drop (n + m) es ≡ drop (suc n + m) (e ∷ es)
      shifted =
          sym (ap (λ k. drop k (e ∷ es)) (let eq : suc n + m ≡ suc (n + m) = omega arith in eq))

  has_key-drop :
      (n : ℕ) (es : List (Text × A)) (k : Text) (a : A) (rest : List (Text × A))
      → drop n es ≡ (k, a) ∷ rest
      → has_key (λ e. e.0) k es ≡ true
  unfolding has_key
  has_key-drop zero [] k a rest h = cc
  has_key-drop zero ((j, b) ∷ es) k a rest h = ground (arith, ==_refl k, same h)
    where
      same : (j, b) ∷ es ≡ (k, a) ∷ rest → (j == k) ≡ true
      same e = (==_iff j k).1 (cc)
  has_key-drop (suc n) [] k a rest h = cc
  has_key-drop (suc n) (e ∷ es) k a rest h = ground (arith, has_key-drop n es k a rest h)

  from_key-drop :
      (n : ℕ) (es : List (Text × A)) (k : Text) (a : A) (rest : List (Text × A))
      → Distinct (λ e. e.0) es
      → drop n es ≡ (k, a) ∷ rest
      → from_key k es ≡ drop n es
  unfolding from_key
  from_key-drop zero [] k a rest d h = refl
  from_key-drop zero ((j, b) ∷ es) k a rest d h = rw same refl
    where
      same : (j == k) ≡ true
      same = (==_iff j k).1 (cc)
  from_key-drop (suc n) [] k a rest d h = refl
  from_key-drop (suc n) ((j, b) ∷ es) k a rest d h = elim (Bool-cases (j == k)) [
    | inl same ↦ absurd (clash same)
    | inr other ↦ rw other (from_key-drop n es k a rest d.1 h)
  ]
    where
      clash : (j == k) ≡ true → ⊥
      clash same = ground (arith, ==_iff j k, has_key-drop n es k a rest h)

  All-drop : (P : Text × A → Type 0) (n : ℕ) (es : List (Text × A)) → All P es → All P (drop n es)
  All-drop P zero es h = h
  All-drop P (suc n) [] h = h
  All-drop P (suc n) (e ∷ es) h = All-drop P n es h.1

  map-append : (xs ys : List (Text × A)) → items_of (xs ++ ys) ≡ items_of xs ++ items_of ys
  map-append [] ys = refl
  map-append (x ∷ xs) ys = ap (λ r. x.1 ∷ r) (map-append xs ys)

  -- A page and what stands behind it make up the items.
  page-rest :
      (gathered : List A) (limit : ℕ) (es : List (Text × A))
      → (gathered ++ items_of (take limit es)) ++ items_of (drop limit es) ≡ gathered ++ items_of es
  page-rest gathered limit es =
      append_assoc gathered (items_of (take limit es)) (items_of (drop limit es))
      ∙ ap (λ r. gathered ++ r)
          (sym (map-append (take limit es) (drop limit es))
            ∙ ap items_of (take-append-drop limit es))

  -- The call ends and gives these.
  abbrev pub Gathers : List A → Run (Result (List A) Text × Services) → Type 0
  Gathers xs panic = ⊥
  Gathers xs (done (ok ys, s)) = ys ≡ xs
  Gathers xs (done (err e, s)) = ⊥

  -- Whatever is asked for, a call fails three times at most, and then the node gives the page.
  abbrev pub Holds : World → Text → Listing A → List (Text × A) → Type 0
  Holds w client l entries =
      (tick : ℕ) (key : Text)
      → (request : Text) × ((l.marshal page_limit key ≡ some request)
          × ((failures : ℕ) × ((failures ≤ 3)
                × Succeeds (attempt w client l.path l.unmarshal request tick) 0 failures
                    (page_at page_limit (start_at key entries)))))

  module _ (w : World) (client : Text) (l : Listing A) (entries : List (Text × A))
      (keyed : AreKeyed entries) (holds : Holds w client l entries) where
    ask-page :
        (key : Text) (s : Services)
        → ask w client l.path l.unmarshal l.message (l.marshal page_limit key) s
          ≡ done (ok (page_at page_limit (start_at key entries)), ticked s)
    unfolding ask next_tick
    ask-page key s =
        let (request, (encoded, (failures, (few, succeeds)))) = holds s.tick key in
        rw
          (
            encoded,
            retried-Succeeds w s.tick (attempt w client l.path l.unmarshal request s.tick) failures
                _ few succeeds,
          )
          refl

    next-start :
        (m : ℕ) (k : Text) (a : A) (es : List (Text × A))
        → drop m entries ≡ (k, a) ∷ es
        → start_at k entries ≡ drop m entries
    next-start m k a es h =
        let full : is_empty k ≡ false =
          (subst (All λ e. is_empty e.0 ≡ false) h (All-drop _ m entries keyed.1)).0 in
        rw full (from_key-drop m entries k a es keyed.0 h)

    -- After a page the loop ends with what it has, or goes on at the next key.
    on_next_key-Gathers :
        (n : ℕ) (gathered : List A) (s : Services) (next : Text → M (Result (List A) Text))
        (rest : List (Text × A))
        → drop n entries ≡ rest
        → ((k : Text) (a : A) (es : List (Text × A))
            → drop n entries ≡ (k, a) ∷ es
            → Gathers (gathered ++ items_of (drop n entries)) (next k s))
        → Gathers
            (gathered ++ items_of (drop n entries))
            (on_next_key gathered next (some (first_key rest)) s)
    on_next_key-Gathers n gathered s next [] e later = rw e (sym (append-nil gathered))
    on_next_key-Gathers n gathered s next (([], a) ∷ es) e later =
        let full : is_empty [] ≡ false =
          (subst (All λ e. is_empty e.0 ≡ false) e (All-drop _ n entries keyed.1)).0 in
        cc
    on_next_key-Gathers n gathered s next ((c ∷ k, a) ∷ es) e later = later (c ∷ k) a es e

    get_pages-Gathers :
        (fuel n : ℕ) (key : Text) (gathered : List A) (s : Services)
        → start_at key entries ≡ drop n entries
        → length (drop n entries) < fuel
        → Gathers (gathered ++ items_of (drop n entries)) (get_pages w client l fuel key gathered s)
    unfolding get_pages
    get_pages-Gathers zero n key gathered s e lt = absurd (omega arith)
    get_pages-Gathers (suc fuel) n key gathered s e lt =
        rw
          (
            ask-page key s,
            e,
            ← page-rest gathered page_limit (drop n entries),
            drop-drop page_limit n entries,
          )
          (on_next_key-Gathers (n + page_limit) got (ticked s)
            (λ key'. get_pages w client l fuel key' got) (drop (n + page_limit) entries) refl
            λ k a es behind.
              get_pages-Gathers fuel (n + page_limit) k got (ticked s)
                (next-start (n + page_limit) k a es behind) (shorter k a es behind))
      where
        got : List A
        got = gathered ++ items_of (take page_limit (drop n entries))

        shorter :
            (k : Text) (a : A) (es : List (Text × A))
            → drop (n + page_limit) entries ≡ (k, a) ∷ es
            → length (drop (n + page_limit) entries) < fuel
        shorter k a es behind =
            omega
              (arith, ap length behind, length-drop (n + page_limit) entries, length-drop n entries)

-- The node lists its validators and its signing infos in pages, in order, under keys that differ and
-- are not empty; each call for a page fails three times at most before it succeeds. Then, with fuel for
-- one page more than there are entries, `getAllValidators` and `getAllSigningInfos` end without a
-- panic or an error, with every validator and every signing info of the node, once and in order.
pub get_all-Gathers :
    (w : World) (client : Text) (validators : List (Text × StakingValidator))
    (signing_infos : List (Text × SigningInfo)) (fuel : ℕ) (s : Services)
    → AreKeyed validators
    → AreKeyed signing_infos
    → Holds w client (validators_listing w) validators
    → Holds w client (signing_infos_listing w) signing_infos
    → length validators < fuel
    → length signing_infos < fuel
    → Gathers (items_of validators) (get_all_validators w fuel client s)
      × Gathers (items_of signing_infos) (get_all_signing_infos w fuel client s)
unfolding get_all_validators get_all_signing_infos
get_all-Gathers w client validators signing_infos fuel s vk sk vh sh vl sl = (
  get_pages-Gathers w client (validators_listing w) validators vk vh fuel 0 [] [] s refl vl,
  get_pages-Gathers w client (signing_infos_listing w) signing_infos sk sh fuel 0 [] [] s refl sl,
)
