-- ===== src/Worker/Messages/Complete.antt =====
-- The watchers of a chain are collected without a panic.
use mathlib.Core.List.{append_assoc, append-nil}
use validator_health_check.Prelude.{
  Bool, true, false, List, [], ◌∷◌, ◌++◌, Option, none, some, Text, get, get-put, get-nil, filter,
  is_some, pos, Run, done, panic, ◌>>=◌, ◌==◌, ==_iff, text_eq, int_eq, if◌then◌else◌, arith, ◌≡◌,
  refl, sym, subst, ap, ◌∙◌, Bool-cases, inl, inr,
}
use validator_health_check.Config.Users.{
  UserRecord, UserTelegramConfig, is_empty_or_incomplete_config,
}
use validator_health_check.Config.Users.Valid.{IsComplete, AllComplete}
use validator_health_check.Registry.Users.{
  UserRegistry, no_users, put_records, update_users_config, get_user_record_by_identity,
}
use validator_health_check.Registry.Users.Lookup.{update-IsValid}
use validator_health_check.Worker.Messages.{Watchers, add_watcher, collect_watchers}

-- Every user that is found has a complete telegram section.
abbrev pub AreComplete : UserRegistry → Type 0
AreComplete u =
    (identity : Text) (r : UserRecord)
    → get identity u.identity_to_users_config ≡ some r
    → is_empty_or_incomplete_config r.telegram_config ≡ false

complete_config :
    (r : UserRecord) (c : UserTelegramConfig)
    → IsComplete r c
    → is_empty_or_incomplete_config r.telegram_config ≡ false
unfolding is_empty_or_incomplete_config
complete_config r c h =
    rw h.has_config
      (ground (arith, h.username_is_word, h.has_user_id, h.has_token, ==_iff c.user_id (pos 0)))

put_records-AreComplete :
    (rs : List UserRecord) (u : UserRegistry)
    → AllComplete rs
    → AreComplete u
    → AreComplete (put_records rs u)
unfolding put_records
put_records-AreComplete [] u complete h = h
put_records-AreComplete (r ∷ rs) u ((c, here), complete) h =
    put_records-AreComplete rs _ complete λ identity x found.
      elim (Bool-cases (r.identity == identity)) [
        | inl e ↦
            let same : r ≡ x =
              ground (arith, get-put r.identity identity r u.identity_to_users_config) in
            subst (λ y. is_empty_or_incomplete_config y.telegram_config ≡ false) same
              (complete_config r c here)
        | inr e ↦
            h identity x (ground (arith, get-put r.identity identity r u.identity_to_users_config))
      ]

no_users-AreComplete : AreComplete no_users
no_users-AreComplete identity r h = ground (arith, get-nil {V = UserRecord} identity)

update-AreComplete :
    (rs : List UserRecord) (u : UserRegistry)
    → (update_users_config rs u).0 ≡ none
    → AreComplete (update_users_config rs u).1
update-AreComplete rs u h =
    let (valid, is_put) = update-IsValid rs u h in
    subst AreComplete (sym is_put)
      (put_records-AreComplete rs no_users valid.complete no_users-AreComplete)

-- The registry has a user of this name.
abbrev pub is_user : UserRegistry → Text → Bool
is_user u identity = is_some (get_user_record_by_identity identity u)

-- The loop ends and has added the users it found, in order.
abbrev pub Collected : UserRegistry → List Text → Watchers → Run Watchers → Type 0
Collected u identities w panic = ⊥
Collected u identities w (done w') = w'.identities ≡ w.identities ++ filter (is_user u) identities

Collected-step :
    (u : UserRegistry) (identity : Text) (identities : List Text) (w : Watchers) (r : Run Watchers)
    → Collected u (identity ∷ []) w r
    → ((w' : Watchers) → Collected u identities w' (collect_watchers u identities w'))
    → Collected u (identity ∷ identities) w (r >>= collect_watchers u identities)
Collected-step u identity identities w panic h later = h
Collected-step u identity identities w (done w') h later =
    Collected-append (collect_watchers u identities w') (later w')
  where
    joined :
        (b : Bool)
        → (if b then identity ∷ [] else []) ++ filter (is_user u) identities
          ≡ (if b then identity ∷ filter (is_user u) identities else filter (is_user u) identities)
    joined true = refl
    joined false = refl

    Collected-append :
        (r' : Run Watchers)
        → Collected u identities w' r'
        → Collected u (identity ∷ identities) w r'
    Collected-append panic k = k
    Collected-append (done w'') k =
        unfold filter in
        k
        ∙ ap (λ xs. xs ++ filter (is_user u) identities) h
        ∙ append_assoc w.identities (filter (is_user u) (identity ∷ []))
            (filter (is_user u) identities)
        ∙ ap (λ xs. w.identities ++ xs) (joined (is_user u identity))

add-Collected :
    (u : UserRegistry) (identity : Text) (found : Option UserRecord) (w : Watchers)
    → get_user_record_by_identity identity u ≡ found
    → ((r : UserRecord) → found ≡ some r → is_empty_or_incomplete_config r.telegram_config ≡ false)
    → Collected u (identity ∷ []) w (add_watcher identity found w)
unfolding filter
add-Collected u identity none w e complete = rw e (sym (append-nil w.identities))
add-Collected u identity (some r) w e complete = rw (complete r refl) (rw e refl)

collect_complete :
    (u : UserRegistry) (identities : List Text) (w : Watchers)
    → AreComplete u
    → Collected u identities w (collect_watchers u identities w)
unfolding collect_watchers filter get_user_record_by_identity
collect_complete u [] w complete = sym (append-nil w.identities)
collect_complete u (i ∷ is) w complete =
    Collected-step u i is w (add_watcher i (get_user_record_by_identity i u) w)
      (add-Collected u i (get_user_record_by_identity i u) w refl (complete i))
      λ w'. collect_complete u is w' complete

-- After an update of the users that reports no error, the loop over the watchers of a validator does
-- not panic on an incomplete telegram section, whoever the watchers are: it ends with those of them
-- that are users, in order.
pub collect-Collected :
    (rs : List UserRecord) (u : UserRegistry) (identities : List Text) (w : Watchers)
    → (update_users_config rs u).0 ≡ none
    → Collected
        (update_users_config rs u).1
        identities
        w
        (collect_watchers (update_users_config rs u).1 identities w)
collect-Collected rs u identities w h =
    collect_complete (update_users_config rs u).1 identities w (update-AreComplete rs u h)
