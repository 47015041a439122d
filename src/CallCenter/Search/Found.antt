-- ===== src/CallCenter/Search/Found.antt =====
-- Which validators a search shows, and to whom.
use validator_health_check.Prelude.{
  Bool, true, false, not, ◌||◌, ◌&&◌, List, [], ◌∷◌, Option, none, some, Text, Map, get, put,
  get-put, get-nil, is_some, any, contains, ◌==◌, ==_iff, text_eq, if◌then◌else◌, arith, ◌≡◌, refl,
  ==_refl, Bool-cases, inl, inr,
}
use validator_health_check.Registry.Chains.{RegisteredChainConfig, ValidatorOfRegisteredChainConfig}
use validator_health_check.CallCenter.Context.{TelegramUpdateCtx, is_listed}
use validator_health_check.CallCenter.Search.{search_validator, search_validators, search_chains}

-- The validator is in the list.
abbrev pub is_validator_in : Text → List ValidatorOfRegisteredChainConfig → Bool
is_validator_in valoper = any (λ v. v.validator_operator_address == valoper)

abbrev pub is_watched_in : Text → Text → List ValidatorOfRegisteredChainConfig → Bool
is_watched_in identity valoper =
    any (λ v. (v.validator_operator_address == valoper) && is_listed identity v.watchers_identity)

abbrev pub is_registered : Text → List RegisteredChainConfig → Bool
is_registered valoper = any (λ c. is_validator_in valoper c.validators)

abbrev pub is_watched : Text → Text → List RegisteredChainConfig → Bool
is_watched identity valoper = any (λ c. is_watched_in identity valoper c.validators)

-- What the map has for a validator, from what it had, whether it is found as watched, and whether it is
-- found at all.
abbrev pub shown : Bool → Bool → Bool → Option Bool → Option Bool
shown is_root_user watched found before =
    if watched
    then some true
    else if is_root_user && found && not (is_some before)
    then some false
    else before

shown-shown :
    (root watched found watched' found' : Bool) (before : Option Bool)
    → shown root watched' found' (shown root watched found before)
      ≡ shown root (watched || watched') (found || found') before
shown-shown root watched found watched' found' before = ground arith

and_or : (a b c : Bool) → ((a && b) || (a && c)) ≡ (a && (b || c))
and_or a b c = ground arith

get-search_validator :
    (ctx : TelegramUpdateCtx) (query valoper : Text) (v : ValidatorOfRegisteredChainConfig)
    (m : Map Text Bool)
    → get valoper (search_validator ctx query v m)
      ≡ shown ctx.is_root_user
          (contains valoper query
            && ((v.validator_operator_address == valoper)
                && is_listed ctx.identity v.watchers_identity))
          (contains valoper query && (v.validator_operator_address == valoper))
          (get valoper m)
unfolding search_validator
get-search_validator ctx query valoper v m =
    elim (Bool-cases (v.validator_operator_address == valoper)) [
      | inl e ↦
          let same : v.validator_operator_address ≡ valoper =
            (==_iff v.validator_operator_address valoper).0 e in
          rw same (
            ground (
              arith,
              get-put valoper valoper true m,
              get-put valoper valoper false m,
              get-put valoper valoper false (put valoper true m),
              ==_refl valoper,
            ))
      | inr e ↦ ground (
        arith,
        get-put v.validator_operator_address valoper true m,
        get-put v.validator_operator_address valoper false m,
        get-put v.validator_operator_address valoper false
            (put v.validator_operator_address true m),
      )
    ]

get-search_validators :
    (ctx : TelegramUpdateCtx) (query valoper : Text) (vs : List ValidatorOfRegisteredChainConfig)
    (m : Map Text Bool)
    → get valoper (search_validators ctx query vs m)
      ≡ shown ctx.is_root_user
          (contains valoper query && is_watched_in ctx.identity valoper vs)
          (contains valoper query && is_validator_in valoper vs)
          (get valoper m)
unfolding search_validators any
get-search_validators ctx query valoper [] m = ground arith
get-search_validators ctx query valoper (v ∷ vs) m =
    rw
      (
        get-search_validators ctx query valoper vs (search_validator ctx query v m),
        get-search_validator ctx query valoper v m,
        shown-shown,
        and_or,
        and_or,
      )
      refl

get-search_chains :
    (ctx : TelegramUpdateCtx) (query valoper : Text) (cs : List RegisteredChainConfig)
    (m : Map Text Bool)
    → get valoper (search_chains ctx query cs m)
      ≡ shown ctx.is_root_user
          (contains valoper query && is_watched ctx.identity valoper cs)
          (contains valoper query && is_registered valoper cs)
          (get valoper m)
unfolding search_chains any
get-search_chains ctx query valoper [] m = ground arith
get-search_chains ctx query valoper (c ∷ cs) m =
    rw
      (
        get-search_chains ctx query valoper cs (search_validators ctx query c.validators m),
        get-search_validators ctx query valoper c.validators m,
        shown-shown,
        and_or,
        and_or,
      )
      refl

-- The search of `/search` finds a validator exactly when its address contains the query and the user
-- watches it on some chain, or is root and it is registered on some chain; it is marked as watched
-- exactly in the first case.
pub search-finds :
    (ctx : TelegramUpdateCtx) (query valoper : Text) (cs : List RegisteredChainConfig)
    → get valoper (search_chains ctx query cs []) ≡ (
        if contains valoper query && is_watched ctx.identity valoper cs
        then some true
        else if ctx.is_root_user && (contains valoper query && is_registered valoper cs)
        then some false
        else none)
search-finds ctx query valoper cs =
    ground (arith, get-search_chains ctx query valoper cs [], get-nil {V = Bool} valoper)
