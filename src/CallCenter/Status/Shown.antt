-- ===== src/CallCenter/Status/Shown.antt =====
-- Which paused validators `/status` lists for their watchers.
use validator_health_check.Prelude.{
  Bool, ◌||◌, ◌&&◌, List, [], ◌∷◌, Option, none, some, Text, get, get-put, get-nil, any, Time, ◌==◌,
  ==_iff, text_eq, if◌then◌else◌, arith, ◌≡◌, refl, ==_refl, Bool-cases, inl, inr,
}
use validator_health_check.Registry.Pauser.{Pauser, is_validator_paused}
use validator_health_check.Registry.Chains.{RegisteredChainConfig, ValidatorOfRegisteredChainConfig}
use validator_health_check.CallCenter.Context.{is_listed}
use validator_health_check.CallCenter.Pause.Watched.{watches_on, watches}
use validator_health_check.CallCenter.Status.{
  PausedLists, nothing_listed, list_validator, list_validators, list_chain_name, list_chains,
}

module _ (now : Time) (p : Pauser) (identity valoper : Text) where
  -- What the list has for the validator, from what it had and whether the user watches it.
  abbrev listed_if : Bool → Option Time → Option Time
  listed_if watched before =
      if (is_validator_paused now valoper p).0 && watched
      then some (is_validator_paused now valoper p).1
      else before

  listed_if-listed_if :
      (watched watched' : Bool) (before : Option Time)
      → listed_if watched' (listed_if watched before) ≡ listed_if (watched || watched') before
  listed_if-listed_if watched watched' before = ground arith

  get-list_validator :
      (v : ValidatorOfRegisteredChainConfig) (l : PausedLists)
      → get valoper (list_validator now p identity v l).validators_subscribed
        ≡ listed_if
            ((v.validator_operator_address == valoper) && is_listed identity v.watchers_identity)
            (get valoper l.validators_subscribed)
  unfolding list_validator
  get-list_validator v l = elim (Bool-cases (v.validator_operator_address == valoper)) [
    | inl e ↦
        let same : v.validator_operator_address ≡ valoper =
          (==_iff v.validator_operator_address valoper).0 e in
        rw same (
          ground (
            arith,
            get-put valoper valoper (is_validator_paused now valoper p).1 l.validators_subscribed,
            ==_refl valoper,
          ))
    | inr e ↦ ground (
      arith,
      get-put v.validator_operator_address valoper
          (is_validator_paused now v.validator_operator_address p).1 l.validators_subscribed,
    )
  ]

  get-list_validators :
      (vs : List ValidatorOfRegisteredChainConfig) (l : PausedLists)
      → get valoper (list_validators now p identity vs l).validators_subscribed
        ≡ listed_if (watches_on identity valoper vs) (get valoper l.validators_subscribed)
  unfolding list_validators any
  get-list_validators [] l = ground arith
  get-list_validators (v ∷ vs) l =
      rw
        (
          get-list_validators vs (list_validator now p identity v l),
          get-list_validator v l,
          listed_if-listed_if,
        )
        refl

  get-list_chains :
      (cs : List RegisteredChainConfig) (l : PausedLists)
      → get valoper (list_chains now p identity cs l).validators_subscribed
        ≡ listed_if (watches identity valoper cs) (get valoper l.validators_subscribed)
  unfolding list_chains any
  get-list_chains [] l = ground arith
  get-list_chains (c ∷ cs) l =
      rw
        (
          get-list_chains cs
              (list_chain_name now p identity c (list_validators now p identity c.validators l)),
          get-list_validators c.validators l,
          listed_if-listed_if,
        )
        refl

  -- The list of paused validators that a user subscribed, in `/status`, has a validator exactly when
  -- it is paused at that instant and the user is a watcher of it on some chain, with the instant until
  -- which it is paused.
  pub list_chains-lists :
      (cs : List RegisteredChainConfig)
      → get valoper (list_chains now p identity cs nothing_listed).validators_subscribed ≡ (
          if (is_validator_paused now valoper p).0 && watches identity valoper cs
          then some (is_validator_paused now valoper p).1
          else none)
  list_chains-lists cs =
      ground (arith, get-list_chains cs nothing_listed, get-nil {V = Time} valoper)
