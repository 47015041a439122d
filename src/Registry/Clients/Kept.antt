-- ===== src/Registry/Clients/Kept.antt =====
-- A client, once made, is the one that every caller gets.
use validator_health_check.Prelude.{
  true, false, put, Option, none, some, Text, Map, get, get-put, is_empty, Run, done, panic,
  text_eq, ==_iff, arith, ◌≡◌, ◌⊎◌, ◌==◌, ◌∙◌, refl, sym, Bool-cases, inl, inr,
}
use validator_health_check.Utils.Retry.{Result, ok, err}
use validator_health_check.Registry.Clients.{
  keep_client, look_again, look_first, normalized, get_rpc_client_by_endpoint,
}

module _ {Client : Type 0} where
  -- Every client stays under its endpoint.
  abbrev pub Keeps : Map Text Client → Map Text Client → Type 0
  Keeps before after =
      (endpoint : Text) (client : Client)
      → get endpoint before ≡ some client
      → get endpoint after ≡ some client

  -- A client that is given is the one in the map. An error is that of making a client, for an endpoint
  -- that has none.
  abbrev pub IsGiven :
      (Text → Result Client Text) → Text → Result Client Text × Map Text Client → Type 0
  IsGiven connect endpoint (ok client, clients) = get endpoint clients ≡ some client
  IsGiven connect endpoint (err e, clients) =
      (get endpoint clients ≡ none) × (connect endpoint ≡ err e)

  -- Every client of the map was there, in one of the maps, or is the one that was made.
  abbrev pub Originates :
      (Text → Result Client Text) → Text → Map Text Client → Map Text Client → Type 0
  Originates connect endpoint seen after =
      (key : Text) (client : Client)
      → get key after ≡ some client
      → (get key seen ≡ some client) ⊎ ((key ≡ endpoint) × (connect endpoint ≡ ok client))

  -- The call ends, and all three hold; `seen` is what the other callers leave.
  abbrev pub Serves :
      (Text → Result Client Text)
      → Text
      → Map Text Client
      → Map Text Client
      → Run (Result Client Text × Map Text Client)
      → Type 0
  Serves connect endpoint before seen panic = ⊥
  Serves connect endpoint before seen (done answer) =
      Keeps before answer.1
      × IsGiven connect endpoint answer
      × Originates connect endpoint seen answer.1

  keep_client-Serves :
      (connect : Text → Result Client Text) (endpoint : Text) (before clients : Map Text Client)
      (made : Result Client Text)
      → Keeps before clients
      → get endpoint clients ≡ none
      → connect endpoint ≡ made
      → Serves connect endpoint before clients (done (keep_client connect endpoint made clients))
  keep_client-Serves connect endpoint before clients (ok client) keeps missing e' = (
    λ e c h. ground (arith, get-put endpoint e client clients, keeps e c h, ==_iff endpoint e),
    ground (arith, get-put endpoint endpoint client clients, ==_iff endpoint endpoint),
    λ key c h. kept key c h (Bool-cases (endpoint == key)),
  )
    where
      kept :
          (key : Text) (c : Client)
          → get key (put endpoint client clients) ≡ some c
          → ((endpoint == key) ≡ true) ⊎ ((endpoint == key) ≡ false)
          → (get key clients ≡ some c) ⊎ ((key ≡ endpoint) × (connect endpoint ≡ ok c))
      kept key c h (inl same) = inr (
        sym ((==_iff endpoint key).0 same),
        (let there : some client ≡ some c =
              sym (rw same at (get-put endpoint key client clients)) ∙ h in
            cc),
      )
      kept key c h (inr other) = inl (sym (rw other at (get-put endpoint key client clients)) ∙ h)
  keep_client-Serves connect endpoint before clients (err e) keeps missing e' =
      (keeps, (missing, e'), λ key c h. inl h)

  look_again-Serves :
      (connect : Text → Result Client Text) (endpoint : Text) (before clients : Map Text Client)
      (found : Option Client)
      → Keeps before clients
      → get endpoint clients ≡ found
      → Serves connect endpoint before clients (done (look_again connect endpoint found clients))
  look_again-Serves connect endpoint before clients (some client) keeps e =
      (keeps, e, λ key c h. inl h)
  look_again-Serves connect endpoint before clients none keeps e =
      keep_client-Serves connect endpoint before clients (connect endpoint) keeps e refl

  look_first-Serves :
      (connect : Text → Result Client Text) (endpoint : Text)
      (others : Map Text Client → Map Text Client) (clients : Map Text Client)
      (found : Option Client)
      → Keeps clients (others clients)
      → get endpoint clients ≡ found
      → Serves connect endpoint clients
          (others clients)
          (done (look_first connect endpoint others found clients))
  look_first-Serves connect endpoint others clients (some client) keeps e =
      ((λ _ _ h. h), e, λ key c h. inl (keeps key c h))
  look_first-Serves connect endpoint others clients none keeps e =
      look_again-Serves connect endpoint clients (others clients) (get endpoint (others clients))
        keeps refl

  -- `GetRpcClientByEndpointWL` of an endpoint that is not empty, if the callers that act between its
  -- two looks into the map replace no client, does not panic and replaces none either. The client
  -- that it gives is the one that the map then holds for the normalized endpoint; it gives an error
  -- only if the map holds none for it and making one failed with that error. It puts into the map no
  -- client but the one that it made for the normalized endpoint.
  pub get_rpc_client-Serves :
      (connect : Text → Result Client Text) (endpoint : Text)
      (others : Map Text Client → Map Text Client) (clients : Map Text Client)
      → is_empty endpoint ≡ false
      → Keeps clients (others clients)
      → Serves connect
          (normalized connect endpoint)
          clients
          (others clients)
          (get_rpc_client_by_endpoint connect endpoint others clients)
  unfolding get_rpc_client_by_endpoint
  get_rpc_client-Serves connect endpoint others clients h keeps = rw h (
      look_first-Serves connect (normalized connect endpoint) others clients
        (get (normalized connect endpoint) clients) keeps refl)
