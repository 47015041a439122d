-- ===== src/Worker/Gov/Voted.antt =====
-- Which proposals count as voted after any number of recorded votes.
use validator_health_check.Prelude.{
  ℕ, Bool, not, ◌&&◌, ◌||◌, List, [], ◌∷◌, Text, get-put, all, ltb, ◌==◌, ==_iff, text_eq, arith,
  ◌≡◌,
}
use validator_health_check.Worker.Gov.{GovCache, put_cache_voted_gov, is_voted_gov_less_than}

-- The recorded votes, in order: a validator and a proposal.
unfoldable pub votes : List (Text × ℕ) → GovCache → GovCache
votes [] c = c
votes ((valoper, proposal_id) ∷ vs) c = votes vs (put_cache_voted_gov valoper proposal_id c)

-- The vote is of another validator or for an earlier proposal.
abbrev pub leaves_open : Text → ℕ → Text × ℕ → Bool
leaves_open valoper proposal_id vote = not (vote.0 == valoper) || ltb vote.1 proposal_id

pub vote-less_than :
    (valoper other : Text) (proposal_id voted : ℕ) (c : GovCache)
    → is_voted_gov_less_than valoper proposal_id (put_cache_voted_gov other voted c) ≡ (
        is_voted_gov_less_than valoper proposal_id c
        && leaves_open valoper proposal_id (other, voted))
unfolding put_cache_voted_gov is_voted_gov_less_than
vote-less_than valoper other proposal_id voted c =
    ground (arith, ==_iff other valoper, get-put other valoper voted c.cache_voted_gov)

-- A validator counts as having voted on less than a proposal exactly when it did before and none of
-- the votes recorded since was its own on this proposal or a later one, in whatever order they came.
pub votes-less_than :
    (valoper : Text) (proposal_id : ℕ) (vs : List (Text × ℕ)) (c : GovCache)
    → is_voted_gov_less_than valoper proposal_id (votes vs c)
      ≡ (is_voted_gov_less_than valoper proposal_id c && all (leaves_open valoper proposal_id) vs)
unfolding votes all
votes-less_than valoper proposal_id [] c = ground arith
votes-less_than valoper proposal_id ((other, voted) ∷ vs) c = ground (
  arith,
  votes-less_than valoper proposal_id vs (put_cache_voted_gov other voted c),
  vote-less_than valoper other proposal_id voted c,
)
