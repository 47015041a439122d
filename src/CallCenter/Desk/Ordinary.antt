-- ===== src/CallCenter/Desk/Ordinary.antt =====
-- What the commands of a user who is not root can change.
use validator_health_check.Prelude.{
  Bool, true, false, List, Option, none, some, Text, text, Time, pos, seconds, SortSlice, Run, done,
  panic, if◌then◌else◌, ◌≡◌, refl, inl, text_eq, ◌==◌,
}
use validator_health_check.Registry.Chains.{RegisteredChainConfig, get_copy_all_chain_configs}
use validator_health_check.Push.Silencer.{Silencer, SilenceError}
use validator_health_check.Push.Pusher.Enqueue.{IsKeyed}
use validator_health_check.CallCenter.RateLimiter.{RateLimiter, request}
use validator_health_check.CallCenter.Context.{TelegramUpdateCtx, TimeFormat, Center}
use validator_health_check.CallCenter.Pause.Watched.{OnlyWatched, Handled, pause-Handled}
use validator_health_check.CallCenter.Answers.{AnswerFormat}
use validator_health_check.CallCenter.Desk.{
  Update, Books, Answer, sender, answer, answer_pause, answer_silent, serve_allowed,
  process_command, process_update,
}

-- The update is answered. The queues stand under their receivers, the pauses of no chain, and of no
-- validator but those that the user watches, have changed.
unfoldable pub AnsweredWithin : Text → List RegisteredChainConfig → Center → Run Answer → Type 0
AnsweredWithin identity cs w panic = ⊥
AnsweredWithin identity cs w (done a) =
    IsKeyed a.center.pusher × OnlyWatched identity cs w.pauser a.center.pauser

module _ (tf : TimeFormat) (f : AnswerFormat) (sorter : SortSlice RegisteredChainConfig)
    (error_text : SilenceError → Text) (now : Time) (b : Books) (u : Update) (w : Center)
    (k : IsKeyed w.pusher) where
  same-AnsweredWithin :
      (identity : Text) (s : Silencer) (error : Option Text) (response : Text)
      → AnsweredWithin identity
          (get_copy_all_chain_configs b.chains)
          w
          (done (record { response = response; error = error; center = record w { silencer = s } }))
  unfolding AnsweredWithin
  same-AnsweredWithin identity s error response = (k, (refl, λ valoper. inl refl))

  pause-AnsweredWithin :
      (identity : Text) (r : Run (Text × Center))
      → Handled identity (get_copy_all_chain_configs b.chains) w r
      → AnsweredWithin identity (get_copy_all_chain_configs b.chains) w (answer_pause r)
  unfolding AnsweredWithin
  pause-AnsweredWithin identity panic h = h
  pause-AnsweredWithin identity (done (response, w')) h = (h.0, h.2)

  if-AnsweredWithin :
      (identity : Text) (c : Bool) (r r' : Run Answer)
      → AnsweredWithin identity (get_copy_all_chain_configs b.chains) w r
      → AnsweredWithin identity (get_copy_all_chain_configs b.chains) w r'
      → AnsweredWithin identity (get_copy_all_chain_configs b.chains) w (if c then r else r')
  if-AnsweredWithin identity true r r' h h' = h
  if-AnsweredWithin identity false r r' h h' = h'

  answer-AnsweredWithin :
      (identity response : Text)
      → AnsweredWithin identity (get_copy_all_chain_configs b.chains) w (answer w response)
  answer-AnsweredWithin identity response = same-AnsweredWithin identity w.silencer none response

  silent-AnsweredWithin :
      (identity : Text) (r : Text × Silencer)
      → AnsweredWithin identity (get_copy_all_chain_configs b.chains) w (answer_silent w r)
  silent-AnsweredWithin identity (response, s) = same-AnsweredWithin identity s none response

  command-AnsweredWithin :
      (ctx : TelegramUpdateCtx)
      → ctx.is_root_user ≡ false
      → AnsweredWithin ctx.identity
          (get_copy_all_chain_configs b.chains)
          w
          (process_command tf f sorter error_text now b u ctx w)
  unfolding process_command
  command-AnsweredWithin ctx not_root =
      let i = ctx.identity in
      if-AnsweredWithin i (u.command == text "me") _ _ (answer-AnsweredWithin i _) (
        if-AnsweredWithin i (u.command == text "chains") _ _ (answer-AnsweredWithin i _) (
          if-AnsweredWithin i (u.command == text "validators") _ _ (answer-AnsweredWithin i _) (
            if-AnsweredWithin i (u.command == text "pause") _ _
              (pause-AnsweredWithin i _ (pause-Handled now tf b.users b.chains ctx w not_root k))
              (if-AnsweredWithin i (u.command == text "status") _ _ (answer-AnsweredWithin i _) (
                if-AnsweredWithin i (u.command == text "last") _ _ (answer-AnsweredWithin i _) (
                  if-AnsweredWithin i (u.command == text "search") _ _ (answer-AnsweredWithin i _) (
                    if-AnsweredWithin i (u.command == text "silent") _ _ (silent-AnsweredWithin i _)
                      (answer-AnsweredWithin i _))))))))

  allowed-AnsweredWithin :
      (ctx : TelegramUpdateCtx) (allowed : Bool) (r : RateLimiter)
      → ctx.is_root_user ≡ false
      → AnsweredWithin ctx.identity
          (get_copy_all_chain_configs b.chains)
          w
          (serve_allowed tf f sorter error_text now b u ctx w (allowed, r)).0
  allowed-AnsweredWithin ctx true r not_root = command-AnsweredWithin ctx not_root
  allowed-AnsweredWithin ctx false r not_root = answer-AnsweredWithin ctx.identity _

-- Where the queues stand under their receivers, an update of a user who is not root is answered: no
-- command panics. No command changes the pause of a chain, or of a validator that the user does not
-- watch.
pub process_update-AnsweredWithin :
    (tf : TimeFormat) (f : AnswerFormat) (sorter : SortSlice RegisteredChainConfig)
    (error_text : SilenceError → Text) (now : Time) (b : Books) (u : Update) (w : Center)
    (r : RateLimiter) (ctx : TelegramUpdateCtx)
    → sender b.users u ≡ some ctx
    → ctx.is_root_user ≡ false
    → IsKeyed w.pusher
    → AnsweredWithin ctx.identity
        (get_copy_all_chain_configs b.chains)
        w
        (process_update tf f sorter error_text now b u w r).0
unfolding process_update
process_update-AnsweredWithin tf f sorter error_text now b u w r ctx known not_root k = rw known (
    allowed-AnsweredWithin tf f sorter error_text now b u w k ctx
      (request now (f.print_int u.user_id) (pos (seconds 3)) r).0
      (request now (f.print_int u.user_id) (pos (seconds 3)) r).1 not_root)
