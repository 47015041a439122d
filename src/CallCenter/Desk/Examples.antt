-- ===== src/CallCenter/Desk/Examples.antt =====
-- A watcher who sends two commands within three seconds.
use validator_health_check.Prelude.{
  ℕ, true, false, [], ◌∷◌, some, Text, text, pos, seconds, arith, ◌≡◌, refl, get, int_eq, text_eq,
  text_beq, by_insertion,
}
use validator_health_check.Config.Users.{UserRecord, is_empty_or_incomplete_config}
use validator_health_check.Registry.Users.{UserRegistry, get_user_record_by_telegram_user_id}
use validator_health_check.Registry.Chains.{get_copy_all_chain_configs}
use validator_health_check.Push.Silencer.{SilenceError}
use validator_health_check.CallCenter.RateLimiter.{request}
use validator_health_check.CallCenter.RateLimiter.Spacing.{ask}
use validator_health_check.CallCenter.Answers.{AnswerFormat}
use validator_health_check.CallCenter.Pause.Examples.{
  format, chains, center, no_queues-IsKeyed, ctx,
}
use validator_health_check.CallCenter.Desk.{Update, Books, sender, process_update}
use validator_health_check.CallCenter.Desk.Spaced.{
  Turn, from_known, take_turn, take_turns, request_of, LeavesAll, updates_spaced,
}
use validator_health_check.CallCenter.Desk.Ordinary.{AnsweredWithin, process_update-AnsweredWithin}

abbrev alice : UserRecord
alice = record {
  identity = text "alice";
  root = false;
  telegram_config =
      some (record { username = text "alice_tg"; user_id = pos 42; token = text "127:abc" });
}

abbrev users : UserRegistry
users = record {
  identity_to_users_config = (text "alice", alice) ∷ [];
  telegram_id_to_identity = (pos 42, text "alice") ∷ [];
}

abbrev answers : AnswerFormat
answers = record {
  print_int = λ n. text "42";
  print_percent = λ x. text "100.00";
  print_seconds = λ d. text "1.00";
  print_status = λ b. text "BOND_STATUS_BONDED";
}

abbrev no_text : SilenceError → Text
no_text e = []

abbrev books : Books
books = record { users = users; chains = chains; caches = [] }

abbrev pause_juno : Update
pause_juno = record {
  user_id = pos 42;
  chat_id = pos 42;
  command = text "pause";
  command_args = text "junovaloper1a 1h";
}

abbrev at : ℕ → Turn
at n = record { now = seconds n; books = books; center = center; update = pause_juno }

alice-known : sender users pause_juno ≡ some ctx
unfolding get_user_record_by_telegram_user_id is_empty_or_incomplete_config get text_beq
alice-known = refl

turn-known : from_known (at 10) ≡ true
unfolding get_user_record_by_telegram_user_id is_empty_or_incomplete_config get text_beq
turn-known = refl

turn-allowed : (ask (request_of format answers by_insertion no_text (at 10)) []).0 ≡ true
unfolding request get
turn-allowed = refl

updates_spaced_example :
    (let r' =
        take_turns format answers by_insertion no_text
          (at 11 ∷ [])
          (take_turn format answers by_insertion no_text (at 10) []).1 in
      LeavesAll center r' (take_turn format answers by_insertion no_text (at 12) r'))
updates_spaced_example =
    updates_spaced format answers by_insertion no_text (at 10) (at 12) (at 11 ∷ []) [] turn-known
      turn-allowed (omega arith, tt) refl (omega arith)

process_update-AnsweredWithin_example :
    AnsweredWithin
      (text "alice")
      (get_copy_all_chain_configs chains)
      center
      (process_update format answers by_insertion no_text (seconds 10) books pause_juno center []).0
process_update-AnsweredWithin_example =
    process_update-AnsweredWithin format answers by_insertion no_text (seconds 10) books pause_juno
      center [] ctx alice-known refl no_queues-IsKeyed
