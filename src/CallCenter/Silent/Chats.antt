-- ===== src/CallCenter/Silent/Chats.antt =====
-- What `/silent` can change: the patterns of its own chat, for twelve hours at most.
use validator_health_check.Prelude.{
  ℤ, ◌+◌, ◌≤◌, Bool, true, false, ◌||◌, [], ◌∷◌, Option, none, some, Text, text, Time, Duration,
  pos, negsuc, hours, add, ltb, length, ltb_ℤ, All, get, put, delete, delete_if, get-put,
  trim_space, is_empty, int_eq, text_eq, ◌==◌, if◌then◌else◌, arith, ◌≡◌, refl, inl, inr,
  Bool-cases, Option-cases,
}
use validator_health_check.Push.Silencer.{
  Silencer, SilenceError, Patterns, set_silence_pattern, set_in_chat, store_pattern,
  remove_silence_pattern, remove_in_chat, patterns_of, is_expired, silent_pattern_minimum_length,
}
use validator_health_check.Utils.Http.{cut}
use validator_health_check.CallCenter.Context.{TelegramUpdateCtx, TimeFormat}
use validator_health_check.CallCenter.Silent.{
  SilentArgs, list, refused, remove, set, read_silent_args, apply_silent, process_command_silent,
  ask_parts, ask_parsed, maximum_silence,
}

-- No pattern of the chat stays for longer than twelve hours after `t`.
abbrev pub AreShort : Time → Patterns → Type 0
AreShort t = All (λ entry. entry.1 ≤ t + hours 12)

abbrev pub IsShort : Time → Silencer → Type 0
IsShort t s = (chat_id : ℤ) → AreShort t (patterns_of (get chat_id s))

-- Only this chat has changed, and its patterns are short.
abbrev Kept : Time → ℤ → Silencer → Silencer → Type 0
Kept now chat_id before after =
    IsShort now after
    × ((other : ℤ) → (chat_id == other) ≡ false → get other after ≡ get other before)

AreShort-later : (t now : Time) (m : Patterns) → t ≤ now → AreShort t m → AreShort now m
AreShort-later t now [] le h = tt
AreShort-later t now ((p, e) ∷ m) le h = (omega (arith, h.0), AreShort-later t now m le h.1)

AreShort-put :
    (now : Time) (pattern : Text) (e : Time) (m : Patterns)
    → e ≤ now + hours 12
    → AreShort now m
    → AreShort now (put pattern e m)
unfolding put
AreShort-put now pattern e [] le h = (le, tt)
AreShort-put now pattern e ((p, w) ∷ m) le h = elim (Bool-cases (p == pattern)) [
  | inl same ↦ rw same (le, h.1)
  | inr differs ↦ rw differs (h.0, AreShort-put now pattern e m le h.1)
]

AreShort-delete :
    (now : Time) (pattern : Text) (m : Patterns) → AreShort now m → AreShort now (delete pattern m)
unfolding delete
AreShort-delete now pattern [] h = tt
AreShort-delete now pattern ((p, w) ∷ m) h = elim (Bool-cases (p == pattern)) [
  | inl same ↦ rw same (AreShort-delete now pattern m h.1)
  | inr differs ↦ rw differs (h.0, AreShort-delete now pattern m h.1)
]

AreShort-delete_if :
    (now : Time) (test : Time → Bool) (m : Patterns)
    → AreShort now m
    → AreShort now (delete_if test m)
unfolding delete_if
AreShort-delete_if now test [] h = tt
AreShort-delete_if now test ((p, w) ∷ m) h = elim (Bool-cases (test w)) [
  | inl e ↦ rw e (AreShort-delete_if now test m h.1)
  | inr e ↦ rw e (h.0, AreShort-delete_if now test m h.1)
]

Kept-refl : (now : Time) (chat_id : ℤ) (s : Silencer) → IsShort now s → Kept now chat_id s s
Kept-refl now chat_id s h = (h, λ other e. refl)

Kept-put :
    (now : Time) (chat_id : ℤ) (m : Patterns) (s : Silencer)
    → AreShort now m
    → IsShort now s
    → Kept now chat_id s (put chat_id m s)
Kept-put now chat_id m s short h = (
  λ other. elim (Bool-cases (chat_id == other)) [
    | inl e ↦ rw (get-put chat_id other m s, e) short
    | inr e ↦ rw (get-put chat_id other m s, e) (h other)
  ],
  λ other e. rw (get-put chat_id other m s, e) refl,
)

add-short :
    (now : Time) (d : Duration) → ltb_ℤ maximum_silence d ≡ false → add now d ≤ now + hours 12
unfolding add
add-short now (pos n) h = ground arith
add-short now (negsuc n) h = omega arith

store-Kept :
    (now : Time) (chat_id : ℤ) (pattern : Text) (d : Duration) (m : Patterns) (s : Silencer)
    → ltb_ℤ maximum_silence d ≡ false
    → AreShort now m
    → IsShort now s
    → Kept now chat_id s (store_pattern now chat_id pattern d m s).1
unfolding store_pattern
store-Kept now chat_id pattern d m s le short h =
    Kept-put now chat_id (put pattern (add now d) m) s
      (AreShort-put now pattern (add now d) m (add-short now d le) short) h

set_in_chat-Kept :
    (now : Time) (chat_id : ℤ) (pattern : Text) (d : Duration) (found : Option Patterns)
    (s : Silencer)
    → ltb_ℤ maximum_silence d ≡ false
    → AreShort now (patterns_of found)
    → IsShort now s
    → Kept now chat_id s (set_in_chat now chat_id pattern d found s).1
unfolding set_in_chat
set_in_chat-Kept now chat_id pattern d none s le short h =
    store-Kept now chat_id pattern d [] s le tt h
set_in_chat-Kept now chat_id pattern d (some patterns) s le short h =
    let live = delete_if (is_expired now) patterns in
    let live_short = AreShort-delete_if now (is_expired now) patterns short in
    elim (Bool-cases (ltb 50 (length (delete_if (is_expired now) patterns)))) [
      | inl full ↦ rw (full, set_in_chat) (Kept-put now chat_id live s live_short h)
      | inr room ↦ rw (room, set_in_chat) (store-Kept now chat_id pattern d live s le live_short h)
    ]

set-Kept :
    (now : Time) (chat_id : ℤ) (raw : Text) (d : Duration) (s : Silencer)
    → ltb_ℤ maximum_silence d ≡ false
    → IsShort now s
    → Kept now chat_id s (set_silence_pattern now chat_id raw d s).1
unfolding set_silence_pattern
set-Kept now chat_id raw d s le h =
    elim (Bool-cases (ltb (length (trim_space raw)) silent_pattern_minimum_length)) [
      | inl short ↦ rw (set_silence_pattern, short) (Kept-refl now chat_id s h)
      | inr long ↦
          rw (set_silence_pattern, long)
            (set_in_chat-Kept now chat_id (trim_space raw) d (get chat_id s) s le (h chat_id) h)
    ]

remove_in_chat-Kept :
    (now : Time) (chat_id : ℤ) (pattern : Text) (found : Option Patterns) (s : Silencer)
    → AreShort now (patterns_of found)
    → IsShort now s
    → Kept now chat_id s (remove_in_chat chat_id pattern found s).1
unfolding remove_in_chat
remove_in_chat-Kept now chat_id pattern none s short h = Kept-refl now chat_id s h
remove_in_chat-Kept now chat_id pattern (some m) s short h = elim (Option-cases (get pattern m)) [
  | inl missing ↦ rw (missing, remove_in_chat) (Kept-refl now chat_id s h)
  | inr (e, there) ↦
      rw (there, remove_in_chat)
        (Kept-put now chat_id (delete pattern m) s (AreShort-delete now pattern m short) h)
]

remove-Kept :
    (now : Time) (chat_id : ℤ) (raw : Text) (s : Silencer)
    → IsShort now s
    → Kept now chat_id s (remove_silence_pattern chat_id raw s).1
unfolding remove_silence_pattern
remove-Kept now chat_id raw s h = elim (Bool-cases (ltb (length (trim_space raw)) 1)) [
  | inl short ↦ rw (remove_silence_pattern, short) (Kept-refl now chat_id s h)
  | inr long ↦
      rw (remove_silence_pattern, long)
        (remove_in_chat-Kept now chat_id (trim_space raw) (get chat_id s) s (h chat_id) h)
]

-- A duration that the arguments ask for is at most twelve hours.
abbrev AsksShort : SilentArgs → Type 0
AsksShort (set d pattern) = ltb_ℤ maximum_silence d ≡ false
AsksShort _ = Unit

parsed-AsksShort : (pattern : Text) (o : Option Duration) → AsksShort (ask_parsed pattern o)
parsed-AsksShort pattern none = tt
parsed-AsksShort pattern (some d) = go (ltb_ℤ d (pos 0)) (ltb_ℤ maximum_silence d) refl
  where
    go :
        (negative long : Bool)
        → ltb_ℤ maximum_silence d ≡ long
        → AsksShort (
            if negative || long
            then refused (text "Duration must be positive and less than 12 hours!")
            else set d pattern)
    go true long e = tt
    go false true e = tt
    go false false e = e

parts-AsksShort : (tf : TimeFormat) (o : Option (Text × Text)) → AsksShort (ask_parts tf o)
parts-AsksShort tf none = tt
parts-AsksShort tf (some (part, rest)) = go ((part == text "0") || (part == text "0s"))
  where
    go :
        (removes : Bool)
        → AsksShort (
            if removes
            then remove (trim_space rest)
            else ask_parsed (trim_space rest) (tf.parse_duration part))
    go true = tt
    go false = parsed-AsksShort (trim_space rest) (tf.parse_duration part)

args-AsksShort : (tf : TimeFormat) (ctx : TelegramUpdateCtx) → AsksShort (read_silent_args tf ctx)
unfolding read_silent_args
args-AsksShort tf ctx = go (is_empty (trim_space ctx.command_args))
  where
    go :
        (lists : Bool)
        → AsksShort
            (if lists then list else ask_parts tf (cut (text " ") (trim_space ctx.command_args)))
    go true = tt
    go false = parts-AsksShort tf (cut (text " ") (trim_space ctx.command_args))

apply-Kept :
    (tf : TimeFormat) (error_text : SilenceError → Text) (now : Time) (chat_id : ℤ)
    (args : SilentArgs) (s : Silencer)
    → AsksShort args
    → IsShort now s
    → Kept now chat_id s (apply_silent tf error_text now chat_id args s).1
unfolding apply_silent
apply-Kept tf error_text now chat_id list s short h = Kept-refl now chat_id s h
apply-Kept tf error_text now chat_id (refused response) s short h = Kept-refl now chat_id s h
apply-Kept tf error_text now chat_id (remove pattern) s short h =
    remove-Kept now chat_id pattern s h
apply-Kept tf error_text now chat_id (set d pattern) s short h =
    set-Kept now chat_id pattern d s short h

-- `/silent` at `now`, when every stored pattern expires at most twelve hours after some earlier `t`:
-- afterwards every stored pattern expires at most twelve hours after `now`, and the patterns of any
-- other chat are as before.
pub silent-Kept :
    (tf : TimeFormat) (error_text : SilenceError → Text) (t now : Time) (ctx : TelegramUpdateCtx)
    (s : Silencer) (other : ℤ)
    → t ≤ now
    → IsShort t s
    → (ctx.chat_id == other) ≡ false
    → IsShort now (process_command_silent tf error_text now ctx s).1
      × (get other (process_command_silent tf error_text now ctx s).1 ≡ get other s)
unfolding process_command_silent
silent-Kept tf error_text t now ctx s other le h differs =
    let (short, others) =
      apply-Kept tf error_text now ctx.chat_id (read_silent_args tf ctx) s (args-AsksShort tf ctx)
        λ chat_id. AreShort-later t now (patterns_of (get chat_id s)) le (h chat_id) in
    (short, others other differs)
