-- ===== src/Logger.antt =====
-- base/logger.h and base/logger.cpp: which messages are written, the text of a line, and the end of
-- the program behind a fatal one. The output and flush functions are effects.
use reactor_kv.Prelude.{
  ℕ, ◌≡◌, refl, ap, ◌∙◌, Bool, true, false, Bool-cases, inl, inr, Option, Option-cases, ◌⊎◌, subst,
  some_injective, none, some, List, [], ◌∷◌, ◌++◌, leb, ◌==◌, if◌then◌else◌, arith,
}
use mathlib.Core.Path.{ap₂}
use reactor_kv.Bytes.{Bytes, bytes, Without}
use reactor_kv.Server.{to_string}
use reactor_kv.Timestamp.{Timestamp, Tm, padded, to_formatted_string}

-- LogLevel
pub data LogLevel : Type 0 where
  trace dbg info warn error fatal : LogLevel

abbrev pub number : LogLevel → ℕ
number LogLevel.trace = 0
number LogLevel.dbg = 1
number LogLevel.info = 2
number LogLevel.warn = 3
number LogLevel.error = 4
number LogLevel.fatal = 5

-- LogLevelName
unfoldable pub level_name : LogLevel → Bytes
level_name LogLevel.trace = bytes "TRACE "
level_name LogLevel.dbg = bytes "DEBUG "
level_name LogLevel.info = bytes "INFO  "
level_name LogLevel.warn = bytes "WARN  "
level_name LogLevel.error = bytes "ERROR "
level_name LogLevel.fatal = bytes "FATAL "

abbrev pub slash : ℕ
slash = b'/'

-- strrchr: the text behind the last slash, if there is one.
unfoldable pub behind_slash : Bytes → Option Bytes
behind_slash [] = none
behind_slash (c ∷ cs) = elim (behind_slash cs) [
  | some rest ↦ some rest
  | none ↦ if c == slash then some cs else none
]

-- getBaseName
unfoldable pub base_name : Bytes → Bytes
unfolding behind_slash
base_name file = elim (behind_slash file) [ none ↦ file | some rest ↦ rest ]

-- t_cachedTid and t_tidString of a thread, which start as zero and empty.
pub record CurrentThread : Type 0 where
  pub cached_tid : ℕ
  pub tid_text : Bytes

abbrev pub new_thread : CurrentThread
new_thread = record { cached_tid = 0; tid_text = [] }

-- CurrentThread::cacheTid, with what gettid returns.
unfoldable pub cache_tid : ℕ → CurrentThread → CurrentThread
unfolding padded
cache_tid id c =
    if c.cached_tid == 0 then record { cached_tid = id; tid_text = padded b' ' 5 id } else c

-- CurrentThread::tid
unfoldable pub tid : ℕ → CurrentThread → ℕ × CurrentThread
unfolding cache_tid
tid id c = let d = if c.cached_tid == 0 then cache_tid id c else c in (d.cached_tid, d)

-- CurrentThread::tidString, which does not fill the text in.
abbrev pub tid_string : CurrentThread → Bytes
tid_string c = c.tid_text

-- Where a macro stands, when, in which thread, and what is written into its stream.
pub record Message : Type 0 where
  pub level : LogLevel
  pub file : Bytes
  pub line : ℕ
  pub func : Bytes
  pub time : Timestamp
  pub thread : CurrentThread
  pub text : Bytes

-- LOG_TRACE and LOG_DEBUG name the function.
abbrev pub names_func : LogLevel → Bool
names_func LogLevel.trace = true
names_func LogLevel.dbg = true
names_func _ = false

-- The test of LOG_TRACE, LOG_DEBUG and LOG_INFO; the other macros have none.
abbrev pub is_logged : LogLevel → LogLevel → Bool
is_logged g LogLevel.trace = leb (number g) 0
is_logged g LogLevel.dbg = leb (number g) 1
is_logged g LogLevel.info = leb (number g) 2
is_logged g _ = true

-- What the constructor writes.
unfoldable pub prefix : (ℕ → Tm) → Message → Bytes
unfolding to_formatted_string level_name
prefix gmtime m =
    to_formatted_string gmtime true m.time
    ++ bytes " "
    ++ tid_string m.thread
    ++ bytes " "
    ++ level_name m.level
    ++ (if names_func m.level then m.func ++ bytes " " else [])

-- finish
unfoldable pub suffix : Message → Bytes
unfolding base_name to_string
suffix m = bytes " - " ++ base_name m.file ++ bytes ":" ++ to_string m.line ++ (b'\n' ∷ [])

pub data Effect : Type 0 where
  output : Bytes → Effect
  flush abort : Effect

abbrev pub is_fatal : LogLevel → Bool
is_fatal LogLevel.fatal = true
is_fatal _ = false

-- A macro with what is put into its stream: the constructor, the text, and the destructor.
unfoldable pub log : (ℕ → Tm) → LogLevel → Message → List Effect
unfolding prefix suffix
log gmtime g m =
    if is_logged g m.level
    then output (prefix gmtime m ++ m.text ++ suffix m)
      ∷ (if is_fatal m.level then flush ∷ abort ∷ [] else [])
    else []

-- The messages of a program, which ends with an abort.
unfoldable pub log_all : (ℕ → Tm) → LogLevel → List Message → List Effect
unfolding log
log_all gmtime g [] = []
log_all gmtime g (m ∷ ms) = elim (is_fatal m.level) [
  | true ↦ log gmtime g m
  | false ↦ log gmtime g m ++ log_all gmtime g ms
]

behind_slash-none : (f : Bytes) → behind_slash f ≡ none → Without slash f
unfolding behind_slash
behind_slash-none [] e = tt
behind_slash-none (c ∷ cs) e = ground (arith, behind_slash-none cs)

behind_slash-some :
    (f r : Bytes) → behind_slash f ≡ some r → Without slash r × ((d : Bytes) × (f ≡ d ++ slash ∷ r))
unfolding behind_slash
behind_slash-some [] r e = cc
behind_slash-some (c ∷ cs) r e = elim (Option-cases (behind_slash cs)) [
  | inr (q, h) ↦
      let k = some_injective q r (rw h at e) in
      let (w, (d, g)) = behind_slash-some cs q h in
      (subst (Without slash) k w, (c ∷ d, ap (λ t. c ∷ t) (g ∙ ap (λ t. d ++ slash ∷ t) k)))
  | inl h ↦ elim (Bool-cases (c == slash)) [
    | inl p ↦
        let k = some_injective cs r (rw (h, p) at e) in
        let z : c ≡ slash = ground arith in
        (subst (Without slash) k (behind_slash-none cs h), ([], ap₂ (λ x t. x ∷ t) z k))
    | inr p ↦ cc (rw (h, p) at e)
  ]
]

-- getBaseName is what stands behind the last slash of the path.
pub base_name_lem :
    (f : Bytes)
    → Without slash (base_name f)
      × ((base_name f ≡ f) ⊎ ((d : Bytes) × (f ≡ d ++ slash ∷ base_name f)))
unfolding base_name
base_name_lem f = elim (Option-cases (behind_slash f)) [
  | inl e ↦ rw (base_name, e) (behind_slash-none f e, inl refl)
  | inr (r, e) ↦ let (w, (d, q)) = behind_slash-some f r e in rw (base_name, e) (w, inr (d, q))
]
