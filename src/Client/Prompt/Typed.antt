-- ===== src/Client/Prompt/Typed.antt =====
-- The lines typed at the prompt of client/main.cpp: a key that it reads is a word.
use reactor_kv.Prelude.{
  ◌≤◌, ◌≡◌, Bool, true, false, Bool-cases, inl, inr, if◌then◌else◌, [], ◌∷◌, length, All, ◌||◌,
}
use reactor_kv.Bytes.{Bytes, bytes, bytes_order, is_empty}
use reactor_kv.Codec.{is_space, skip_spaces, to_upper}
use reactor_kv.Codec.Lines.{IsWord}
use reactor_kv.Client.Commands.{Call, IsSendable, IsSafeKey, IsPlainValue}
use reactor_kv.Client.Session.Carried.{IsShort}
use reactor_kv.Client.Prompt.{
  word, next_word, Entry, entry_of, read_entry, keyed, put_entry, Verb, verb_of, strip_blanks,
}

word-solid : (line : Bytes) → All (λ c. is_space c ≡ false) (word line).0
unfolding word
word-solid [] = tt
word-solid (c ∷ cs) = elim (Bool-cases (is_space c)) [
  | inl e ↦ rw e tt
  | inr e ↦ rw e (e, word-solid cs)
]

-- The keys that can be sent are words.
unfoldable pub AsksWord : Entry → Type 0
AsksWord (Entry.run (Call.get key)) = IsWord key
AsksWord (Entry.run (Call.del key)) = IsWord key
AsksWord (Entry.run (Call.exists key)) = IsWord key
AsksWord _ = Unit

keyed-AsksWord :
    (name : Bytes) (f : Bytes → Call) (rest : Bytes)
    → ((key : Bytes) → IsWord key → AsksWord (Entry.run (f key)))
    → AsksWord (keyed name f rest)
unfolding AsksWord next_word
keyed-AsksWord name f rest h = elim (Bool-cases (is_empty (next_word rest).0)) [
  | inl e ↦ rw e tt
  | inr e ↦ rw e (h _ (record { some_byte = e; solid = word-solid (skip_spaces rest) }))
]

put_entry-AsksWord : (rest : Bytes) → AsksWord (put_entry rest)
unfolding AsksWord next_word
put_entry-AsksWord rest =
    by_test (is_empty (next_word rest).0 || is_empty (strip_blanks (next_word rest).1))
  where
    by_test :
        (b : Bool)
        → AsksWord (
            if b
            then Entry.usage (bytes "PUT key value")
            else Entry.run (Call.put (next_word rest).0 (strip_blanks (next_word rest).1)))
    by_test true = tt
    by_test false = tt

entry_of-AsksWord : (v : Verb) (cmd rest : Bytes) → AsksWord (entry_of v cmd rest)
unfolding AsksWord entry_of
entry_of-AsksWord Verb.quit cmd rest = tt
entry_of-AsksWord Verb.help cmd rest = tt
entry_of-AsksWord Verb.ping cmd rest = tt
entry_of-AsksWord Verb.put cmd rest = put_entry-AsksWord rest
entry_of-AsksWord Verb.get cmd rest = keyed-AsksWord (bytes "GET") Call.get rest (λ k w. w)
entry_of-AsksWord Verb.del cmd rest = keyed-AsksWord (bytes "DEL") Call.del rest (λ k w. w)
entry_of-AsksWord Verb.exists cmd rest = keyed-AsksWord (bytes "EXISTS") Call.exists rest (λ k w. w)
entry_of-AsksWord Verb.size cmd rest = tt
entry_of-AsksWord Verb.clear cmd rest = tt
entry_of-AsksWord Verb.other cmd rest = tt

-- What a put has to meet for a command line to carry it.
unfoldable pub IsTyped : Entry → Type 0
IsTyped (Entry.run (Call.put key value)) =
    IsSafeKey key × IsPlainValue value × (length value ≤ 4089)
IsTyped _ = Unit

pub typed-IsSendable :
    (k : Call) → AsksWord (Entry.run k) → IsTyped (Entry.run k) → IsSendable k × IsShort k
unfolding AsksWord IsTyped IsSendable IsShort
typed-IsSendable (Call.put key value) a t = ((t.0, t.1), t.2)
typed-IsSendable (Call.get key) a t = (a, tt)
typed-IsSendable (Call.del key) a t = (a, tt)
typed-IsSendable (Call.exists key) a t = (a, tt)
typed-IsSendable Call.size a t = (tt, tt)
typed-IsSendable Call.clear a t = (tt, tt)
typed-IsSendable Call.ping a t = (tt, tt)

pub read_entry-AsksWord : (line : Bytes) → AsksWord (read_entry line)
unfolding AsksWord read_entry
read_entry-AsksWord [] = tt
read_entry-AsksWord (c ∷ cs) =
    let r = next_word (c ∷ cs) in entry_of-AsksWord (verb_of (to_upper r.0)) (to_upper r.0) r.1
