-- ===== src/Client/Prompt.antt =====
-- client/main.cpp: the lines typed at the prompt, the calls that they make and what is printed.
pub mod Typed
pub mod Refine
use reactor_kv.Prelude.{
  ℤ, pos, negsuc, ℕ, suc, ◌+◌, Bool, true, false, not, ◌&&◌, ◌||◌, if◌then◌else◌, ◌==◌, Option,
  none, some, List, [], ◌∷◌, ◌++◌, ◌>>=◌,
}
use reactor_kv.Bytes.{Bytes, bytes, equal, is_empty}
use reactor_kv.Codec.{is_space, skip_spaces, to_upper}
use reactor_kv.Server.{to_string}
use reactor_kv.Client
use reactor_kv.Client.{Client, Exchange, Dial, connect}
use reactor_kv.Client.Commands.{Call}
use reactor_kv.Client.Session.{Reply, flag, text, number}

-- The characters up to the first space, and the rest.
unfoldable pub word : Bytes → Bytes × Bytes
word [] = ([], [])
word (c ∷ cs) = let r = word cs in if is_space c then ([], c ∷ cs) else (c ∷ r.0, r.1)

-- iss >> word
unfoldable pub next_word : Bytes → Bytes × Bytes
unfolding word skip_spaces
next_word line = word (skip_spaces line)

-- value.substr(find_first_not_of(" \t")), or value where nothing else is there
unfoldable pub strip_blanks : Bytes → Bytes
strip_blanks value = let rest = strip value in if is_empty rest then value else rest
  where
    strip : Bytes → Bytes
    strip [] = []
    strip (c ∷ cs) = let rest = strip cs in if c == 32 || c == 9 then rest else c ∷ cs

-- What a line asks for.
pub data Entry : Type 0 where
  blank quit help : Entry
  run : Call → Entry
  usage : Bytes → Entry
  unknown : Bytes → Entry

-- A command with a key, or its usage.
abbrev pub keyed : Bytes → (Bytes → Call) → Bytes → Entry
keyed name f rest =
    let key = (next_word rest).0 in
    if is_empty key then Entry.usage (name ++ bytes " key") else Entry.run (f key)

abbrev pub put_entry : Bytes → Entry
put_entry rest =
    let r = next_word rest in
    let value = strip_blanks r.1 in
    if is_empty r.0 || is_empty value
    then Entry.usage (bytes "PUT key value")
    else Entry.run (Call.put r.0 value)

-- The tests of the loop on the command.
pub data Verb : Type 0 where
  quit help ping put get del exists size clear other : Verb

-- The command, in upper case.
unfoldable pub verb_of : Bytes → Verb
unfolding equal
verb_of cmd =
    if equal cmd (bytes "QUIT") || equal cmd (bytes "EXIT")
    then Verb.quit
    else if equal cmd (bytes "HELP")
    then Verb.help
    else if equal cmd (bytes "PING")
    then Verb.ping
    else if equal cmd (bytes "PUT") || equal cmd (bytes "SET")
    then Verb.put
    else if equal cmd (bytes "GET")
    then Verb.get
    else if equal cmd (bytes "DEL") || equal cmd (bytes "DELETE")
    then Verb.del
    else if equal cmd (bytes "EXISTS")
    then Verb.exists
    else if equal cmd (bytes "SIZE") || equal cmd (bytes "DBSIZE")
    then Verb.size
    else if equal cmd (bytes "CLEAR") || equal cmd (bytes "FLUSHDB")
    then Verb.clear
    else Verb.other

-- The branches of the loop, with the rest of the line.
unfoldable pub entry_of : Verb → Bytes → Bytes → Entry
unfolding next_word strip_blanks
entry_of Verb.quit cmd rest = Entry.quit
entry_of Verb.help cmd rest = Entry.help
entry_of Verb.ping cmd rest = Entry.run Call.ping
entry_of Verb.put cmd rest = put_entry rest
entry_of Verb.get cmd rest = keyed (bytes "GET") Call.get rest
entry_of Verb.del cmd rest = keyed (bytes "DEL") Call.del rest
entry_of Verb.exists cmd rest = keyed (bytes "EXISTS") Call.exists rest
entry_of Verb.size cmd rest = Entry.run Call.size
entry_of Verb.clear cmd rest = Entry.run Call.clear
entry_of Verb.other cmd rest = Entry.unknown cmd

unfoldable pub read_entry : Bytes → Entry
unfolding entry_of verb_of next_word to_upper
read_entry [] = Entry.blank
read_entry (c ∷ cs) =
    let r = next_word (c ∷ cs) in let cmd = to_upper r.0 in entry_of (verb_of cmd) cmd r.1

abbrev newline : Bytes
newline = b'\n' ∷ []

abbrev error : Bytes → Bytes
error message = bytes "(error) " ++ message ++ newline

abbrev done : Bool → Bytes → Bytes → Bytes
done ok message last_error = if ok then message ++ newline else error last_error

-- std::cout of an int.
abbrev decimal : ℤ → Bytes
decimal (pos n) = to_string n
decimal (negsuc n) = b'-' ∷ to_string (suc n)

abbrev integer : ℤ → Bytes
integer n = bytes "(integer) " ++ decimal n ++ newline

-- What is printed of a call's result, with lastError() after it.
unfoldable pub print_reply : Call → Reply → Bytes → Bytes
unfolding to_string
print_reply Call.ping (flag ok) last_error = done ok (bytes "PONG") last_error
print_reply (Call.put key value) (flag ok) last_error = done ok (bytes "OK") last_error
print_reply (Call.get key) (text ok value) last_error =
    if ok then b'"' ∷ value ++ b'"' ∷ newline else bytes "(nil)" ++ newline
print_reply (Call.del key) (flag ok) last_error = integer (if ok then pos 1 else pos 0)
print_reply (Call.exists key) (flag ok) last_error = integer (if ok then pos 1 else pos 0)
print_reply Call.size (number ok n) last_error = if ok then integer n else error last_error
print_reply Call.clear (flag ok) last_error = done ok (bytes "OK") last_error
print_reply _ _ last_error = []

-- printHelp
unfoldable pub print_help : Bytes
print_help =
    newline
    ++ bytes "Available commands:"
    ++ newline
    ++ bytes "  PUT key value   - Store a key-value pair"
    ++ newline
    ++ bytes "  GET key         - Get value by key"
    ++ newline
    ++ bytes "  DEL key         - Delete a key"
    ++ newline
    ++ bytes "  EXISTS key      - Check if key exists"
    ++ newline
    ++ bytes "  SIZE            - Get number of stored keys"
    ++ newline
    ++ bytes "  CLEAR           - Clear all data"
    ++ newline
    ++ bytes "  PING            - Test server connection"
    ++ newline
    ++ bytes "  QUIT            - Exit the client"
    ++ newline
    ++ bytes "  HELP            - Show this help"
    ++ newline
    ++ newline

abbrev prompt : Bytes
prompt = bytes "reactorkv> "

-- What is printed where no call is made.
unfoldable pub print_entry : Entry → Bytes
unfolding print_help
print_entry Entry.blank = prompt
print_entry Entry.quit = bytes "Bye!" ++ newline
print_entry Entry.help = print_help ++ prompt
print_entry (Entry.usage u) = error (bytes "Usage: " ++ u) ++ prompt
print_entry (Entry.unknown cmd) =
    error (bytes "Unknown command '" ++ cmd ++ bytes "'. Type HELP for available commands.")
    ++ prompt
print_entry (Entry.run k) = []

abbrev pub is_quit : Entry → Bool
is_quit Entry.quit = true
is_quit _ = false

-- How main begins: with an exit status of 1, or with the loop.
pub data Start : Type 0 where
  failed : Bytes → Start
  ready : Start

unfoldable pub start : Bytes → Dial → Exchange → Client → Start × Client
unfolding connect Client.ping
start host d x c =
    let r = connect host d c in
    let p = Client.ping x r.1 in
    if not r.0
    then (Start.failed (bytes "Failed to connect: " ++ r.1.last_error), r.1)
    else if not p.0
    then (Start.failed (bytes "Server not responding"), p.1)
    else (Start.ready, p.1)

-- The loop over the lines, where `ask` makes a call: its reply, lastError() and what it leaves.
module _ {S : Type 0} (ask : Call → S → Option (Reply × Bytes × S)) where
  unfoldable pub enter : Entry → S → Option (Bytes × S)
  unfolding print_entry print_reply
  enter (Entry.run k) s = do
    (reply, last_error, s') ← ask k s
    some (print_reply k reply last_error ++ prompt, s')
  enter e s = some (print_entry e, s)

  -- The texts printed, one for each line up to the first QUIT.
  unfoldable pub prompt_loop : List Bytes → S → Option (List Bytes × S)
  unfolding read_entry enter
  prompt_loop [] s = some ([], s)
  prompt_loop (line ∷ lines) s = do
    (out, s') ← enter (read_entry line) s
    elim (is_quit (read_entry line)) [
      | true ↦ some (out ∷ [], s')
      | false ↦ do (outs, s'') ← prompt_loop lines s'; some (out ∷ outs, s'')
    ]
