-- ===== src/Acceptor.antt =====
-- net/acceptor.cpp: the listening socket and its channel, and what becomes of a descriptor that accept
-- returns.
use reactor_kv.Prelude.{
  ℕ, ◌≡◌, refl, ap, ◌∙◌, Bool, true, false, if◌then◌else◌, Bool-cases, inl, inr, List, [], ◌∷◌,
  ◌++◌,
}
use reactor_kv.Channel.{Events, no_events, with_reading}

pub record Acceptor : Type 0 where
  pub events : Events
  pub listening : Bool
  pub has_new_connection_callback : Bool

-- What the acceptor asks of its channel, of the system and of its owner.
pub data Effect : Type 0 where
  update_channel : Events → Effect
  remove_channel listen_socket log_failed log_exhausted : Effect
  new_connection close : ℕ → Effect

-- What accept returns: a descriptor, EMFILE, or another error.
pub data Accepted : Type 0 where
  descriptor : ℕ → Accepted
  exhausted failed : Accepted

-- The constructor.
unfoldable pub create : Acceptor
create = record { events = no_events; listening = false; has_new_connection_callback = false }

-- ~Acceptor: disableAll and remove.
unfoldable pub destroy : Acceptor → List Effect × Acceptor
destroy a = (update_channel no_events ∷ remove_channel ∷ [], record a { events = no_events })

unfoldable pub listen : Acceptor → List Effect × Acceptor
listen a =
    let e = with_reading a.events in
    (listen_socket ∷ update_channel e ∷ [], record a { listening = true; events = e })

unfoldable pub handle_read : Accepted → Acceptor → List Effect
handle_read (descriptor fd) a =
    if a.has_new_connection_callback then new_connection fd ∷ [] else close fd ∷ []
handle_read exhausted a = log_failed ∷ log_exhausted ∷ []
handle_read failed a = log_failed ∷ []

pub data Call : Type 0 where
  call_listen call_destroy set_new_connection_callback : Call
  call_read : Accepted → Call

unfoldable pub run : List Call → Acceptor → List Effect
unfolding listen destroy handle_read
run [] a = []
run (call_listen ∷ cs) a = let r = listen a in let later = run cs r.1 in r.0 ++ later
run (call_destroy ∷ cs) a = let r = destroy a in let later = run cs r.1 in r.0 ++ later
run (set_new_connection_callback ∷ cs) a = run cs (record a { has_new_connection_callback = true })
run (call_read got ∷ cs) a = let later = run cs a in handle_read got a ++ later

-- The descriptors that have left the acceptor, handed on or closed.
unfoldable pub settled : List Effect → List ℕ
settled [] = []
settled (new_connection fd ∷ es) = fd ∷ settled es
settled (close fd ∷ es) = fd ∷ settled es
settled (_ ∷ es) = settled es

unfoldable pub accepted : List Call → List ℕ
accepted [] = []
accepted (call_read (descriptor fd) ∷ cs) = fd ∷ accepted cs
accepted (_ ∷ cs) = accepted cs

handle_read-settled :
    (fd : ℕ) (a : Acceptor) (es : List Effect)
    → settled (handle_read (descriptor fd) a ++ es) ≡ fd ∷ settled es
unfolding settled handle_read
handle_read-settled fd a es = elim (Bool-cases a.has_new_connection_callback) [
  | inl e ↦ rw e refl
  | inr e ↦ rw e refl
]

-- Whatever the calls, every descriptor that accept returns is handed to the callback or closed, once
-- and in order, so that none leaks.
pub run-settled : (cs : List Call) (a : Acceptor) → settled (run cs a) ≡ accepted cs
unfolding run settled accepted listen destroy handle_read
run-settled [] a = refl
run-settled (call_listen ∷ cs) a = run-settled cs (listen a).1
run-settled (call_destroy ∷ cs) a = run-settled cs (destroy a).1
run-settled (set_new_connection_callback ∷ cs) a =
    run-settled cs (record a { has_new_connection_callback = true })
run-settled (call_read (descriptor fd) ∷ cs) a =
    handle_read-settled fd a (run cs a) ∙ ap (λ t. fd ∷ t) (run-settled cs a)
run-settled (call_read exhausted ∷ cs) a = run-settled cs a
run-settled (call_read failed ∷ cs) a = run-settled cs a
