-- ===== src/Channel.antt =====
-- net/channel.h and net/channel.cpp: the events a descriptor waits for, and which handler an event
-- calls. An event mask is the record of its bits.
use reactor_kv.Prelude.{Bool, true, false, ◌&&◌, ◌||◌, not, if◌then◌else◌, List, [], ◌∷◌, ◌++◌}

-- EPOLLIN, EPOLLPRI, EPOLLOUT, EPOLLERR, EPOLLHUP and EPOLLRDHUP
pub record Events : Type 0 where
  pub input : Bool
  pub pri : Bool
  pub output : Bool
  pub err : Bool
  pub hup : Bool
  pub rdhup : Bool

-- kNoneEvent
abbrev pub no_events : Events
no_events = record {
  input = false;
  pri = false;
  output = false;
  err = false;
  hup = false;
  rdhup = false;
}

-- events_ |= kReadEvent, and the others that enable and disable.
abbrev pub with_reading : Events → Events
with_reading e = record e { input = true; pri = true }

abbrev pub without_reading : Events → Events
without_reading e = record e { input = false; pri = false }

abbrev pub with_writing : Events → Events
with_writing e = record e { output = true }

abbrev pub without_writing : Events → Events
without_writing e = record e { output = false }

abbrev pub is_writing : Events → Bool
is_writing e = e.output

abbrev pub is_reading : Events → Bool
is_reading e = e.input || e.pri

abbrev pub is_none_event : Events → Bool
is_none_event e = not (e.input || e.pri || e.output || e.err || e.hup || e.rdhup)

pub data Callback : Type 0 where
  close error read write : Callback

-- Which callbacks are set.
pub record Callbacks : Type 0 where
  pub has_close : Bool
  pub has_error : Bool
  pub has_read : Bool
  pub has_write : Bool

abbrev call_if : Bool → Callback → List Callback
call_if asked c = if asked then c ∷ [] else []

-- handleEventWithGuard: the callbacks called, in their order.
unfoldable pub handle_event_with_guard : Callbacks → Events → List Callback
handle_event_with_guard set revents =
    call_if (revents.hup && not revents.input && set.has_close) Callback.close
    ++ call_if (revents.err && set.has_error) Callback.error
    ++ call_if ((revents.input || revents.pri || revents.rdhup) && set.has_read) Callback.read
    ++ call_if (revents.output && set.has_write) Callback.write

-- handleEvent: `alive` is whether tie_.lock() still finds the tied object.
unfoldable pub handle_event : Bool → Bool → Callbacks → Events → List Callback
unfolding handle_event_with_guard
handle_event tied alive set revents =
    if tied
    then (if alive then handle_event_with_guard set revents else [])
    else handle_event_with_guard set revents
