-- ===== src/Poller/Registration.antt =====
-- net/epoll_poller.cpp: a channel's index against what epoll_ctl has done for its descriptor.
use reactor_kv.Prelude.{
  ℕ, ◌≡◌, refl, ◌∙◌, Bool-cases, inl, inr, ◌==◌, if◌then◌else◌, Option, none, some, List, [], ◌∷◌,
  ◌++◌, arith, ◌>>=◌, Option-cases,
}
use reactor_kv.Channel.{Events, is_none_event}
use reactor_kv.Poller.{
  Index, new, added, deleted, Channel, Ctl, Poller, update_channel, remove_channel,
}

-- epoll_ctl as documented, for one descriptor: ADD fails where it is registered (EEXIST), MOD and
-- DEL where it is not (ENOENT). none is a failure.
pub ctl : ℕ → Ctl → Option Events → Option (Option Events)
ctl fd (Ctl.add x e) held =
    if x == fd then elim held [ none ↦ some (some e) | some _ ↦ none ] else some held
ctl fd (Ctl.modify x e) held =
    if x == fd then elim held [ none ↦ none | some _ ↦ some (some e) ] else some held
ctl fd (Ctl.del x) held =
    if x == fd then elim held [ none ↦ none | some _ ↦ some none ] else some held

-- What is registered for the descriptor after the calls.
unfoldable pub kernel : ℕ → List Ctl → Option Events → Option (Option Events)
kernel fd [] held = some held
kernel fd (c ∷ cs) held = do held' ← ctl fd c held; kernel fd cs held'

-- What the index says is registered.
unfoldable pub interest : Index → Events → Option Events
interest new e = none
interest added e = some e
interest deleted e = none

kernel-append :
    (fd : ℕ) (cs ds : List Ctl) (held : Option Events)
    → kernel fd (cs ++ ds) held ≡ (kernel fd cs held >>= kernel fd ds)
unfolding kernel
kernel-append fd [] ds held = refl
kernel-append fd (c ∷ cs) ds held = elim (Option-cases (ctl fd c held)) [
  | inl n ↦ rw n
  | inr (now, n) ↦ rw n (kernel-append fd cs ds now)
]

kernel-call :
    (fd : ℕ) (cs : List Ctl) (c : Ctl) (now now' : Option Events)
    → kernel fd cs none ≡ some now
    → ctl fd c now ≡ some now'
    → kernel fd (cs ++ c ∷ []) none ≡ some now'
unfolding kernel
kernel-call fd cs c now now' h e = kernel-append fd cs (c ∷ []) none ∙ rw (h, e)

-- What TcpConnection and Acceptor do with their channel.
pub data Op : Type 0 where
  update : Events → Op
  remove : Op

pub apply : Op → Channel → Poller → Channel × Poller
apply (update e) c p = update_channel (record c { events = e }) p
apply remove c p = remove_channel c p

pub apply_all : List Op → Channel → Poller → Channel × Poller
apply_all [] c p = (c, p)
apply_all (o ∷ os) c p = let r = apply o c p in apply_all os r.0 r.1

abbrev IsRegistered : Channel → Poller → Type 0
IsRegistered c p = kernel c.fd p.calls none ≡ some (interest c.index c.events)

abbrev channel : ℕ → ℕ → Index → Events → Channel
channel address fd i e = record { address = address; fd = fd; index = i; events = e }

update_lem :
    (e now : Events) (address fd : ℕ) (i : Index) (p : Poller)
    → kernel fd p.calls none ≡ some (interest i now)
    → let r = update_channel (channel address fd i e) p in IsRegistered r.0 r.1
unfolding update_channel ctl interest
update_lem e now address fd new p h =
    kernel-call fd p.calls (Ctl.add fd e) none (some e) h (ground arith)
update_lem e now address fd deleted p h =
    kernel-call fd p.calls (Ctl.add fd e) none (some e) h (ground arith)
update_lem e now address fd added p h = elim (Bool-cases (is_none_event e)) [
  | inl n ↦ rw n (kernel-call fd p.calls (Ctl.del fd) (some now) none h (ground arith))
  | inr n ↦ rw n (kernel-call fd p.calls (Ctl.modify fd e) (some now) (some e) h (ground arith))
]

remove_lem :
    (e : Events) (address fd : ℕ) (i : Index) (p : Poller)
    → kernel fd p.calls none ≡ some (interest i e)
    → let r = remove_channel (channel address fd i e) p in IsRegistered r.0 r.1
unfolding remove_channel ctl interest
remove_lem e address fd new p h = h
remove_lem e address fd deleted p h = h
remove_lem e address fd added p h =
    kernel-call fd p.calls (Ctl.del fd) (some e) none h (ground arith)

apply-IsRegistered :
    (o : Op) (c : Channel) (p : Poller)
    → IsRegistered c p
    → IsRegistered (apply o c p).0 (apply o c p).1
unfolding apply
apply-IsRegistered (update e) c p h = update_lem e c.events c.address c.fd c.index p h
apply-IsRegistered remove c p h = remove_lem c.events c.address c.fd c.index p h

-- However a channel is updated and removed, no call of epoll_ctl for its descriptor fails, and the
-- descriptor is registered exactly where the channel's index is kAdded, with the channel's events.
pub apply_all-IsRegistered :
    (os : List Op) (c : Channel) (p : Poller)
    → kernel c.fd p.calls none ≡ some (interest c.index c.events)
    → let r = apply_all os c p in
      kernel r.0.fd r.1.calls none ≡ some (interest r.0.index r.0.events)
unfolding apply_all
apply_all-IsRegistered [] c p h = h
apply_all-IsRegistered (o ∷ os) c p h =
    apply_all-IsRegistered os (apply o c p).0 (apply o c p).1 (apply-IsRegistered o c p h)
