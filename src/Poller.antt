-- ===== src/Poller.antt =====
-- net/epoll_poller.cpp: a channel's registration with epoll.
pub mod Registration
use reactor_kv.Prelude.{
  ℕ, ◌+◌, ◌*◌, Bool, true, false, ◌&&◌, ◌==◌, if◌then◌else◌, Option, none, some, List, [], ◌∷◌,
  ◌++◌, length, ltb,
}
use reactor_kv.Channel.{Events, no_events, is_none_event}

-- kNew, kAdded and kDeleted
pub data Index : Type 0 where
  new added deleted : Index

-- A channel, as the poller knows it.
pub record Channel : Type 0 where
  pub address : ℕ
  pub fd : ℕ
  pub events : Events
  pub index : Index

-- A call of epoll_ctl, for the poller's own descriptor. The events carry EPOLLET besides.
pub data Ctl : Type 0 where
  add : ℕ → Events → Ctl
  modify : ℕ → Events → Ctl
  del : ℕ → Ctl

-- channels_, from descriptors to the addresses of channels, and the calls of epoll_ctl so far, the first one first.
pub record Poller : Type 0 where
  pub channels : List (ℕ × ℕ)
  pub calls : List Ctl

abbrev update : Ctl → Poller → Poller
update call p = record p { calls = p.calls ++ call ∷ [] }

-- std::map::erase and find by descriptor
unfoldable pub erase_fd : ℕ → List (ℕ × ℕ) → List (ℕ × ℕ)
erase_fd fd [] = []
erase_fd fd (x ∷ xs) = let rest = erase_fd fd xs in if x.0 == fd then rest else x ∷ rest

unfoldable pub find_fd : ℕ → List (ℕ × ℕ) → Option ℕ
find_fd fd [] = none
find_fd fd (x ∷ xs) = if x.0 == fd then some x.1 else find_fd fd xs

-- updateChannel
unfoldable pub update_channel : Channel → Poller → Channel × Poller
unfolding erase_fd
update_channel c p = elim c.index [
  | new ↦ (
    record c { index = Index.added },
    update (Ctl.add c.fd c.events)
        (record p { channels = (c.fd, c.address) ∷ erase_fd c.fd p.channels }),
  )
  | deleted ↦ (record c { index = Index.added }, update (Ctl.add c.fd c.events) p)
  | added ↦
      if is_none_event c.events
      then (record c { index = Index.deleted }, update (Ctl.del c.fd) p)
      else (c, update (Ctl.modify c.fd c.events) p)
]

-- removeChannel
unfoldable pub remove_channel : Channel → Poller → Channel × Poller
unfolding erase_fd
remove_channel c p =
    let q = record p { channels = erase_fd c.fd p.channels } in
    (
      record c { index = Index.new },
      elim c.index [ new ↦ q | deleted ↦ q | added ↦ update (Ctl.del c.fd) q ],
    )

-- hasChannel of net/poller.cpp
unfoldable pub has_channel : Channel → Poller → Bool
unfolding find_fd
has_channel c p = elim (find_fd c.fd p.channels) [ none ↦ false | some a ↦ a == c.address ]

-- poll and fillActiveChannels: the channels with their revents, and the size of events_, which is
-- doubled when it was full. none is a failure of epoll_wait.
unfoldable pub poll : ℕ → Option (List (ℕ × Events)) → List (ℕ × Events) × ℕ
poll table none = ([], table)
poll table (some got) =
    (got, if ltb 0 (length got) && length got == table then table * 2 else table)
