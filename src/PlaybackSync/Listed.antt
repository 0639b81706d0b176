-- ===== src/PlaybackSync/Listed.antt =====
-- crates/server/src/playback_sync.rs: the two maps of a room have the same devices.
use alac_bot.Prelude.{
  ℕ, ◌≡◌, refl, Bool, true, false, Option, none, some, List, [], ◌∷◌, arith, ◌==◌, if◌then◌else◌,
  Bool-cases, inl, inr,
}
use alac_bot.PlaybackSync.{
  ConnectedDeviceInfo, ClientMessage, SyncRoom, find_key, remove_key, insert_key, is_some,
  remove_device_connection, leave_previous, enter, same_device, handle_message, disconnect, System,
  Event, open_socket, receive, close, step, system_after,
}
use ClientMessage.{hello, report_state, command, transfer_playback}
use Event.{opened, closed, received}

module _ {ℓ} {A : Type ℓ} where
  pub find_key-remove_key :
      (k j : ℕ) (es : List (ℕ × A))
      → find_key j (remove_key k es) ≡ (if k == j then none else find_key j es)
  unfolding find_key remove_key
  find_key-remove_key k j [] = ground arith
  find_key-remove_key k j (e ∷ es) = ground (arith, find_key-remove_key k j es)

  pub find_key-insert_key :
      (k j : ℕ) (v : A) (es : List (ℕ × A))
      → find_key j (insert_key k v es) ≡ (if k == j then some v else find_key j es)
  unfolding find_key
  find_key-insert_key k j v es = ground (arith, find_key-remove_key k j es)

-- The devices that are listed are those that have a connection.
abbrev pub IsMatched : SyncRoom → Type 0
IsMatched room =
    (d : ℕ) → is_some (find_key d room.devices) ≡ is_some (find_key d room.device_connections)

remove_device_connection-IsMatched :
    (room : SyncRoom) (k c : ℕ) → IsMatched room → IsMatched (remove_device_connection room k c).0
unfolding remove_device_connection
remove_device_connection-IsMatched room k c h d = ground (
  arith,
  find_key-remove_key k d room.devices,
  find_key-remove_key k d room.device_connections,
  h d,
)

leave_previous-IsMatched :
    (mine : Option ℕ) (n c : ℕ) (room : SyncRoom)
    → IsMatched room
    → IsMatched (leave_previous mine n c room)
unfolding leave_previous
leave_previous-IsMatched none n c room h = h
leave_previous-IsMatched (some prev) n c room h = elim (Bool-cases (prev == n)) [
  | inl e ↦ rw e h
  | inr e ↦ rw e (remove_device_connection-IsMatched room prev c h)
]

enter-IsMatched :
    (info : ConnectedDeviceInfo) (c : ℕ) (room : SyncRoom)
    → IsMatched room
    → IsMatched (enter info c room)
unfolding enter
enter-IsMatched info c room h d = ground (
  arith,
  find_key-insert_key info.device_id d info room.devices,
  find_key-insert_key info.device_id d c room.device_connections,
  h d,
)

handle_message-IsMatched :
    (message : ClientMessage) (c : ℕ) (mine : Option ℕ) (room : SyncRoom)
    → IsMatched room
    → IsMatched (handle_message message c mine room).0
unfolding handle_message
handle_message-IsMatched (hello info) c mine room h =
    enter-IsMatched info c (leave_previous mine info.device_id c room)
      (leave_previous-IsMatched mine info.device_id c room h)
handle_message-IsMatched (report_state snapshot) c mine room h =
    elim (Bool-cases (same_device mine room.active_device_id)) [ inl e ↦ rw e h | inr e ↦ rw e h ]
handle_message-IsMatched (command action) c mine room h = h
handle_message-IsMatched (transfer_playback target) c mine room h = h

if-IsMatched :
    (b : Bool) (x y : SyncRoom)
    → IsMatched x
    → IsMatched y
    → IsMatched (if◌then◌else◌ {A = SyncRoom} b x y)
if-IsMatched true x y h k = h
if-IsMatched false x y h k = k

disconnect-IsMatched :
    (c : ℕ) (mine : Option ℕ) (room : SyncRoom)
    → IsMatched room
    → IsMatched (disconnect c mine room).0
unfolding disconnect
disconnect-IsMatched c none room h = h
disconnect-IsMatched c (some k) room h =
    let left = remove_device_connection-IsMatched room k c h in if-IsMatched _ _ _ left left

receive-IsMatched :
    (c : ℕ) (message : ClientMessage) (o : Option (Option ℕ)) (s : System)
    → IsMatched s.room
    → IsMatched (receive c message o s).room
unfolding receive
receive-IsMatched c message none s h = h
receive-IsMatched c message (some mine) s h = handle_message-IsMatched message c mine s.room h

close-IsMatched :
    (c : ℕ) (o : Option (Option ℕ)) (s : System) → IsMatched s.room → IsMatched (close c o s).room
unfolding close
close-IsMatched c none s h = h
close-IsMatched c (some mine) s h = disconnect-IsMatched c mine s.room h

open_socket-IsMatched :
    (c : ℕ) (o : Option (Option ℕ)) (s : System)
    → IsMatched s.room
    → IsMatched (open_socket c o s).room
unfolding open_socket
open_socket-IsMatched c none s h = h
open_socket-IsMatched c (some mine) s h = h

pub system_after-IsMatched : (events : List Event) → IsMatched (system_after events).room
unfolding system_after step
system_after-IsMatched [] = λ d. refl
system_after-IsMatched (opened c ∷ events) =
    open_socket-IsMatched c _ (system_after events) (system_after-IsMatched events)
system_after-IsMatched (closed c ∷ events) =
    close-IsMatched c _ (system_after events) (system_after-IsMatched events)
system_after-IsMatched (received c message ∷ events) =
    receive-IsMatched c message _ (system_after events) (system_after-IsMatched events)
