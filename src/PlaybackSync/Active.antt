-- ===== src/PlaybackSync/Active.antt =====
-- crates/server/src/playback_sync.rs: which devices a room lists, and which one is active.
use alac_bot.Prelude.{
  ℕ, ◌≡◌, ◌≢◌, refl, ap, ◌∙◌, Bool, true, false, Option, none, some, List, [], ◌∷◌, arith, ◌==◌,
  if◌then◌else◌,
}
use alac_bot.PlaybackSync.Listed.{
  find_key-remove_key, find_key-insert_key, IsMatched, system_after-IsMatched,
}
use alac_bot.PlaybackSync.{
  ConnectedDeviceInfo, ClientMessage, ServerMessage, SyncRoom, find_key, remove_key, insert_key,
  remove_device_connection, leave_previous, enter, same_device, handle_message, disconnect, System,
  Event, open_socket, receive, close, step, system_after,
}
use ClientMessage.{hello, report_state, command, transfer_playback}
use Event.{opened, closed, received}

-- Each device that has a connection is held by the open socket of that connection.
abbrev pub IsHeld : List (ℕ × ℕ) → List (ℕ × Option ℕ) → Type 0
IsHeld connections sockets =
    (d c : ℕ) → find_key d connections ≡ some c → find_key c sockets ≡ some (some d)

remove-IsHeld :
    (connections : List (ℕ × ℕ)) (sockets : List (ℕ × Option ℕ)) (k : ℕ)
    → IsHeld connections sockets
    → IsHeld (remove_key k connections) sockets
remove-IsHeld connections sockets k h d c e =
    ground (arith, find_key-remove_key k d connections, h d c)

-- A connection that takes device `n` gives up the one it held.
enter-IsHeld :
    (connections : List (ℕ × ℕ)) (sockets : List (ℕ × Option ℕ)) (n c : ℕ)
    → IsHeld connections sockets
    → ((d : ℕ) → find_key d connections ≡ some c → d ≡ n)
    → IsHeld (insert_key n c connections) (insert_key c (some n) sockets)
enter-IsHeld connections sockets n c h own d x e = ground (
  arith,
  find_key-insert_key n d c connections,
  find_key-insert_key c x (some n) sockets,
  h d x,
  own d,
)

-- A connection that holds nothing any more can go.
leave-IsHeld :
    (connections : List (ℕ × ℕ)) (sockets : List (ℕ × Option ℕ)) (c : ℕ)
    → IsHeld connections sockets
    → ((d : ℕ) → find_key d connections ≢ some c)
    → IsHeld connections (remove_key c sockets)
leave-IsHeld connections sockets c h free d x e =
    ground (arith, find_key-remove_key c x sockets, h d x, free d)

module _ (room : SyncRoom) (sockets : List (ℕ × Option ℕ)) (c : ℕ)
    (h : IsHeld room.device_connections sockets) where
  abbrev dropped : ℕ → List (ℕ × ℕ)
  dropped k = (remove_device_connection room k c).0.device_connections

  dropped-IsHeld : (k : ℕ) → IsHeld (dropped k) sockets
  unfolding remove_device_connection
  dropped-IsHeld k d x e = ground (arith, h d x, find_key-remove_key k d room.device_connections)

  -- The device that the connection holds is the only one that can be its own.
  dropped-own : (k d : ℕ) → find_key c sockets ≡ some (some k) → find_key d (dropped k) ≢ some c
  unfolding remove_device_connection
  dropped-own k d m e = ground (arith, h d c, find_key-remove_key k d room.device_connections)

  abbrev after_leaving : Option ℕ → ℕ → List (ℕ × ℕ)
  after_leaving mine n = (leave_previous mine n c room).device_connections

  leave_previous-IsHeld : (mine : Option ℕ) (n : ℕ) → IsHeld (after_leaving mine n) sockets
  unfolding leave_previous
  leave_previous-IsHeld none n d x e = h d x e
  leave_previous-IsHeld (some prev) n d x e = ground (arith, h d x, dropped-IsHeld prev d x)

  leave_previous-own :
      (mine : Option ℕ) (n d : ℕ)
      → find_key c sockets ≡ some mine
      → find_key d (after_leaving mine n) ≡ some c
      → d ≡ n
  unfolding leave_previous
  leave_previous-own none n d m e = ground (arith, h d c)
  leave_previous-own (some prev) n d m e = ground (arith, h d c, dropped-own prev d m)

-- Each device with a connection is held by the open socket of that connection.
abbrev pub IsLive : System → Type 0
IsLive s = IsHeld s.room.device_connections s.sockets

same-IsHeld :
    (connections : List (ℕ × ℕ)) (sockets : List (ℕ × Option ℕ)) (c : ℕ) (mine : Option ℕ)
    → find_key c sockets ≡ some mine
    → IsHeld connections sockets
    → IsHeld connections (insert_key c mine sockets)
same-IsHeld connections sockets c mine m h d x e =
    ground (arith, find_key-insert_key c x mine sockets, h d x)

abbrev Handled : Type 0
Handled = SyncRoom × Option ℕ × List ServerMessage

reported-IsHeld :
    (b : Bool) (x y : Handled) (c : ℕ) (sockets : List (ℕ × Option ℕ))
    → IsHeld x.0.device_connections (insert_key c x.1 sockets)
    → IsHeld y.0.device_connections (insert_key c y.1 sockets)
    → IsHeld
        (if◌then◌else◌ {A = Handled} b x y).0.device_connections
        (insert_key c (if◌then◌else◌ {A = Handled} b x y).1 sockets)
reported-IsHeld true x y c sockets h k = h
reported-IsHeld false x y c sockets h k = k

left-IsHeld :
    (b : Bool) (x y : SyncRoom) (sockets : List (ℕ × Option ℕ))
    → IsHeld x.device_connections sockets
    → IsHeld y.device_connections sockets
    → IsHeld (if◌then◌else◌ {A = SyncRoom} b x y).device_connections sockets
left-IsHeld true x y sockets h k = h
left-IsHeld false x y sockets h k = k

receive-IsLive :
    (c : ℕ) (message : ClientMessage) (mine : Option ℕ) (s : System)
    → find_key c s.sockets ≡ some mine
    → IsLive s
    → IsLive (receive c message (some mine) s)
unfolding receive handle_message enter
receive-IsLive c (hello info) mine s m h =
    enter-IsHeld _ s.sockets info.device_id c
      (leave_previous-IsHeld s.room s.sockets c h mine info.device_id)
      (λ d e. leave_previous-own s.room s.sockets c h mine info.device_id d m e)
receive-IsLive c (report_state snapshot) mine s m h =
    reported-IsHeld (same_device mine s.room.active_device_id) _ _ c s.sockets
      (same-IsHeld s.room.device_connections s.sockets c mine m h)
      (same-IsHeld s.room.device_connections s.sockets c mine m h)
receive-IsLive c (command action) mine s m h =
    same-IsHeld s.room.device_connections s.sockets c mine m h
receive-IsLive c (transfer_playback target) mine s m h =
    same-IsHeld s.room.device_connections s.sockets c mine m h

close-IsLive :
    (c : ℕ) (mine : Option ℕ) (s : System)
    → find_key c s.sockets ≡ some mine
    → IsLive s
    → IsLive (close c (some mine) s)
unfolding close disconnect
close-IsLive c none s m h =
    leave-IsHeld s.room.device_connections s.sockets c h (λ d e. ground (arith, h d c))
close-IsLive c (some k) s m h =
    let left =
      leave-IsHeld (dropped s.room s.sockets c h k) s.sockets c
        (dropped-IsHeld s.room s.sockets c h k) (λ d. dropped-own s.room s.sockets c h k d m) in
    left-IsHeld _ _ _ (remove_key c s.sockets) left left

open_socket-IsLive :
    (c : ℕ) (o : Option (Option ℕ)) (s : System)
    → find_key c s.sockets ≡ o
    → IsLive s
    → IsLive (open_socket c o s)
unfolding open_socket
open_socket-IsLive c (some mine) s m h d x e = h d x e
open_socket-IsLive c none s m h d x e =
    ground (arith, h d x, find_key-insert_key c x none s.sockets)

close_any-IsLive :
    (c : ℕ) (o : Option (Option ℕ)) (s : System)
    → find_key c s.sockets ≡ o
    → IsLive s
    → IsLive (close c o s)
close_any-IsLive c (some mine) s m h = close-IsLive c mine s m h
close_any-IsLive c none s m h = unfold close in h

receive_any-IsLive :
    (c : ℕ) (message : ClientMessage) (o : Option (Option ℕ)) (s : System)
    → find_key c s.sockets ≡ o
    → IsLive s
    → IsLive (receive c message o s)
receive_any-IsLive c message (some mine) s m h = receive-IsLive c message mine s m h
receive_any-IsLive c message none s m h = unfold receive in h

step-IsLive : (e : Event) (s : System) → IsLive s → IsLive (step e s)
unfolding step
step-IsLive (opened c) s h = open_socket-IsLive c _ s refl h
step-IsLive (closed c) s h = close_any-IsLive c _ s refl h
step-IsLive (received c message) s h = receive_any-IsLive c message _ s refl h

system_after-IsOpen : (events : List Event) → IsLive (system_after events)
unfolding system_after
system_after-IsOpen [] = λ d c e. unfold find_key in ground arith
system_after-IsOpen (e ∷ events) = step-IsLive e (system_after events) (system_after-IsOpen events)

-- After any events, the devices that the room lists are exactly those that have a connection, and
-- each of these is held by the open socket of its connection: no device stays listed when its socket
-- is closed.
pub system_after-IsLive :
    (events : List Event) → IsMatched (system_after events).room × IsLive (system_after events)
system_after-IsLive events = (system_after-IsMatched events, system_after-IsOpen events)

left_devices :
    (room : SyncRoom) (n c prev : ℕ)
    → find_key prev room.device_connections ≡ some c
    → (prev == n) ≡ false
    → (leave_previous (some prev) n c room).devices ≡ remove_key prev room.devices
unfolding leave_previous remove_device_connection
left_devices room n c prev h e = ground arith

-- When the connection of the active device says hello as another device, the device that was active
-- stays the active one and is gone from the list of devices.
pub handle_message-renamed :
    (room : SyncRoom) (info : ConnectedDeviceInfo) (c prev : ℕ)
    → room.active_device_id ≡ some prev
    → find_key prev room.device_connections ≡ some c
    → (prev == info.device_id) ≡ false
    → ((handle_message (hello info) c (some prev) room).0.active_device_id ≡ some prev)
      × (find_key prev (handle_message (hello info) c (some prev) room).0.devices ≡ none)
unfolding handle_message leave_previous remove_device_connection enter
handle_message-renamed room info c prev a h n =
    let gone = find_key-remove_key prev prev room.devices in
    let d = left_devices room info.device_id c prev h n in
    let put = find_key-insert_key info.device_id prev info (remove_key prev room.devices) in
    (
      ground arith,
      ap (λ x. find_key prev (insert_key info.device_id info x)) d ∙ put ∙ ground (arith, gone),
    )
