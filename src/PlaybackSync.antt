-- ===== src/PlaybackSync.antt =====
-- crates/server/src/playback_sync.rs: a room of one user's devices, and what its sockets do to it.
-- A device id, a snapshot, a command and the data of a device are numbers. A hash map is an
-- association list without double keys; which device is its first is the list's choice.
pub mod Listed
pub mod Active
use alac_bot.Prelude.{
  ℕ, Bool, true, false, ◌&&◌, not, Option, none, some, List, [], ◌∷◌, map, ◌==◌, if◌then◌else◌,
}

pub record ConnectedDeviceInfo : Type 0 where
  pub device_id : ℕ
  pub device_name : ℕ
  pub platform : ℕ

pub data ClientMessage : Type 0 where
  hello : ConnectedDeviceInfo → ClientMessage
  report_state : ℕ → ClientMessage
  command : ℕ → ClientMessage
  transfer_playback : ℕ → ClientMessage

pub data ServerMessage : Type 0 where
  room_state : Option ℕ → List ConnectedDeviceInfo → Option ℕ → ServerMessage
  state_updated : Option ℕ → ℕ → ServerMessage
  execute_command : ℕ → ServerMessage

-- `devices` by id, and `device_connections` from the id to the connection that holds it.
pub record SyncRoom : Type 0 where
  pub devices : List (ℕ × ConnectedDeviceInfo)
  pub device_connections : List (ℕ × ℕ)
  pub active_device_id : Option ℕ
  pub latest_snapshot : Option ℕ

abbrev pub empty_room : SyncRoom
empty_room = record {
  devices = [];
  device_connections = [];
  active_device_id = none;
  latest_snapshot = none;
}

-- `HashMap::get`, `remove` and `insert`
unfoldable pub find_key {ℓ} : {A : Type ℓ} → ℕ → List (ℕ × A) → Option A
find_key k [] = none
find_key k (e ∷ rest) = if e.0 == k then some e.1 else find_key k rest

unfoldable pub remove_key {ℓ} : {A : Type ℓ} → ℕ → List (ℕ × A) → List (ℕ × A)
remove_key k [] = []
remove_key k (e ∷ rest) = if e.0 == k then remove_key k rest else e ∷ remove_key k rest

abbrev pub insert_key {ℓ} : {A : Type ℓ} → ℕ → A → List (ℕ × A) → List (ℕ × A)
insert_key k v entries = (k, v) ∷ remove_key k entries

abbrev pub is_some {ℓ} : {A : Type ℓ} → Option A → Bool
is_some none = false
is_some (some a) = true

abbrev pub holds : Option ℕ → ℕ → Bool
holds none n = false
holds (some m) n = m == n

-- The devices are told in the order of the map.
unfoldable pub current_state : SyncRoom → ServerMessage
current_state room =
    room_state room.active_device_id (map (λ e. e.1) room.devices) room.latest_snapshot

unfoldable pub remove_device_connection : SyncRoom → ℕ → ℕ → SyncRoom × Bool
unfolding find_key remove_key
remove_device_connection room device_id connection_id =
    if holds (find_key device_id room.device_connections) connection_id
    then (
      record room {
        device_connections = remove_key device_id room.device_connections;
        devices = remove_key device_id room.devices;
      },
      is_some (find_key device_id room.devices),
    )
    else (room, false)

-- The device that the socket held before gives way to another one.
unfoldable pub leave_previous : Option ℕ → ℕ → ℕ → SyncRoom → SyncRoom
unfolding remove_device_connection
leave_previous none device_id connection_id room = room
leave_previous (some prev) device_id connection_id room =
    if prev == device_id then room else (remove_device_connection room prev connection_id).0

unfoldable pub enter : ConnectedDeviceInfo → ℕ → SyncRoom → SyncRoom
unfolding remove_key
enter info connection_id room = record room {
  devices = insert_key info.device_id info room.devices;
  device_connections = insert_key info.device_id connection_id room.device_connections;
  active_device_id = elim room.active_device_id [ none ↦ some info.device_id | some d ↦ some d ];
}

abbrev pub same_device : Option ℕ → Option ℕ → Bool
same_device (some current) (some active) = current == active
same_device (some current) none = false
same_device none active = false

-- A message of a client on a connection that holds a device: the room, the device that the
-- connection holds then, and what is sent to all.
unfoldable pub handle_message :
    ClientMessage → ℕ → Option ℕ → SyncRoom → SyncRoom × Option ℕ × List ServerMessage
unfolding leave_previous enter current_state
handle_message (hello info) connection_id mine room =
    let after = enter info connection_id (leave_previous mine info.device_id connection_id room) in
    (after, some info.device_id, current_state after ∷ [])
handle_message (report_state snapshot) connection_id mine room =
    if same_device mine room.active_device_id
    then (
      record room { latest_snapshot = some snapshot },
      mine,
      state_updated room.active_device_id snapshot ∷ [],
    )
    else (room, mine, [])
handle_message (command action) connection_id mine room = (room, mine, execute_command action ∷ [])
handle_message (transfer_playback target) connection_id mine room =
    let after = record room { active_device_id = some target } in
    (after, mine, current_state after ∷ [])

abbrev pub first_key {ℓ} : {A : Type ℓ} → List (ℕ × A) → Option ℕ
first_key [] = none
first_key (e ∷ rest) = some e.0

-- After the loop of a socket: its device leaves, and another one becomes active if it was.
unfoldable pub disconnect : ℕ → Option ℕ → SyncRoom → SyncRoom × List ServerMessage
unfolding remove_device_connection current_state
disconnect connection_id none room = (room, [])
disconnect connection_id (some dev_id) room =
    let (left, removed) = remove_device_connection room dev_id connection_id in
    let after =
      if removed && holds left.active_device_id dev_id
      then record left { active_device_id = first_key left.devices }
      else left in
    (after, current_state after ∷ [])

-- The room with its open sockets: by connection id, the device that each holds.
pub record System : Type 0 where
  pub room : SyncRoom
  pub sockets : List (ℕ × Option ℕ)

pub data Event : Type 0 where
  opened closed : ℕ → Event
  received : ℕ → ClientMessage → Event

unfoldable pub receive : ℕ → ClientMessage → Option (Option ℕ) → System → System
unfolding handle_message
receive connection_id message none s = s
receive connection_id message (some mine) s =
    let (room, held, sent) = handle_message message connection_id mine s.room in
    record { room = room; sockets = insert_key connection_id held s.sockets }

unfoldable pub close : ℕ → Option (Option ℕ) → System → System
unfolding disconnect
close connection_id none s = s
close connection_id (some mine) s = record {
  room = (disconnect connection_id mine s.room).0;
  sockets = remove_key connection_id s.sockets;
}

-- A socket opens under an id of its own.
unfoldable pub open_socket : ℕ → Option (Option ℕ) → System → System
open_socket connection_id (some mine) s = s
open_socket connection_id none s = record s { sockets = insert_key connection_id none s.sockets }

unfoldable pub step : Event → System → System
unfolding open_socket receive close find_key
step (opened c) s = open_socket c (find_key c s.sockets) s
step (closed c) s = close c (find_key c s.sockets) s
step (received c message) s = receive c message (find_key c s.sockets) s

-- The events, the last one first.
unfoldable pub system_after : List Event → System
unfolding step
system_after [] = record { room = empty_room; sockets = [] }
system_after (e ∷ events) = step e (system_after events)
