-- ===== src/Tests/Rooms.antt =====
-- crates/server/src/playback_sync.rs on two devices.
use alac_bot.Prelude.{◌≡◌, refl, none, some, List, [], ◌∷◌}
use alac_bot.PlaybackSync.{
  ConnectedDeviceInfo, ClientMessage, SyncRoom, Event, find_key, handle_message, system_after,
}
use alac_bot.PlaybackSync.Listed.{IsMatched}
use alac_bot.PlaybackSync.Active.{IsLive, system_after-IsLive, handle_message-renamed}
use ClientMessage.{hello, transfer_playback}
use Event.{opened, closed, received}

abbrev phone : ConnectedDeviceInfo
phone = record { device_id = 7; device_name = 70; platform = 1 }

abbrev laptop : ConnectedDeviceInfo
laptop = record { device_id = 8; device_name = 80; platform = 2 }

-- Socket 1 is the phone, socket 2 the laptop, playback moves to the laptop, and socket 1 closes.
abbrev events : List Event
events =
    closed 1
    ∷ received 2 (transfer_playback 8)
    ∷ received 2 (hello laptop)
    ∷ opened 2
    ∷ received 1 (hello phone)
    ∷ opened 1
    ∷ []

system_after-IsLive_example : IsMatched (system_after events).room × IsLive (system_after events)
system_after-IsLive_example = system_after-IsLive events

abbrev phone_room : SyncRoom
phone_room = record {
  devices = (7, phone) ∷ [];
  device_connections = (7, 1) ∷ [];
  active_device_id = some 7;
  latest_snapshot = none;
}

handle_message-renamed_example :
    ((handle_message (hello laptop) 1 (some 7) phone_room).0.active_device_id ≡ some 7)
    × (find_key 7 (handle_message (hello laptop) 1 (some 7) phone_room).0.devices ≡ none)
handle_message-renamed_example =
    handle_message-renamed phone_room laptop 1 7 refl (unfold find_key in refl) refl
