-- ===== src/Egress/Choices.antt =====
-- What the timers of src/outputs/egress-link-output.cpp decide, and which connection an output takes.
use src_link.Schema.Array.{find-eq-first, first}
use src_link.Egress.State.{Output, Obs}
use src_link.Schema.{StageConnection, get_id, UplinkInfo}
use src_link.Prelude.{
  refl, [], ◌∷◌, ◌∷◌, List, true, arith, some, not, some, ◌&&◌, ◌≡◌, ◌||◌, str_eq, Bool, String,
}
use src_link.Egress.Pipeline.{retrieve_connection, connection_of}
use src_link.Egress.Monitor.{interlock_starts, interlock_stops, on_uplink_ready}

connection_of-first :
    (name : String) (cs : List StageConnection)
    → connection_of name cs ≡ first (λ c. str_eq c.source_name name) cs
unfolding connection_of first
connection_of-first name [] = refl
connection_of-first name (c ∷ cs) = let rest = connection_of-first name cs in ground arith

-- If the uplink that `onUplinkReady` is told of is the API client's, and the connection that the loop
-- of `retrieveConnection` finds in it has another id than the output's, then the slot takes that same
-- connection by its search.
pub retrieve_connection-agrees :
    (u : UplinkInfo) (o : Output)
    → o.api.uplink ≡ some u
    → not (str_eq (get_id o.connection) (get_id (retrieve_connection o).connection)) ≡ true
    → (on_uplink_ready u o).connection ≡ (retrieve_connection o).connection
unfolding on_uplink_ready retrieve_connection
retrieve_connection-agrees u o e n =
    let same = find-eq-first (λ c. str_eq c.source_name o.name) u.connections in
    let loop = connection_of-first o.name u.connections in ground arith

-- The settings of the dock's interlock.
abbrev pub is_interlock : String → Bool
is_interlock t =
    str_eq t "always_on"
    || str_eq t "streaming"
    || str_eq t "recording"
    || str_eq t "streaming_recording"
    || str_eq t "virtual_cam"

-- The tests, by the text of the setting.
typed : Obs → String → Obs
typed w t = record w { interlock_setting = t }

-- What the front end does that the setting asks for; a missing setting asks for the virtual camera.
abbrev pub is_asked_for : Obs → Bool
is_asked_for w =
    let t = w.interlock_setting in
    str_eq t "always_on"
    || ((str_eq t "streaming" || str_eq t "streaming_recording") && w.frontend_streaming)
    || ((str_eq t "recording" || str_eq t "streaming_recording") && w.frontend_recording)
    || ((str_eq t "virtual_cam" || str_eq t "") && w.frontend_virtualcam)

abbrev Opposite : Obs → Type 0
Opposite w =
    (interlock_starts w ≡ is_asked_for w)
    × (interlock_stops w
        ≡ (is_interlock w.interlock_setting || str_eq w.interlock_setting "")
          && not (is_asked_for w))
