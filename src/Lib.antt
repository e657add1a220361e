-- ===== src/Lib.antt =====
-- SRC-Link: the core of an OBS Studio plug-in that sends and receives audio and video over a broker.
--
-- An egress output (src/outputs/egress-link-output.cpp) sends one source of OBS to the connection that
-- the server gives it, and may record it. The API client (src/api-client.cpp) holds what the server
-- says of this guest's uplink, and tells the server whether any output is active; all outputs share
-- it. It holds what the server has told of the account, its parties, stages, portals and downlinks. Its
-- requests go through a sequencer (src/request-invoker.cpp). The objects of the server are
-- src/schema.hpp.
--
-- Prelude has the shared notation, the Boolean tests and the integers. Schema has the objects of
-- src/schema.hpp: Schema.Json the JSON values of Qt, the other modules the classes, each as a record of what
-- its getters return (UplinkInfo with all its parts is UplinkResource), with the object that its setters
-- write and isValid; Schema.Array has the search of TypedJsonArray. ApiClient.Uplink has what the outputs
-- see of the API client: the counters, syncUplinkStatus and putUplinkStatus. The whole client is
-- ApiClient.State (members, signals, requests), Calls (its public calls), Replies and Downlinks (what a
-- request does when it is finished), Messages and Removals (the data that the web socket reports), Resources (how a
-- resource is put into an array), and Events (the slots, the constructor, and one step function of all). Egress is the class EgressLinkOutput:
-- State has its members and the calls that it makes, Link createEgressSettings, Status setStatus,
-- setRecordingStatus and updateStatistics, Pipeline destroyPipeline, retrieveConnection and
-- createSource, Create the functions that make parts of a pipeline, Start the functions from start to
-- restartRecording, Monitor the timers and slots, Step everything that can happen to an output as
-- one function of an event, and Life the constructor and the destructor. A function of the source has
-- its name in snake case. Fleet joins the outputs of a dock with their API client. Sequencer is
-- RequestSequencer with RequestInvoker. ApiClient.Ports has getFreePort and releasePort. Ingress is the
-- class IngressLinkSource (src/sources/ingress-link-source.cpp), which receives a guest's stream:
-- Ingress.Capture has captureSettings and what it calls, Ingress.Downlink the slots. Audio is
-- SourceAudioCapture (src/sources/audio-capture.cpp) with OutputAudioSource
-- (src/outputs/audio-source.cpp). WebSocket is SRCLinkWebSocketClient (src/api-websocket.cpp), over which
-- the server pushes changes. Portal is WsPortalClient (src/ws-portal/ws-portal-client.cpp), which lets
-- the server drive obs-websocket. Dock is the class
-- EgressLinkDock (src/UI/egress-link-dock.cpp), which shows the uplink: Dock.State has its members and what it
-- shows, Widgets its connection widgets, Selection the choice of a participant, Slots the other slots, Step the
-- constructor and one step function of all. OutputWidget is the class
-- EgressLinkConnectionWidget, which shows one output and chooses its source, and PortalDock the class
-- WsPortalDock, with fancyId. FileNames is the part of src/utils.cpp that names recorded files,
-- ApiClient.PrivateIp retrievePrivateIp, and Ingress.AudioThread the thread that sends the audio. The other modules hold lemmas and theorems, Tests the concrete runs.
--
-- A handler holds the output's mutex or runs on the one thread of the user interface, so it is one
-- step, and orders of events are lists of steps. What OBS, the clock and the settings answer is a record
-- of parameters, Obs: within one handler the same question has the same answer, and any two handlers may see
-- different ones. Calls that leave the class are appended to a list of effects. A pointer to an object of OBS
-- is whether it is there. Signed integers that the server or OBS gives as counts are natural numbers;
-- the counters of outputs are integers; uint64_t arithmetic wraps; the bit rate, a long double, is the
-- fraction that it rounds. The QString functions that are used of Qt are a record of parameters, Qt.
-- Audio samples are of any type, with the clipped addition of two floats as a parameter; the deque of
-- bytes is the sequence of its chunks, and the bytes of a chunk are counted apart. What
-- is read after a chunk that lacks a channel, where more bytes are removed than were pushed, is a parameter. A generated stream id
-- is a parameter. A reply of the server is an error and a JSON body, and its arrival an event. A number of
-- JSON is an integer that fits an int, or another number by its text; a date is its text; a QMap is a list
-- of pairs, in the order of its keys. Loops run over lists or over a number of
-- ports; only the endless loop of findBestFilename has fuel, of which one more than there are files is enough.
--
-- Not modelled: the dialogs (src/UI) but for the settings that one is accepted with, the drawing of images, the copies of OBS libraries
-- (shared), the property sheets and profiles of an output, the pictures and
-- screenshots, and the pages that open in a browser.
pub mod ApiClient
pub mod Audio
pub mod Dock
pub mod Egress
pub mod FileNames
pub mod Fleet
pub mod Ingress
pub mod OutputWidget
pub mod Portal
pub mod PortalDock
pub mod Prelude
pub mod Schema
pub mod Sequencer
pub mod Tests
pub mod WebSocket
