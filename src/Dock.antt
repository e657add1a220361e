-- ===== src/Dock.antt =====
-- src/UI/egress-link-dock.cpp: class EgressLinkDock, the dock that shows the uplink and has a widget
-- (src/UI/egress-link-connection-widget.cpp) for each output.
pub mod State
pub mod Widgets
pub mod Shown
pub mod Names
pub mod Selection
pub mod Choice
pub mod Selected
pub mod Slots
pub mod Step
pub mod Frame
pub mod Carry
pub mod Kept
