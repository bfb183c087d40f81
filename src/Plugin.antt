-- ===== src/Plugin.antt =====
-- source/_generic/wclap-plugin.h and wclap-plugin-factory.h: the native side of a WCLAP's plugins.
pub mod Streams
pub mod Events
pub mod Factory
pub mod Extensions
pub mod Gui
pub mod Webview
pub mod Process
pub mod Sessions
mod Examples
