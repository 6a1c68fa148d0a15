-- ===== src/Examples.antt =====
-- Runs of the models at concrete inputs.
mod Packets
mod Gaps
mod Filters
mod GapTopic
mod Watermarks
mod Rules
mod Created
mod Resends
mod Retries
mod MessageIds
mod Receiver
mod Rotating
mod Sender
mod Logs
mod Connection
mod Repeats
mod LostFiles
mod PinnedKeys
