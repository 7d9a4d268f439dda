-- ===== src/Tests.antt =====
-- The theorems at concrete inputs, and the definitions evaluated.
mod Host
mod Framing
mod States
mod Sessions
mod Texts
mod Receiving
mod Answers
mod Editing
mod Saving
mod Frames
mod Serving
