-- ===== src/Ondemand.antt =====
-- The requests on demand of `Client`, HES/src/client.cpp: how the packet of a request is built, sent,
-- turned into the request for the next page and repaired, and how the profiles of an answer are read.
pub mod Buffer
pub mod Frame
pub mod Request
pub mod Values
pub mod Profiles
pub mod Events
pub mod SingleObis
