-- ===== src/Beds.antt =====
-- pkg/obs/beds: which background-audio bed the stream plays and how it is switched. Paths are the
-- names of the car-hum renders and of the music share, Stations the radio's stations, Library the
-- albums the fallback may play. Store is the Store with its methods on the OBS source that they
-- write; the other children prove what the methods do.
pub mod Paths
pub mod Stations
pub mod Library
pub mod Store
pub mod Requests
pub mod Fallback
pub mod Events
pub mod Queue
pub mod Waiting
pub mod Steps
pub mod Numbers
pub mod Latest
pub mod Landing
pub mod Sound
pub mod Order
pub mod Truth
pub mod Swaps
pub mod Advance
pub mod Detect
pub mod Readable
pub mod Reach
pub mod Recover
pub mod Albums
pub mod Repeats
mod Tests
