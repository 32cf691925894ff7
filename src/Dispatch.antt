-- ===== src/Dispatch.antt =====
-- pkg/chatbot/handlers.go and registry.go: from a chat message to a command and the record of it.
-- Registry is the table of commands and its index, Lookup finds the command of a message, Gates is
-- the access check and the run. Commands are known by their place in the registry, the pointer that
-- the source compares. Texts are lists of runes; strings.TrimSpace, ToLower and EqualFold and
-- unicode.IsLetter are arguments.
pub mod Registry
pub mod Lookup
pub mod Gates
pub mod Enabled
pub mod Found
pub mod Runs
pub mod Permits
pub mod Refused
pub mod Named
mod Tests
