-- ===== src/Validator.antt =====
-- pkg/conduit/conduit_validator.go: the checks of connectors and processors.
pub mod FieldError
pub mod Http
pub mod Listing
pub mod Listed
pub mod Connector
pub mod Processor
pub mod Passing
pub mod TempFiles
