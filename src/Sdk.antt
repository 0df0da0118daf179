-- ===== src/Sdk.antt =====
-- sdk/golang: the libraries of the bus's clients and consumers.
pub mod Client
pub mod Worker
