-- ===== src/Swaggergen.antt =====
-- pkg/swaggergen: an OpenAPI specification that grows with each request and its response. A
-- pointer of the source is an `Option` where it may be nil; no two fields share one. Each message
-- is added once, so that its body is read once, and the reader that is left is not kept. A
-- specification that is read from a file may lack its info, its paths and the responses of a method,
-- which are nil then; it is taken to have no null among its servers, paths and methods.
pub mod Schemas
pub mod Responses
pub mod Methods
pub mod Specs
pub mod Servers
pub mod Additions
pub mod SafeResponses
pub mod Safety
pub mod Documenting
pub mod Generating
