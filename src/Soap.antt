-- ===== src/Soap.antt =====
-- pkg/soap: the SOAP layer of the control requests.
pub mod Escape
pub mod Action
pub mod Response
pub mod Xml
pub mod Value
pub mod Didl
pub mod Examples
