-- ===== src/Xml.antt =====
-- XML values of the library: qualified names, elements, namespace scopes and the printer.
pub mod QName
pub mod Element
pub mod NsStack
pub mod Printer
