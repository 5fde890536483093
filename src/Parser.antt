-- ===== src/Parser.antt =====
-- internal/parser: the line formats.
pub mod Common
pub mod KMsg
pub mod SyslogBsd
pub mod Rfc5424
pub mod Journald
pub mod Registry
pub mod Dmesg
pub mod Factories
