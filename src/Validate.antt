-- ===== src/Validate.antt =====
-- scripts/validatejs.js: the validators of form fields and the rules that apply them.
pub mod Engine
pub mod Formats
pub mod Dates
pub mod Numeral
pub mod Ip
pub mod Calendar
pub mod Stale
pub mod Platform
pub mod Email
pub mod Decimals
pub mod Url
pub mod Cpf
pub mod Chars
pub mod Rules
pub mod Login
mod Tests
mod LoginTests
