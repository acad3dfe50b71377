-- ===== src/Python.antt =====
-- What the program uses of Python's standard library and is more than a method of `str`: decimal
-- numbers, `str.split` and `str.rsplit`, and the module `ipaddress`.
pub mod Decimal
pub mod Split
pub mod Lines
pub mod Ip
pub mod Url
mod Tests
