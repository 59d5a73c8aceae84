-- ===== src/Net.antt =====
-- net/: addresses and origins of clients. A text is the list of its character codes.
pub mod Text
pub mod Origin
pub mod Pattern
pub mod Admitted
pub mod Ip
pub mod Proxies
pub mod Groups
pub mod Subnet
