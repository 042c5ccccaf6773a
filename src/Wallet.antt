-- ===== src/Wallet.antt =====
-- packages/wallet: bytes, CBOR, Cardano addresses, CIP-8 message signatures, and the connection to a
-- wallet.
pub mod Bytes
pub mod Utf8
pub mod Cbor
pub mod Address
pub mod Cip8
pub mod Connector
