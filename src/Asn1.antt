-- ===== src/Asn1.antt =====
-- asn1/: the BER runtime.
pub mod Types
pub mod Encode
pub mod Base128
pub mod Decoder
pub mod RoundTrip
pub mod Integers
pub mod Floats
pub mod BitStrings
pub mod Oids
pub mod Elements
