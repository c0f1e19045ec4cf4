-- ===== src/Asn1/RoundTrip.antt =====
-- asn1/: the decoder against the encoder.
pub mod Tags
pub mod Elements
