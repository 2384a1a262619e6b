-- ===== src/Python/Base64.antt =====
-- `base64.b64encode(b)` and `base64.b64decode(s, validate=True)`.
pub mod Digits
pub mod RoundTrip
