-- ===== src/Chat/Prepare/Hashes.antt =====
-- Which images of a request are embedded (`_resolve_images` of engine/forward/chat.py).
use qwarz.Parsing.Json.{Json}
