-- ===== src/Tests/Cursors.antt =====
-- Cursors of concrete identifiers.
use dae_wing.Base.{◌≡◌, ◌^◌, ltb, if◌then◌else◌, ok, err, Error}
use dae_wing.Cursor.{encode_cursor, decode_cursor}
use dae_wing.Cursor.RoundTrip.{decode_cursor-encode_cursor}

decode_cursor-encode_cursor_example :
    decode_cursor (encode_cursor 42) ≡ (if ltb 42 (2 ^ 63) then ok 42 else err Error.bad_cursor)
decode_cursor-encode_cursor_example = decode_cursor-encode_cursor 42
