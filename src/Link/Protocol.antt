-- ===== src/Link/Protocol.antt =====
-- fw/protocol/inc/protocol/xt_can.h and binary_link_policy.h: the bytes of commands and replies.
-- Payloads are lists of bytes; the 32-bit fields of packed structs are words, little-endian, a signed
-- one by its bit pattern.
use spcd_actuator.Prelude.{
  ℕ, ◌+◌, ◌*◌, ◌/◌, ◌%◌, ◌^◌, ◌<◌, ◌≡◌, Bool, ◌&&◌, ◌||◌, Option, none, some, List, [], ◌∷◌, ◌++◌,
  if◌then◌else◌, ltb, leb, ◌==◌, get_or, length, arith,
}

-- `Header`, `Ack`: magic, version, type and sequence number come first in every frame.
abbrev pub magic : ℕ
magic = 88

abbrev pub version : ℕ
version = 1

abbrev pub type_cmd : ℕ
type_cmd = 1

abbrev pub type_ack : ℕ
type_ack = 3

abbrev pub type_conf : ℕ
type_conf = 10

abbrev pub header_size : ℕ
header_size = 4

-- `kCmdStop` and the other commands.
abbrev pub cmd_stop : ℕ
cmd_stop = 0

abbrev pub cmd_info : ℕ
cmd_info = 4

abbrev pub cmd_snap : ℕ
cmd_snap = 5

abbrev pub cmd_servo : ℕ
cmd_servo = 6

abbrev pub cmd_cal : ℕ
cmd_cal = 7

abbrev pub cmd_query : ℕ
cmd_query = 8

abbrev pub cmd_enc_comp : ℕ
cmd_enc_comp = 9

abbrev pub cmd_conf : ℕ
cmd_conf = 10

-- `UsesCtrlReply`
unfoldable pub uses_ctrl_reply : ℕ → Bool
uses_ctrl_reply cmd = cmd == cmd_stop || (cmd == cmd_servo || cmd == cmd_query)

-- `kStatusOk` and the other statuses.
abbrev pub status_ok : ℕ
status_ok = 0

abbrev pub status_bad_len : ℕ
status_bad_len = 1

abbrev pub status_bad_cmd : ℕ
status_bad_cmd = 2

abbrev pub status_not_run : ℕ
status_not_run = 3

abbrev pub status_fail : ℕ
status_fail = 4

-- `CmdId`, `TelId`
abbrev pub cmd_id : ℕ → ℕ
cmd_id node_id = (256 + node_id) % 2 ^ 16

abbrev pub tel_id : ℕ → ℕ
tel_id node_id = (384 + node_id) % 2 ^ 16

-- `kPositionNanMrad`
abbrev pub position_nan_mrad : ℕ
position_nan_mrad = 2147483648

-- Fields of a packed struct at their offsets.
unfoldable pub read_u8 : List ℕ → ℕ → ℕ
read_u8 p off = get_or p off 0

unfoldable pub read_u16 : List ℕ → ℕ → ℕ
read_u16 p off = get_or p off 0 + 256 * get_or p (off + 1) 0

unfoldable pub read_word : List ℕ → ℕ → ℕ
read_word p off =
    get_or p off 0
    + 256 * (get_or p (off + 1) 0 + 256 * (get_or p (off + 2) 0 + 256 * get_or p (off + 3) 0))

-- `ReadI32`, none where it returns false.
unfoldable pub read_i32 : List ℕ → ℕ → Option ℕ
read_i32 p off = if ltb (length p) (off + 4) then none else some (read_word p off)

-- The four bytes of a word.
unfoldable pub le32 : ℕ → List ℕ
le32 w = w % 256 ∷ w / 256 % 256 ∷ w / 65536 % 256 ∷ w / 16777216 % 256 ∷ []

-- `w > 0` of a signed word
unfoldable pub is_positive : ℕ → Bool
is_positive w = ltb 0 w && ltb w position_nan_mrad

-- `IsCommandFrameEnvelope`
unfoldable pub is_command_frame_envelope : Bool → ℕ → Bool → ℕ → ℕ → Bool
is_command_frame_envelope standard_id identifier data_frame size command_id =
    standard_id && (identifier == command_id && (data_frame && leb (header_size + 1) size))

-- `IsCommandProtocolHeader`, of the first bytes of a frame.
unfoldable pub is_command_protocol_header : List ℕ → Bool
is_command_protocol_header hdr =
    read_u8 hdr 0 == magic && (read_u8 hdr 1 == version && read_u8 hdr 2 == type_cmd)

-- A word written byte by byte is read back, whatever follows it.
pub read_i32-le32 : (w : ℕ) (rest : List ℕ) → w < 2 ^ 32 → read_i32 (le32 w ++ rest) 0 ≡ some w
unfolding read_i32 read_word le32
read_i32-le32 w rest h = ground arith
