-- ===== src/Packet.antt =====
-- The packets of include/packet_util.h, include/command.h and src/common/packet_util.c: their
-- constructors, flags and index counter, and their encoding as bytes.
pub mod Codec
pub mod Bounds
pub mod Flags
pub mod Wrappers
use Prim.Native.Nat.{bit_and, bit_or}
use karmanet.Common.{
  ℕ, ◌+◌, ◌-◌, ◌%◌, ◌^◌, Option, none, some, List, [], ◌∷◌, ◌++◌, ltb, if◌then◌else◌, take, drop,
}
use karmanet.Common.Memory.{◌>>=◌, memcpy, read_bytes, store_byte}
use karmanet.Wire.{SockaddrIn, ltob, stob, btos, addr2str, addr_str_len}

abbrev pub cmd_str_len : ℕ
cmd_str_len = 3

abbrev pub header_size : ℕ
header_size = cmd_str_len + 7

abbrev pub max_packet_data_len : ℕ
max_packet_data_len = 1024

abbrev pub max_packet_size : ℕ
max_packet_size = header_size + max_packet_data_len

-- `TTL` is the bit pattern of the `short`
pub record Packet : Type 0 where
  pub cmd : List ℕ
  pub flag : ℕ
  pub index : ℕ
  pub ttl : ℕ
  pub data_len : ℕ
  pub payload : List ℕ

abbrev pub cmd_join : List ℕ
cmd_join = b'J' ∷ b'O' ∷ b'I' ∷ []

abbrev pub cmd_register : List ℕ
cmd_register = b'R' ∷ b'E' ∷ b'G' ∷ []

abbrev pub cmd_leave : List ℕ
cmd_leave = b'L' ∷ b'E' ∷ b'A' ∷ []

abbrev pub cmd_list : List ℕ
cmd_list = b'L' ∷ b'I' ∷ b'S' ∷ []

abbrev pub cmd_redirect : List ℕ
cmd_redirect = b'R' ∷ b'D' ∷ b'R' ∷ []

abbrev pub cmd_promote : List ℕ
cmd_promote = b'P' ∷ b'R' ∷ b'M' ∷ []

abbrev pub cmd_whohas : List ℕ
cmd_whohas = b'W' ∷ b'H' ∷ b'O' ∷ []

abbrev pub cmd_get : List ℕ
cmd_get = b'G' ∷ b'E' ∷ b'T' ∷ []

abbrev pub cmd_ack : List ℕ
cmd_ack = b'A' ∷ b'C' ∷ b'K' ∷ []

abbrev pub cmd_err : List ℕ
cmd_err = b'E' ∷ b'R' ∷ b'R' ∷ []

abbrev pub cmd_ping : List ℕ
cmd_ping = b'P' ∷ b'I' ∷ b'N' ∷ []

abbrev pub cmd_pong : List ℕ
cmd_pong = b'P' ∷ b'O' ∷ b'N' ∷ []

-- the flags, one bit each
pub data Flag : Type 0 where
  whohas_name whohas_md5 query next_chunk superpeer : Flag

abbrev pub mask : Flag → ℕ
mask whohas_name = 1
mask whohas_md5 = 2
mask query = 8
mask next_chunk = 32
mask superpeer = 128

unfoldable pub is_set_flag : Packet → ℕ → ℕ
is_set_flag pck f = bit_and pck.flag f

unfoldable pub set_flag : Packet → ℕ → Packet
set_flag pck f = record pck { flag = bit_or pck.flag f }

-- `~flag` on a byte
unfoldable pub unset_flag : Packet → ℕ → Packet
unset_flag pck f = record pck { flag = bit_and pck.flag (255 - f) }

abbrev pub set_query_flag : Packet → Packet
set_query_flag pck = set_flag pck (mask query)

abbrev pub set_whohas_name_flag : Packet → Packet
set_whohas_name_flag pck = set_flag pck (mask whohas_name)

abbrev pub set_whohas_md5_flag : Packet → Packet
set_whohas_md5_flag pck = set_flag pck (mask whohas_md5)

-- `start_index` is an `unsigned short`; the result is the index and the new counter
unfoldable pub get_index : ℕ → ℕ × ℕ
get_index start_index = (start_index, (start_index + 1) % 2 ^ 16)

-- the fields that `new_packet` assigns; `none` for NULL data
unfoldable pub new_packet : Packet → List ℕ → ℕ → Option (List ℕ) → ℕ → ℕ → Option Packet
new_packet to_create cmd index none data_len ttl =
    some (record to_create { cmd = cmd; flag = 0; index = index; ttl = ttl; data_len = data_len })
new_packet to_create cmd index (some bytes) data_len ttl = do
  d ← memcpy data_len bytes to_create.payload
  some (record { cmd = cmd; flag = 0; index = index; ttl = ttl; data_len = data_len; payload = d })

module _ (pck : Packet) (index : ℕ) (bytes : List ℕ) (data_len ttl : ℕ) where
  unfoldable pub new_whs_query_packet : Option Packet
  new_whs_query_packet = do
    p ← new_packet pck cmd_whohas index (some bytes) data_len ttl
    some (set_query_flag (set_whohas_name_flag p))

  unfoldable pub new_whs_query5_packet : Option Packet
  new_whs_query5_packet = do
    p ← new_packet pck cmd_whohas index (some bytes) data_len ttl
    some (set_query_flag (set_whohas_md5_flag p))

  unfoldable pub new_whs_res_packet : Option Packet
  new_whs_res_packet = do
    p ← new_packet pck cmd_whohas index (some bytes) data_len ttl
    some (set_whohas_name_flag p)

  unfoldable pub new_whs_res5_packet : Option Packet
  new_whs_res5_packet = do
    p ← new_packet pck cmd_whohas index (some bytes) data_len ttl
    some (set_whohas_md5_flag p)

  unfoldable pub new_get_packet : Option Packet
  new_get_packet = do
    p ← new_packet pck cmd_get index (some bytes) data_len ttl
    some (set_query_flag p)

-- the packets without a payload: their data_len is 0 and their TTL 1
module _ (pck : Packet) (index : ℕ) where
  unfoldable pub new_join_packet : Option Packet
  new_join_packet = new_packet pck cmd_join index none 0 1

  unfoldable pub new_ack_packet : Option Packet
  new_ack_packet = new_packet pck cmd_ack index none 0 1

  unfoldable pub new_err_packet : Option Packet
  new_err_packet = new_packet pck cmd_err index none 0 1

  unfoldable pub new_ping_packet : Option Packet
  new_ping_packet = new_packet pck cmd_ping index none 0 1

  unfoldable pub new_pong_packet : Option Packet
  new_pong_packet = new_packet pck cmd_pong index none 0 1

  unfoldable pub new_promote_packet : Option Packet
  new_promote_packet = new_packet pck cmd_promote index none 0 1

  unfoldable pub new_leave_packet : Option Packet
  new_leave_packet = new_packet pck cmd_leave index none 0 1

  unfoldable pub new_register_packet : Option Packet
  new_register_packet = new_packet pck cmd_register index none 0 1

  unfoldable pub new_join_packet_sp : ℕ → ℕ → Option Packet
  new_join_packet_sp rate dw_port =
      new_packet pck cmd_join index (some (ltob rate ++ stob dw_port)) addr_str_len 1

  unfoldable pub new_redirect_packet : SockaddrIn → Option Packet
  new_redirect_packet child =
      new_packet pck cmd_redirect index (some (addr2str child.s_addr child.sin_port)) addr_str_len 1

unfoldable pub get_pcklen : Packet → ℕ
get_pcklen p = cmd_str_len + 2 + 1 + 2 + 2 + p.data_len

-- the bytes that it leaves at the start of the buffer
unfoldable pub pck_to_b : Packet → Option (List ℕ)
pck_to_b p = do
  c ← read_bytes cmd_str_len p.cmd
  d ← read_bytes p.data_len p.payload
  some (c ++ p.flag ∷ (stob p.index ++ (stob p.ttl ++ (stob p.data_len ++ d))))

abbrev pub byte_at : List ℕ → ℕ
byte_at [] = 0
byte_at (b ∷ bs) = b

unfoldable pub b_to_header : List ℕ → Packet → Packet
b_to_header input output = record output {
  cmd = take cmd_str_len input;
  flag = byte_at (drop 3 input);
  index = btos (drop 4 input);
  ttl = btos (drop 6 input);
  data_len = btos (drop 8 input);
}

-- The first assignments are those of `b_to_header`; then the copy and the zero behind it.
unfoldable pub b_to_pck : List ℕ → Packet → Option Packet
b_to_pck input output = do
  let h = b_to_header input output
  d ← memcpy h.data_len (drop header_size input) h.payload
  d' ← store_byte d h.data_len 0
  some (record h { payload = d' })

unfoldable pub pckcpy : Packet → Packet → Option Packet
pckcpy dest src =
    let copied = record dest {
      cmd = src.cmd;
      index = src.index;
      flag = src.flag;
      ttl = src.ttl;
      data_len = src.data_len;
    } in
    if ltb 0 src.data_len
    then (memcpy src.data_len src.payload dest.payload >>= λ d.
        some (record copied { payload = d }))
    else some copied

-- `add_near_to_packet(pck, data, data_len)`
unfoldable pub add_near_to_packet : Packet → List ℕ → ℕ → Option Packet
add_near_to_packet pck bytes data_len = do
  d ← memcpy data_len bytes pck.payload
  some (record pck { payload = d; data_len = data_len % 2 ^ 16 })
