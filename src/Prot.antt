-- ===== src/Prot.antt =====
-- Constants, byte order and limits of prot.h and common.h.
pub mod Cmd
pub mod Adas
pub mod Dms
use sanbao_prot.Base.{
  ℕ, ◌+◌, ◌*◌, ◌/◌, ◌%◌, ◌^◌, ◌<◌, ◌≡◌, [], ◌∷◌, ◌++◌, Bytes, get_or, arith, drop,
}

-- ENABLE_ADAS or ENABLE_DMS, chosen when the program is built.
pub data Device : Type 0 where
  adas dms : Device

abbrev pub id_adas : ℕ
id_adas = 0x64

abbrev pub id_dms : ℕ
id_dms = 0x65

abbrev pub id_brdcst : ℕ
id_brdcst = 0x0

-- The device id that the build answers to, and puts in the frames that it sends.
abbrev pub id_of : Device → ℕ
id_of adas = id_adas
id_of dms = id_dms

abbrev pub prot_magic : ℕ
prot_magic = 0x7E

abbrev pub prot_esc_char : ℕ
prot_esc_char = 0x7D

abbrev pub vendor_id : ℕ
vendor_id = 0x1234

abbrev pub mm_audio : ℕ
mm_audio = 1

abbrev pub mm_photo : ℕ
mm_photo = 0

abbrev pub mm_video : ℕ
mm_video = 2

-- sizeof(SBProtHeader)
abbrev pub header_size : ℕ
header_size = 8

abbrev pub image_size_per_packet : ℕ
image_size_per_packet = 65536

-- DATA_BUF_SIZE, the size of `rcvData`.
abbrev pub data_buf_size : ℕ
data_buf_size = image_size_per_packet

-- PTR_QUEUE_BUF_SIZE
abbrev pub ptr_queue_buf_size : ℕ
ptr_queue_buf_size = 2 * (image_size_per_packet + 64)

-- SLIP_DATA_BUF_SIZE
abbrev pub slip_data_buf_size : ℕ
slip_data_buf_size = ptr_queue_buf_size

-- The bytes in memory of htons(x) and htonl(x): the most significant comes first.
unfoldable pub be16 : ℕ → Bytes
be16 x = x / 256 % 256 ∷ x % 256 ∷ []

unfoldable pub be32 : ℕ → Bytes
be32 x = x / 2 ^ 24 % 256 ∷ x / 2 ^ 16 % 256 ∷ x / 256 % 256 ∷ x % 256 ∷ []

-- ntohs and ntohl of the field that stands at offset i of a block.
unfoldable pub read_be16 : Bytes → ℕ → ℕ
read_be16 b i = get_or b i 0 * 256 + get_or b (i + 1) 0

unfoldable pub read_be32 : Bytes → ℕ → ℕ
read_be32 b i = read_be16 b i * 65536 + read_be16 b (i + 2)

pub read_be16-be16 : (x : ℕ) (rest : Bytes) → x < 65536 → read_be16 (be16 x ++ rest) 0 ≡ x
unfolding read_be16 be16
read_be16-be16 x rest h = omega arith

pub read_be32-be32 : (x : ℕ) (rest : Bytes) → x < 2 ^ 32 → read_be32 (be32 x ++ rest) 0 ≡ x
unfolding read_be32 read_be16 be32
read_be32-be32 x rest h = omega arith
