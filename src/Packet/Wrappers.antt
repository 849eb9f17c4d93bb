-- ===== src/Packet/Wrappers.antt =====
-- The functions of src/common/packet_util.c that set or clear one named flag, besides those that
-- the constructors call.
use karmanet.Packet.{
  Packet, mask, whohas_name, whohas_md5, query, next_chunk, superpeer, set_flag, unset_flag,
}

abbrev set_nextchunk_flag : Packet → Packet
set_nextchunk_flag pck = set_flag pck (mask next_chunk)

abbrev pub set_superpeer_flag : Packet → Packet
set_superpeer_flag pck = set_flag pck (mask superpeer)

abbrev unset_whohas_name_flag : Packet → Packet
unset_whohas_name_flag pck = unset_flag pck (mask whohas_name)

abbrev unset_whohas_md5_flag : Packet → Packet
unset_whohas_md5_flag pck = unset_flag pck (mask whohas_md5)

abbrev unset_query_flag : Packet → Packet
unset_query_flag pck = unset_flag pck (mask query)

abbrev unset_nextchunk_flag : Packet → Packet
unset_nextchunk_flag pck = unset_flag pck (mask next_chunk)

abbrev unset_superpeer_flag : Packet → Packet
unset_superpeer_flag pck = unset_flag pck (mask superpeer)
