-- ===== src/Pipeline/Examples/Served.antt =====
-- The server of the fixtures: its response is read from its wire form and handed on.
use border_dns.Prelude.{ℕ, ◌≡◌, refl, [], ◌∷◌}
use border_dns.Protocol.Header
use border_dns.Upstream.{forward, race, results, forward_single, over, parsed, answered}
use border_dns.Text.{is_empty}
use border_dns.Protocol.Message.{
  from_wire, to_wire, write_to, write_section, query, add_answer, response, read_message,
  read_section,
}
use border_dns.Protocol.Rr.{
  write_record, write_plain, write_rdata, is_opt, pos_of, read_body, read_rdata, read_record,
  skip_rest,
}
use border_dns.Protocol.Wire.{
  write_bytes, new, peek_u8, read_bytes, read_u16, read_u32, read_u8, set_pos, write_u16, write_u32,
  write_u8,
}
use border_dns.Protocol.Header.{
  flags_of_header, header_of_flags, opcode_as_u8, opcode_from_u8, response_code_as_u8,
  response_code_from_u8, response_header, query_header, set_flag,
}
use border_dns.Protocol.Name.{
  classify, labels_loop, push_end, read_label, read_name, read_name_with_depth, write_labels,
  write_wire_uncompressed,
}
use border_dns.Protocol.Question.{read_question, write_question}
use border_dns.Types.Codes.{
  qclass_as_u16, qclass_from_u16, qtype_as_u16, qtype_from_u16, record_class_as_u16,
  record_class_from_u16, record_type_as_u16, record_type_from_u16,
}
use border_dns.Pipeline.Examples.Fixtures.{question, server, answer, at}

-- Whatever the identifier that it is asked under, the response is the answer.
pub forward-answer :
    (id : ℕ)
    → forward (at 0).exchange (at 0).finish_order (query id question) (server ∷ []) 5
      ≡ answered answer
unfolding forward is_empty race results forward_single over parsed from_wire to_wire write_to
    write_section query add_answer response write_record write_plain write_rdata write_bytes
    flags_of_header header_of_flags opcode_as_u8 opcode_from_u8 Header.read response_code_as_u8
    response_code_from_u8 response_header query_header set_flag Header.write read_message
    read_section classify labels_loop push_end read_label read_name read_name_with_depth
    write_labels write_wire_uncompressed read_question write_question is_opt pos_of read_body
    read_rdata read_record skip_rest new peek_u8 read_bytes read_u16 read_u32 read_u8 set_pos
    write_u16 write_u32 write_u8 qclass_as_u16 qclass_from_u16 qtype_as_u16 qtype_from_u16
    record_class_as_u16 record_class_from_u16 record_type_as_u16 record_type_from_u16
forward-answer id = refl
